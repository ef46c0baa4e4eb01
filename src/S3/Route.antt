-- ===== src/S3/Route.antt =====
-- pkg/s3/handler.go: `handleBucket` and `handleObject`, which choose the operation of a request.
pub mod Dispatch
pub mod Safety
use s3proxy_go.Base.{
  ℕ, if◌then◌else◌, ◌||◌, ◌&&◌, not, Bool, true, false, Option, none, some, List, [], ◌∷◌, Bytes,
  is_empty, beq, contains, Dict, lookup, to_lower, lit, Result, ok, err,
}
use s3proxy_go.Storage.Backend.{Backend, CompletedPart}
use s3proxy_go.S3.Http.{Request, Response, value_of, send_error, plain_status}
use s3proxy_go.S3.Objects.{Render, get_object}
use s3proxy_go.S3.Uploads

-- the operations on objects that a request may ask for
pub data Operation : Type 0 where
  complete_upload abort_upload list_parts : Bytes → Operation
  upload_part : Bytes → Bytes → Operation
  initiate_upload get_acl put_acl : Operation
  get put delete head no_operation : Operation

pub data Method : Type 0 where
  get put delete head post other : Method

unfoldable pub method_of : Bytes → Method
unfolding beq
method_of m =
    if beq m (lit "GET")
    then Method.get
    else if beq m (lit "PUT")
    then Method.put
    else if beq m (lit "DELETE")
    then Method.delete
    else if beq m (lit "HEAD")
    then Method.head
    else if beq m (lit "POST")
    then Method.post
    else Method.other

-- the operation of a request for an upload; `none` goes on with the other tests
upload_operation : Method → Bytes → Bytes → Option Operation
unfolding is_empty
upload_operation Method.post upload_id part = some (complete_upload upload_id)
upload_operation Method.delete upload_id part = some (abort_upload upload_id)
upload_operation Method.get upload_id part = some (list_parts upload_id)
upload_operation Method.put upload_id part =
    if is_empty part then none else some (upload_part upload_id part)
upload_operation Method.head upload_id part = none
upload_operation Method.other upload_id part = none

is_some {ℓ} : {A : Type ℓ} → Option A → Bool
is_some none = false
is_some (some a) = true

plain_operation : Method → Operation
plain_operation Method.get = Operation.get
plain_operation Method.put = Operation.put
plain_operation Method.delete = Operation.delete
plain_operation Method.head = Operation.head
plain_operation Method.post = no_operation
plain_operation Method.other = no_operation

acl_operation : Method → Operation
unfolding plain_operation
acl_operation Method.get = get_acl
acl_operation Method.put = put_acl
acl_operation m = plain_operation m

is_post : Method → Bool
is_post Method.post = true
is_post _ = false

-- the tests behind those of an upload
general_operation : Method → Dict Bytes → Operation
unfolding is_some plain_operation acl_operation is_post is_empty
general_operation m query =
    if is_some (lookup (lit "uploads") query) && is_post m
    then initiate_upload
    else if is_empty (value_of (lit "acl") query)
    then plain_operation m
    else acl_operation m

or_else : Operation → Option Operation → Operation
or_else o none = o
or_else o (some o') = o'

-- the choice that `handleObject` makes
unfoldable pub operation_of : Method → Dict Bytes → Operation
unfolding is_empty upload_operation general_operation or_else
operation_of m query =
    let upload_id = value_of (lit "uploadId") query in
    if is_empty upload_id
    then general_operation m query
    else or_else (general_operation m query)
        (upload_operation m upload_id (value_of (lit "partNumber") query))

-- a client whose user agent names minio or mc
unfoldable pub is_mc : Bytes → Bool
unfolding contains to_lower
is_mc agent = contains (to_lower agent) (lit "minio") || contains (to_lower agent) (lit "mc")

-- `isValidBucket`
valid_bucket : Result Bytes Bool → Bool
valid_bucket (err message) = false
valid_bucket (ok found) = found

module _ (render : Render) {S : Type 0} (backend : Backend S) where
  -- runs an operation; with none net/http sends an empty response of status 200
  unfoldable pub run : Operation → Request → Option (List CompletedPart) → ℕ → S → Response × S
  run (complete_upload upload_id) r parts now s =
      Uploads.complete_multipart_upload backend r upload_id parts now s
  run (abort_upload upload_id) r parts now s = Uploads.abort_multipart_upload backend r upload_id s
  run (list_parts upload_id) r parts now s = Uploads.list_parts backend r upload_id s
  run (upload_part upload_id part) r parts now s = Uploads.upload_part backend r upload_id part s
  run initiate_upload r parts now s = Uploads.initiate_multipart_upload backend r s
  run get_acl r parts now s = Uploads.get_object_acl backend r s
  run put_acl r parts now s = Uploads.put_object_acl backend r s
  run Operation.get r parts now s = get_object render backend r s
  run Operation.put r parts now s = Uploads.put_object backend render r now s
  run Operation.delete r parts now s = Uploads.delete_object backend r s
  run Operation.head r parts now s = Uploads.head_object backend render r s
  run no_operation r parts now s = (plain_status 200, s)

  -- `handleObject`; `parts` is the body of the request as `completeMultipartUpload` would decode it
  unfoldable pub handle_object : Request → Option (List CompletedPart) → ℕ → S → Response × S
  unfolding run
  handle_object r parts now s = run (operation_of (method_of r.method) r.query) r parts now s

  -- the `switch` of `handleBucket`
  bucket_operation : Method → Request → S → Response × S
  bucket_operation Method.get r s = Uploads.list_objects backend r s
  bucket_operation Method.put r s = Uploads.create_bucket backend r s
  bucket_operation Method.delete r s = Uploads.delete_bucket backend r s
  bucket_operation Method.head r s = Uploads.head_bucket backend r s
  bucket_operation Method.post r s = (plain_status 200, s)
  bucket_operation Method.other r s = (plain_status 200, s)

  checked : Request → Result Bytes Bool × S → Response × S
  unfolding valid_bucket bucket_operation
  checked r (found, s) =
      if valid_bucket found
      then bucket_operation (method_of r.method) r s
      else (send_error [] (lit "bucket not found") 404, s)

  -- `handleBucket`
  unfoldable pub handle_bucket : Request → S → Response × S
  unfolding checked bucket_operation is_mc
  handle_bucket r s =
      if is_mc (value_of (lit "user-agent") r.headers)
      then checked r (backend.bucket_exists r.bucket s)
      else bucket_operation (method_of r.method) r s
