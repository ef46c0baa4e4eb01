-- ===== src/S3/KmsRoute.antt =====
-- pkg/s3/handler_kms.go: the choice of the operation of a request in `HandlerWithKMS.handleObject`.
use s3proxy_go.Base.{
  if◌then◌else◌, ◌&&◌, not, Bool, true, false, Option, none, some, Bytes, is_empty, Dict,
  has_suffix, take, length, ◌-◌, lit,
}
use s3proxy_go.S3.Http.{value_of}
use s3proxy_go.S3.Route.{
  Operation, Method, complete_upload, abort_upload, upload_part, initiate_upload, get_acl, put_acl,
}

-- what the request asks for: an operation of the handler, one on its bucket, an upload, or nothing
pub data Choice : Type 0 where
  on_bucket : Choice
  on_object : Operation → Choice
  encrypted_upload : Choice
  not_allowed : Choice

unfoldable pub upload_choice : Method → Bytes → Bytes → Option Choice
unfolding is_empty
upload_choice Method.put upload_id part =
    if is_empty part then none else some (on_object (upload_part upload_id part))
upload_choice Method.post upload_id part =
    if is_empty part then some (on_object (complete_upload upload_id)) else none
upload_choice Method.delete upload_id part =
    if is_empty part then some (on_object (abort_upload upload_id)) else none
upload_choice m upload_id part = none

unfoldable pub acl_choice : Method → Choice
acl_choice Method.get = on_object get_acl
acl_choice Method.put = on_object put_acl
acl_choice m = not_allowed

unfoldable pub plain_choice : Method → Choice
plain_choice Method.get = on_object Operation.get
plain_choice Method.put = encrypted_upload
plain_choice Method.head = on_object Operation.head
plain_choice Method.delete = on_object Operation.delete
plain_choice m = not_allowed

abbrev is_post : Method → Bool
is_post Method.post = true
is_post m = false

unfoldable pub general_choice : Method → Dict Bytes → Choice
unfolding is_empty acl_choice plain_choice
general_choice m query =
    if is_post m && not (is_empty (value_of (lit "uploads") query))
    then on_object initiate_upload
    else if not (is_empty (value_of (lit "acl") query))
    then acl_choice m
    else plain_choice m

abbrev or_general : Choice → Option Choice → Choice
or_general c none = c
or_general c (some c') = c'

-- `strings.TrimSuffix` of a slash
abbrev pub without_slash : Bytes → Bytes
without_slash key = if has_suffix key (lit "/") then take (length key - 1) key else key

-- the choice of `HandlerWithKMS.handleObject`
unfoldable pub choice_of : Method → Bytes → Dict Bytes → Choice
unfolding is_empty upload_choice general_choice has_suffix
choice_of m key query =
    let upload_id = value_of (lit "uploadId") query in
    if is_empty (without_slash key)
    then on_bucket
    else if is_empty upload_id
    then general_choice m query
    else or_general (general_choice m query)
        (upload_choice m upload_id (value_of (lit "partNumber") query))
