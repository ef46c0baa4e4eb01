-- ===== src/S3/Http.antt =====
-- The requests and responses of pkg/s3/handler.go, and its `sendError`. Header names are kept in lower
-- case, where net/http keeps its own canonical form of them.
use s3proxy_go.Base.{
  ℕ, ◌==◌, if◌then◌else◌, ◌||◌, Bool, false, Option, none, some, List, [], ◌∷◌, ◌++◌, Bytes,
  contains, Dict, lookup, insert, to_lower, lit, ℤ, has_prefix, drop,
}
use s3proxy_go.Storage.Backend.{Reader, BucketInfo, ListObjectsResult, ListPartsResult, Acl}

-- `bucket` and `key` are the variables of the route
pub record Request : Type 0 where
  pub method : Bytes
  pub bucket : Bytes
  pub key : Bytes
  pub query : Dict Bytes
  pub headers : Dict Bytes
  pub host : Bytes
  pub content_length : ℤ
  pub body : Reader

pub data Payload : Type 0 where
  empty : Payload
  bytes : Bytes → Payload
  error_document : Bytes → Bytes → Payload
  bucket_list : List BucketInfo → Payload
  object_list : Bytes → Bytes → Bytes → ℤ → ListObjectsResult → Payload
  upload_started : Bytes → Bytes → Bytes → Payload
  upload_completed : Bytes → Bytes → Bytes → Bytes → Payload
  part_list : Bytes → Bytes → Bytes → ℤ → ℤ → ListPartsResult → Payload
  access_control : Acl → Payload

pub record Response : Type 0 where
  pub status : ℕ
  pub headers : Dict Bytes
  pub body : Payload

-- `Get` of a query or of headers: the empty text for a name that is missing
unfoldable pub value_of : Bytes → Dict Bytes → Bytes
unfolding lookup
value_of name m = elim (lookup name m) [ none ↦ [] | some v ↦ v ]

error_code : ℕ → Bytes
error_code status =
    if status == 404
    then lit "NoSuchKey"
    else if status == 409
    then lit "BucketAlreadyExists"
    else if status == 400
    then lit "BadRequest"
    else if status == 403
    then lit "AccessDenied"
    else lit "InternalError"

-- `sendError`, over the headers that were set before
unfoldable pub send_error : Dict Bytes → Bytes → ℕ → Response
unfolding error_code
send_error headers message status = record {
  status = status;
  headers = insert (lit "content-type") (lit "application/xml") headers;
  body = error_document (error_code status) message;
}

abbrev pub plain_status : ℕ → Response
plain_status status = record { status = status; headers = []; body = empty }

abbrev pub xml_headers : Dict Bytes
xml_headers = (lit "content-type", lit "application/xml") ∷ []

abbrev pub meta_prefix : Bytes
meta_prefix = lit "x-amz-meta-"

-- the loop over `r.Header` that collects the metadata of an upload
collect_from : Dict Bytes → Dict Bytes → Dict Bytes
unfolding has_prefix to_lower
collect_from metadata [] = metadata
collect_from metadata ((k, v) ∷ headers) =
    collect_from
      (if has_prefix (to_lower k) meta_prefix
        then insert (drop 11 (to_lower k)) v metadata
        else metadata)
      headers

unfoldable pub collect_metadata : Dict Bytes → Dict Bytes
unfolding collect_from
collect_metadata headers = collect_from [] headers

-- the loop that sends the metadata of an object
unfoldable pub set_metadata : Dict Bytes → Dict Bytes → Dict Bytes
unfolding to_lower
set_metadata headers [] = headers
set_metadata headers ((k, v) ∷ metadata) =
    set_metadata (insert (meta_prefix ++ to_lower k) v headers) metadata

-- `isClientDisconnectError`
unfoldable pub is_client_disconnect_error : Option Bytes → Bool
unfolding contains
is_client_disconnect_error none = false
is_client_disconnect_error (some message) =
    contains message (lit "broken pipe")
    || contains message (lit "connection reset")
    || contains message (lit "write: connection refused")
