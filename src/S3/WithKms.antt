-- ===== src/S3/WithKms.antt =====
-- pkg/s3/handler_kms.go: `HandlerWithKMS`, whose uploads ask the storage for encryption with a KMS key, and
-- the settings of a bucket that it reads (internal/kms/config.go).
pub mod Stored
pub mod Answers
mod Examples
use s3proxy_go.Base.{
  ℕ, ◌==◌, if◌then◌else◌, ◌&&◌, not, Bool, true, false, Option, none, some, List, [], ◌∷◌, Bytes,
  is_empty, beq, Dict, lookup, insert, has_suffix, take, length, ◌-◌, lit, pos, ltb_ℤ, format_hex,
  Result, ok, err,
}
use s3proxy_go.Storage.Backend.{Reader, Backend, CompletedPart}
use s3proxy_go.Kms.DataKeyCache.{Heap}
use s3proxy_go.Kms.Manager.{Manager, BucketKmsConfig}
use s3proxy_go.Kms.Manager.DataKeys.{
  is_empty_dict, get_encryption_headers, close_manager, algorithm_header, key_id_header,
  context_header,
}
use s3proxy_go.Remote.Buckets.{BucketConfig, S3StorageConfig, get_bucket_config}
use s3proxy_go.S3.Http.{Request, Response, empty, value_of, send_error, collect_metadata}
use s3proxy_go.S3.Objects.{Render, quoted}
use s3proxy_go.S3.KmsRoute.{
  Choice, on_bucket, on_object, encrypted_upload, not_allowed, without_slash, choice_of,
}
use s3proxy_go.S3.Route.{
  method_of, run, handle_bucket, Operation, Method, complete_upload, abort_upload, upload_part,
  initiate_upload, get_acl, put_acl,
}

-- `BucketConfigFromAppConfig`
unfoldable pub bucket_kms_config : Option BucketConfig → Option BucketKmsConfig
unfolding is_empty
bucket_kms_config none = none
bucket_kms_config (some b) =
    if is_empty b.kms_key_id
    then none
    else some (record {
      key_id = b.kms_key_id;
      encryption_context = b.kms_encryption_context;
      override_default = not (is_empty_dict b.kms_encryption_context);
    })

-- the settings of a bucket where the storage is an S3 backend, with these settings
unfoldable pub bucket_settings : Option S3StorageConfig → Bytes → Option BucketKmsConfig
unfolding bucket_kms_config get_bucket_config
bucket_settings none bucket = none
bucket_settings (some c) bucket = bucket_kms_config (get_bucket_config c bucket)

-- the headers of a manager, `none` where there is none or it is not enabled
unfoldable pub headers_of : Option Manager → Option BucketKmsConfig → Option (Dict Bytes)
unfolding get_encryption_headers
headers_of none b = none
headers_of (some m) b = get_encryption_headers b m

-- the loop that adds the headers to the metadata
unfoldable pub add_all : Dict Bytes → Dict Bytes → Dict Bytes
unfolding insert
add_all metadata [] = metadata
add_all metadata ((k, v) ∷ headers) = add_all (insert k v metadata) headers

abbrev pub or_none : Option (Dict Bytes) → Dict Bytes
or_none none = []
or_none (some m) = m

-- the metadata that `putObjectWithKMS` hands to the storage
unfoldable pub with_headers : Option (Dict Bytes) → Option (Dict Bytes) → Dict Bytes
unfolding add_all
with_headers none metadata = or_none metadata
with_headers (some headers) metadata = add_all (or_none metadata) headers

-- what its caller has then: the map is changed in place, and a new one, for nil, is not seen
unfoldable pub seen_by_caller : Option (Dict Bytes) → Option (Dict Bytes) → Option (Dict Bytes)
unfolding add_all
seen_by_caller headers none = none
seen_by_caller none (some m) = some m
seen_by_caller (some headers) (some m) = some (add_all m headers)

abbrev made : Dict Bytes → Option (Dict Bytes)
made [] = none
made (kv ∷ m) = some (kv ∷ m)

abbrev copied : Bytes → Dict Bytes → Dict Bytes → Dict Bytes
copied name headers m =
    if is_empty (value_of name headers) then m else insert name (value_of name headers) m

-- the metadata of an upload: that of its headers, and the KMS key that the client asks for; `none` is nil
unfoldable pub upload_metadata : Dict Bytes → Option (Dict Bytes)
unfolding collect_metadata value_of is_empty insert beq
upload_metadata headers =
    let metadata = collect_metadata headers in
    if beq (value_of algorithm_header headers) (lit "aws:kms")
    then some (copied context_header headers (copied key_id_header headers metadata))
    else made metadata

abbrev key_shown : Bytes → Option Bytes → Dict Bytes
key_shown etag none = (lit "etag", etag) ∷ []
key_shown etag (some key_id) =
    (lit "etag", etag) ∷ (algorithm_header, lit "aws:kms") ∷ (key_id_header, key_id) ∷ []

abbrev found_in : Option (Dict Bytes) → Option Bytes
found_in none = none
found_in (some m) = lookup key_id_header m

-- the headers of the response to an upload
unfoldable pub response_headers : Option (Dict Bytes) → Option (Dict Bytes) → Bytes → Dict Bytes
unfolding lookup
response_headers none seen etag = key_shown etag none
response_headers (some headers) seen etag = key_shown etag (found_in seen)

module _ (manager : Option Manager) (storage : Option S3StorageConfig) {S : Type 0}
    (backend : Backend S) where
  -- `putObjectWithKMS`
  unfoldable pub put_object_with_kms :
      Bytes → Bytes → Request → Option (Dict Bytes) → S → Result Bytes (Unit {0}) × S
  unfolding bucket_settings headers_of with_headers
  put_object_with_kms bucket key r metadata s =
      backend.put_object bucket key r.body r.content_length
        (with_headers (headers_of manager (bucket_settings storage bucket)) metadata) s

  abbrev answered : Bytes → Option (Dict Bytes) → ℕ → Result Bytes (Unit {0}) × S → Response × S
  answered bucket metadata now (err message, s) = (send_error [] message 500, s)
  answered bucket metadata now (ok u, s) =
      let headers = headers_of manager (bucket_settings storage bucket) in
      (
        record {
          status = 200;
          headers =
              response_headers headers (seen_by_caller headers metadata) (quoted (format_hex now));
          body = empty;
        },
        s,
      )

  -- `putObjectKMS`
  unfoldable pub put_object_kms : Request → ℕ → S → Response × S
  unfolding put_object_with_kms seen_by_caller response_headers upload_metadata
  put_object_kms r now s =
      if ltb_ℤ r.content_length (pos 0)
      then (send_error [] (lit "missing Content-Length") 400, s)
      else answered r.bucket (upload_metadata r.headers) now
          (put_object_with_kms r.bucket r.key r (upload_metadata r.headers) s)

  abbrev shown : Response × S → Option Response × S
  shown (resp, s) = (some resp, s)

  -- a method that is not allowed makes `sendError` read the message of a nil error, which panics: no
  -- response is sent
  abbrev chosen :
      Render → Choice → Request → Option (List CompletedPart) → ℕ → S → Option Response × S
  chosen render on_bucket r parts now s = shown (handle_bucket render backend r s)
  chosen render (on_object o) r parts now s = shown (run render backend o r parts now s)
  chosen render encrypted_upload r parts now s = shown (put_object_kms r now s)
  chosen render not_allowed r parts now s = (none, s)

  -- `HandlerWithKMS.handleObject`
  unfoldable pub handle_object_kms :
      Render → Request → Option (List CompletedPart) → ℕ → S → Option Response × S
  unfolding put_object_kms choice_of handle_bucket run has_suffix
  handle_object_kms render r parts now s =
      chosen render (choice_of (method_of r.method) r.key r.query)
        (record r { key = without_slash r.key }) parts now s

-- `Close`
unfoldable pub close_handler : Option Manager → Heap → Option Manager × Heap
unfolding close_manager
close_handler none h = (none, h)
close_handler (some m) h = let (m', h') = close_manager m h in (some m', h')
