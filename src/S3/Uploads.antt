-- ===== src/S3/Uploads.antt =====
-- pkg/s3/handler.go: the other operations on objects and buckets: putObject, deleteObject, headObject,
-- the buckets, the multipart uploads and the access control lists. Text that a request carries beside
-- its method and keys (the XML of a completed upload) is handed over decoded.
pub mod RoundTrip
use s3proxy_go.Base.{
  ℕ, ◌==◌, if◌then◌else◌, ◌||◌, Bool, true, false, Option, none, some, List, [], ◌++◌, Bytes, Dict,
  insert, lit, ℤ, pos, take, length, Result, ok, err, leb, ltb_ℤ, pos_part, format_int, format_hex,
  parse_int,
}
use s3proxy_go.Storage.Backend.{Reader, ObjectInfo, CompletedPart, Backend}
use s3proxy_go.S3.Http.{
  Request, Response, Payload, empty, bucket_list, object_list, upload_started, upload_completed,
  part_list, access_control, value_of, send_error, plain_status, xml_headers, collect_metadata,
  set_metadata,
}
use s3proxy_go.S3.Objects.{Render, small_file_limit, quoted}

etag_or_time : Option Bytes → ℕ → Bytes
etag_or_time none now = quoted (format_hex now)
etag_or_time (some etag) now = etag

stored : Option Bytes → ℕ → Result Bytes (Unit {0}) → Response
unfolding etag_or_time
stored etag now (err message) = send_error [] message 500
stored etag now (ok _) = record {
  status = 200;
  headers = insert (lit "etag") (etag_or_time etag now) [];
  body = empty;
}

module _ (render : Render) where
  -- what `putObject` reads of the request before it calls the backend: the body that is stored and the
  -- ETag, or an error. `none` as ETag is the empty text.
  unfoldable pub read_upload : Request → Result Bytes (Reader × Option Bytes)
  read_upload r =
      if ltb_ℤ r.content_length (pos 0)
      then err (lit "missing Content-Length")
      else if pos_part r.content_length == 0
      then ok (
        record { seekable = true; content = []; fails = false },
        some (quoted (lit "d41d8cd98f00b204e9800998ecf8427e")),
      )
      else if leb (pos_part r.content_length) small_file_limit
      then (if leb (pos_part r.content_length) (length r.body.content)
          then (let buf = take (pos_part r.content_length) r.body.content in
              ok (
                record { seekable = true; content = buf; fails = false },
                some (quoted (render.md5_hex buf)),
              ))
          else err (lit "unexpected EOF"))
      else ok (r.body, none)

  info_headers : ObjectInfo → Dict Bytes
  info_headers info =
      set_metadata
        (insert (lit "last-modified") (render.http_date info.last_modified)
          (insert (lit "etag") info.etag (insert (lit "content-length") (format_int info.size) [])))
        info.metadata

  send_info : Result Bytes ObjectInfo → Response
  unfolding info_headers
  send_info (err message) = send_error [] message 404
  send_info (ok info) = record { status = 200; headers = info_headers info; body = empty }

-- the status of an operation with no result to send
done_or : ℕ → ℕ → Result Bytes (Unit {0}) → Response
done_or good bad (err message) = send_error [] message bad
done_or good bad (ok _) = plain_status good

existence : Result Bytes Bool → Response
existence (err message) = send_error [] message 500
existence (ok false) = send_error [] (lit "bucket not found") 404
existence (ok true) = plain_status 200

document_or : {A : Type 0} → (A → Payload) → Result Bytes A → Response
document_or payload (err message) = send_error [] message 500
document_or payload (ok a) = record { status = 200; headers = xml_headers; body = payload a }

-- `strconv.Atoi` with a default, where only positive numbers count
positive_or : ℤ → Bytes → ℤ
positive_or default text = elim (parse_int text) [
  | none ↦ default
  | some n ↦ if ltb_ℤ (pos 0) n then n else default
]

number_or : ℤ → Bytes → ℤ
number_or default text = elim (parse_int text) [ none ↦ default | some n ↦ n ]

-- the part number of `uploadPart`, from 1 to 10000
unfoldable pub part_number_of : Bytes → Option ℤ
part_number_of text = elim (parse_int text) [
  | none ↦ none
  | some n ↦ if ltb_ℤ n (pos 1) || ltb_ℤ (pos 10000) n then none else some n
]

etag_of : Result Bytes Bytes → Response
etag_of (err message) = send_error [] message 500
etag_of (ok etag) = record { status = 200; headers = insert (lit "etag") etag []; body = empty }

module _ {S : Type 0} (backend : Backend S) where
  -- runs an operation of the backend and answers with what it returned
  answer : {A : Type 0} → (Result Bytes A → Response) → Result Bytes A × S → Response × S
  answer f (result, s) = (f result, s)

  put_read : Request → ℕ → S → Result Bytes (Reader × Option Bytes) → Response × S
  unfolding answer stored
  put_read r now s (err message) = (send_error [] message 400, s)
  put_read r now s (ok (body, etag)) =
      answer (stored etag now)
        (backend.put_object r.bucket r.key body r.content_length (collect_metadata r.headers) s)

  -- `putObject`
  unfoldable pub put_object : Render → Request → ℕ → S → Response × S
  unfolding put_read
  put_object render r now s = put_read r now s (read_upload render r)

  -- `deleteObject`
  unfoldable pub delete_object : Request → S → Response × S
  unfolding answer done_or
  delete_object r s = answer (done_or 204 404) (backend.delete_object r.bucket r.key s)

  -- `headObject`
  unfoldable pub head_object : Render → Request → S → Response × S
  unfolding answer send_info
  head_object render r s = answer (send_info render) (backend.head_object r.bucket r.key s)

  -- `listBuckets`
  unfoldable pub list_buckets : Request → S → Response × S
  unfolding answer document_or
  list_buckets r s = answer (document_or bucket_list) (backend.list_buckets s)

  -- `createBucket`
  unfoldable pub create_bucket : Request → S → Response × S
  unfolding answer done_or
  create_bucket r s = answer (done_or 200 409) (backend.create_bucket r.bucket s)

  -- `deleteBucket`
  unfoldable pub delete_bucket : Request → S → Response × S
  unfolding answer done_or
  delete_bucket r s = answer (done_or 204 409) (backend.delete_bucket r.bucket s)

  -- `headBucket`
  unfoldable pub head_bucket : Request → S → Response × S
  unfolding answer existence
  head_bucket r s = answer existence (backend.bucket_exists r.bucket s)

  -- `listObjects`
  unfoldable pub list_objects : Request → S → Response × S
  unfolding answer document_or positive_or
  list_objects r s =
      let prefix = value_of (lit "prefix") r.query in
      let marker = value_of (lit "marker") r.query in
      let delimiter = value_of (lit "delimiter") r.query in
      let max_keys = positive_or (pos 1000) (value_of (lit "max-keys") r.query) in
      answer (document_or (object_list r.bucket prefix marker max_keys))
        (backend.list_objects_with_delimiter r.bucket prefix marker delimiter max_keys s)

  -- `initiateMultipartUpload`
  unfoldable pub initiate_multipart_upload : Request → S → Response × S
  unfolding answer document_or
  initiate_multipart_upload r s =
      answer (document_or (upload_started r.bucket r.key))
        (backend.initiate_multipart_upload r.bucket r.key (collect_metadata r.headers) s)

  upload_numbered : Request → Bytes → Option ℤ → S → Response × S
  unfolding answer etag_of
  upload_numbered r upload_id none s = (send_error [] (lit "invalid part number") 400, s)
  upload_numbered r upload_id (some n) s =
      if ltb_ℤ r.content_length (pos 0)
      then (send_error [] (lit "missing Content-Length") 400, s)
      else answer etag_of (backend.upload_part r.bucket r.key upload_id n r.body r.content_length s)

  -- `uploadPart`
  unfoldable pub upload_part : Request → Bytes → Bytes → S → Response × S
  unfolding upload_numbered
  upload_part r upload_id part_number s = upload_numbered r upload_id (part_number_of part_number) s

  -- `completeMultipartUpload`; `parts` is the decoded body, `none` where it is no such document
  unfoldable pub complete_multipart_upload :
      Request → Bytes → Option (List CompletedPart) → ℕ → S → Response × S
  unfolding answer document_or
  complete_multipart_upload r upload_id none now s = (send_error [] (lit "malformed XML") 400, s)
  complete_multipart_upload r upload_id (some parts) now s =
      answer
        (document_or (λ _.
          upload_completed
            (lit "http://" ++ (r.host ++ (lit "/" ++ (r.bucket ++ (lit "/" ++ r.key))))) r.bucket
            r.key (quoted (format_hex now ++ (lit "-" ++ format_int (pos (length parts)))))))
        (backend.complete_multipart_upload r.bucket r.key upload_id parts s)

  -- `abortMultipartUpload`
  unfoldable pub abort_multipart_upload : Request → Bytes → S → Response × S
  unfolding answer done_or
  abort_multipart_upload r upload_id s =
      answer (done_or 204 500) (backend.abort_multipart_upload r.bucket r.key upload_id s)

  -- `listParts`
  unfoldable pub list_parts : Request → Bytes → S → Response × S
  unfolding answer document_or positive_or number_or
  list_parts r upload_id s =
      let max_parts = positive_or (pos 1000) (value_of (lit "max-parts") r.query) in
      let marker = number_or (pos 0) (value_of (lit "part-number-marker") r.query) in
      answer (document_or (part_list r.bucket r.key upload_id marker max_parts))
        (backend.list_parts r.bucket r.key upload_id max_parts marker s)

  -- `getObjectACL`
  unfoldable pub get_object_acl : Request → S → Response × S
  unfolding answer document_or
  get_object_acl r s = answer (document_or access_control) (backend.get_object_acl r.bucket r.key s)

  -- `putObjectACL`; the list that the request carries is not read
  unfoldable pub put_object_acl : Request → S → Response × S
  unfolding answer done_or
  put_object_acl r s = answer (done_or 200 500) (backend.put_object_acl r.bucket r.key none s)
