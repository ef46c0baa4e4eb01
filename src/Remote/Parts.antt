-- ===== src/Remote/Parts.antt =====
-- internal/storage/s3.go: multipart uploads, and objects that are put in parts.
pub mod Pieces
use s3proxy_go.Base.{
  ℕ, zero, suc, ◌+◌, ◌*◌, Bool, true, false, if◌then◌else◌, not, ◌&&◌, ltb, ltb_ℤ, leb_ℤ, Bytes,
  lit, Dict, List, [], ◌∷◌, ◌++◌, map, Option, none, some, Result, ok, err, ℤ, pos, length, take,
  drop, format_nat,
}
use s3proxy_go.Storage.Backend.{Action, Reader, CompletedPart, Part, ListPartsResult}
use s3proxy_go.Storage.Steps.{◌>>=◌, ◌>>◌, wrap, return}
use s3proxy_go.Remote.Sdk.{
  Sdk, CreateMultipartUploadInput, UploadPartInput, SdkCompletedPart, SdkPart, ListPartsInput,
  ListPartsOutput, value_or,
}
use s3proxy_go.Remote.State.{Setting, S3State, client_for, call, real_bucket, real_key, invalidated}
use s3proxy_go.Remote.Objects.{put_whole}
use s3proxy_go.Remote.Metadata.{user_metadata, wants_kms, kms_key}

abbrev pub part_size : ℕ
part_size = 5 * 1024 * 1024

abbrev pub multipart_threshold : ℕ
multipart_threshold = 5 * 1024 * 1024

unfoldable pub completed_parts : List CompletedPart → List SdkCompletedPart
completed_parts [] = []
completed_parts (p ∷ ps) =
    record { part_number = p.part_number; etag = some p.etag } ∷ completed_parts ps

unfoldable pub parts_of : List SdkPart → List Part
parts_of [] = []
parts_of (p ∷ ps) =
    record {
      part_number = value_or (pos 0) p.part_number;
      etag = value_or [] p.etag;
      size = value_or (pos 0) p.size;
      last_modified = value_or 0 p.last_modified;
    }
    ∷ parts_of ps

-- the bytes that a reader gives until it ends or fails: `io.ReadAll`
abbrev pub read_whole : Bytes → Reader → Result Bytes Bytes
read_whole context r = if r.fails then err (context ++ lit "read failed") else ok r.content

module _ {Client World : Type 0} (s3 : Setting Client World) where
  abbrev Step : Type 0 → Type 0
  Step A = Action (S3State Client World) A

  unfoldable pub initiate_multipart_upload : Bytes → Bytes → Dict Bytes → Step Bytes
  unfolding client_for call
  initiate_multipart_upload bucket key metadata = do
    client ← client_for s3 bucket
    upload_id ← wrap (lit "failed to initiate multipart upload: ") (
        call s3 (
          s3.sdk.create_multipart_upload client (record {
            bucket = real_bucket s3 bucket;
            key = real_key s3 bucket key;
            metadata = metadata;
            server_side_encryption = none;
            sse_kms_key_id = none;
          })))
    return (value_or [] upload_id)

  unfoldable pub upload_part : Bytes → Bytes → Bytes → ℤ → Reader → ℤ → Step Bytes
  unfolding client_for call
  upload_part bucket key upload_id n reader size = do
    bytes ← λ s. (read_whole (lit "failed to read part data: ") reader, s)
    client ← client_for s3 bucket
    etag ← wrap (lit "failed to upload part: ") (
        call s3 (
          s3.sdk.upload_part client (record {
            bucket = real_bucket s3 bucket;
            key = real_key s3 bucket key;
            upload_id = some upload_id;
            part_number = n;
            body = bytes;
            content_length = some (pos (length bytes));
          })))
    return (value_or [] etag)

  -- the metadata cache is left as it is
  unfoldable pub complete_multipart_upload :
      Bytes → Bytes → Bytes → List CompletedPart → Step (Unit {0})
  unfolding client_for call completed_parts
  complete_multipart_upload bucket key upload_id parts = do
    client ← client_for s3 bucket
    wrap (lit "failed to complete multipart upload: ") (
        call s3 (
          s3.sdk.complete_multipart_upload client (real_bucket s3 bucket) (real_key s3 bucket key)
            (some upload_id) (completed_parts parts)))

  unfoldable pub abort_multipart_upload : Bytes → Bytes → Bytes → Step (Unit {0})
  unfolding client_for call
  abort_multipart_upload bucket key upload_id = do
    client ← client_for s3 bucket
    wrap (lit "failed to abort multipart upload: ") (
        call s3 (
          s3.sdk.abort_multipart_upload client (real_bucket s3 bucket) (real_key s3 bucket key)
            (some upload_id)))

  unfoldable pub list_parts : Bytes → Bytes → Bytes → ℤ → ℤ → Step ListPartsResult
  unfolding client_for call parts_of
  list_parts bucket key upload_id max_parts marker = do
    client ← client_for s3 bucket
    resp ← wrap (lit "failed to list parts: ") (
        call s3 (
          s3.sdk.list_parts client (record {
            bucket = real_bucket s3 bucket;
            key = real_key s3 bucket key;
            upload_id = upload_id;
            max_parts = max_parts;
            part_number_marker = if ltb_ℤ (pos 0) marker then some marker else none;
          })))
    return (record {
      next_part_number_marker = value_or (pos 0) resp.next_part_number_marker;
      is_truncated = value_or false resp.is_truncated;
      parts = parts_of resp.parts;
    })

  -- an upload is aborted, whatever comes of it, and the error that was met is reported
  unfoldable pub given_up :
      Client → Bytes → Bytes → Option Bytes → Bytes → Step (List SdkCompletedPart)
  unfolding call
  given_up client bucket key upload_id message s =
      (err message, (call s3 (s3.sdk.abort_multipart_upload client bucket key upload_id) s).1)

  unfoldable pub send_part : Client → Bytes → Bytes → Option Bytes → ℕ → Bytes → Step (Option Bytes)
  unfolding call
  send_part client bucket key upload_id n part = call s3 (
      s3.sdk.upload_part client (record {
        bucket = bucket;
        key = key;
        upload_id = upload_id;
        part_number = pos n;
        body = part;
        content_length = none;
      }))

  -- what comes behind the upload of a part
  abbrev part_sent :
      Client
      → Bytes
      → Bytes
      → Option Bytes
      → ℕ
      → Step (List SdkCompletedPart)
      → Result Bytes (Option Bytes) × S3State Client World
      → Result Bytes (List SdkCompletedPart) × S3State Client World
  part_sent client bucket key upload_id n rest (err e, s) =
      given_up client bucket key upload_id
        (lit "failed to upload part " ++ format_nat n ++ lit ": " ++ e) s
  part_sent client bucket key upload_id n rest (ok etag, s) =
      (do parts ← rest; return (record { part_number = pos n; etag = etag } ∷ parts)) s

  unfoldable pub send_then :
      Client
      → Bytes
      → Bytes
      → Option Bytes
      → ℕ
      → Bytes
      → Step (List SdkCompletedPart)
      → Step (List SdkCompletedPart)
  unfolding send_part given_up format_nat
  send_then client bucket key upload_id n part rest s =
      part_sent client bucket key upload_id n rest (send_part client bucket key upload_id n part s)

  -- the loop over the parts of `size` bytes, with the bytes that are still to be read; a part that the
  -- reader does not fill is the last one
  unfoldable pub send_parts :
      ℕ
      → ℕ
      → Client
      → Bytes
      → Bytes
      → Option Bytes
      → ℕ
      → Bytes
      → Bool
      → Step (List SdkCompletedPart)
  unfolding send_then given_up
  send_parts zero size client bucket key upload_id n content fails = return []
  send_parts (suc fuel) size client bucket key upload_id n [] fails =
      if fails
      then given_up client bucket key upload_id (lit "failed to read part: read failed")
      else return []
  send_parts (suc fuel) size client bucket key upload_id n (c ∷ content) fails =
      let more =
        send_parts fuel size client bucket key upload_id (n + 1) (drop size (c ∷ content)) fails in
      let short = ltb (length (c ∷ content)) size in
      if short && fails
      then given_up client bucket key upload_id (lit "failed to read part: read failed")
      else send_then client bucket key upload_id n (take size (c ∷ content))
          (if short then return [] else more)

  unfoldable pub put_object_multipart : Bytes → Bytes → Reader → Dict Bytes → Step (Unit {0})
  unfolding client_for call send_parts invalidated user_metadata wants_kms kms_key
  put_object_multipart bucket key reader metadata = do
    client ← client_for s3 bucket
    upload_id ← wrap (lit "failed to initiate multipart upload: ") (
        call s3 (
          s3.sdk.create_multipart_upload client (record {
            bucket = real_bucket s3 bucket;
            key = real_key s3 bucket key;
            metadata = user_metadata metadata;
            server_side_encryption = if wants_kms metadata then some (lit "aws:kms") else none;
            sse_kms_key_id = kms_key metadata;
          })))
    parts ←
        send_parts (suc (length reader.content)) part_size client (real_bucket s3 bucket)
          (real_key s3 bucket key) upload_id 1 reader.content reader.fails
    wrap (lit "failed to complete multipart upload: ") (
        call s3 (
          s3.sdk.complete_multipart_upload client (real_bucket s3 bucket) (real_key s3 bucket key)
            upload_id parts))
    invalidated bucket key

  abbrev pub buffered : Bytes → Reader
  buffered bytes = record { seekable = true; content = bytes; fails = false }

  -- a body that is read into memory
  unfoldable pub put_read : Bytes → Bytes → Reader → ℤ → Dict Bytes → Step (Unit {0})
  unfolding put_whole
  put_read bucket key reader size metadata = do
    bytes ← λ s. (read_whole (lit "failed to read data: ") reader, s)
    put_whole s3 bucket key (buffered bytes) size metadata

  -- a body that cannot be read twice is read into memory, if its size is known and small, or sent in
  -- parts
  unfoldable pub put_object : Bytes → Bytes → Reader → ℤ → Dict Bytes → Step (Unit {0})
  unfolding put_whole put_read put_object_multipart
  put_object bucket key reader size metadata =
      if reader.seekable
      then put_whole s3 bucket key reader size metadata
      else if ltb_ℤ (pos 0) size && leb_ℤ size (pos multipart_threshold)
      then put_read bucket key reader size metadata
      else put_object_multipart bucket key reader metadata
