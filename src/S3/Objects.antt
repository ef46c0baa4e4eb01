-- ===== src/S3/Objects.antt =====
-- pkg/s3/handler.go: the operations on objects. `Render` stands for the formatting of dates and for MD5.
pub mod Ranges
pub mod Reads
use s3proxy_go.Base.{
  ℕ, ◌==◌, ◌*◌, if◌then◌else◌, ◌||◌, ◌&&◌, not, Bool, true, false, Option, none, some, List, [],
  ◌∷◌, ◌++◌, Bytes, is_empty, contains, Dict, lookup, insert, to_lower, lit, ℤ, pos, negsuc,
  has_prefix, take, drop, length, Result, ok, err, ltb, leb, ltb_ℤ, leb_ℤ, ◌+ℤ◌, ◌-ℤ◌, pos_part,
  format_int, format_hex,
}
use s3proxy_go.Storage.Backend.{Reader, Object, ObjectInfo, Backend}
use s3proxy_go.S3.Http.{
  Request, Response, Payload, empty, bytes, value_of, send_error, plain_status, collect_metadata,
  set_metadata,
}
use s3proxy_go.S3.Range.{ByteRange, parse_range_header, resolve_range}

pub record Render : Type 0 where
  pub http_date : ℕ → Bytes
  pub md5_hex : Bytes → Bytes

abbrev pub small_file_limit : ℕ
small_file_limit = 100 * 1024

abbrev pub quoted : Bytes → Bytes
quoted s = lit "\"" ++ (s ++ lit "\"")

-- `bytes */size`
unsatisfied : ℤ → Dict Bytes
unsatisfied size = insert (lit "content-range") (lit "bytes */" ++ format_int size) []

content_range : ℤ → ℤ → ℤ → Bytes
content_range start end size =
    lit "bytes "
    ++ (format_int start ++ (lit "-" ++ (format_int end ++ (lit "/" ++ format_int size))))

-- the bytes behind the first `start`, or `none` where skipping them fails; a seek never does
unfoldable pub skipped : ℤ → Reader → Option Bytes
skipped start body =
    if ltb_ℤ (pos 0) start
    then (if body.seekable || leb (pos_part start) (length body.content)
        then some (drop (pos_part start) body.content)
        else none)
    else some body.content

module _ (render : Render) where
  object_headers : Object → Dict Bytes
  object_headers obj =
      set_metadata
        (insert (lit "accept-ranges") (lit "bytes") (
          insert (lit "last-modified") (render.http_date obj.last_modified) (
            insert (lit "etag") obj.etag (
              insert (lit "content-length") (format_int obj.size)
                (insert (lit "content-type") obj.content_type [])))))
        obj.metadata

  -- the response of `getObject` to what the backend returned
  send_object : Result Bytes Object → Response
  unfolding object_headers
  send_object (err message) = send_error [] message 404
  send_object (ok obj) = record {
    status = 200;
    headers = object_headers obj;
    body = bytes obj.body.content;
  }

  partial_headers : ObjectInfo → ℤ → ℤ → Dict Bytes
  unfolding content_range
  partial_headers info start end =
      set_metadata
        (insert (lit "accept-ranges") (lit "bytes") (
          insert (lit "last-modified") (render.http_date info.last_modified) (
            insert (lit "etag") info.etag (
              insert (lit "content-range") (content_range start end info.size) (
                insert (lit "content-length") (format_int (end -ℤ start +ℤ pos 1))
                  (insert (lit "content-type") info.content_type []))))))
        info.metadata

  send_rest : ObjectInfo → ℤ → ℤ → Option Bytes → Response
  unfolding partial_headers
  send_rest info start end none = send_error [] (lit "EOF") 500
  send_rest info start end (some rest) = record {
    status = 206;
    headers = partial_headers info start end;
    body = bytes (take (pos_part (end -ℤ start +ℤ pos 1)) rest);
  }

  -- the part of `getRangeObject` behind the second call of the backend
  send_range : ObjectInfo → ℤ → ℤ → Result Bytes Object → Response
  unfolding send_rest
  send_range info start end (err message) = send_error [] message 404
  send_range info start end (ok obj) = send_rest info start end (skipped start obj.body)

  module _ {S : Type 0} (backend : Backend S) where
    -- the part of `getRangeObject` behind the test of the bounds
    within : Request → ObjectInfo → Option (ℤ × ℤ) → S → Response × S
    unfolding unsatisfied send_range
    within r info none s = (send_error (unsatisfied info.size) (lit "invalid range") 416, s)
    within r info (some (start, end)) s =
        let (result, s') = backend.get_object r.bucket r.key s in
        (send_range info start end result, s')

    -- the part of `getRangeObject` behind HeadObject, for a single range
    range_of : Request → ByteRange → ObjectInfo → S → Response × S
    unfolding within
    range_of r range info s = within r info (resolve_range info.size range) s

    single_range : Request → List ByteRange → Result Bytes ObjectInfo × S → Response × S
    unfolding range_of
    single_range r ranges (err message, s) = (send_error [] message 404, s)
    single_range r [] (ok info, s) = (send_error [] (lit "invalid range") 416, s)
    single_range r (range ∷ []) (ok info, s) = range_of r range info s
    single_range r (range ∷ second ∷ more) (ok info, s) =
        (send_error [] (lit "multiple ranges not supported") 416, s)

    ranges_of : Request → Option (List ByteRange) → S → Response × S
    unfolding single_range
    ranges_of r none s = (send_error [] (lit "invalid range") 416, s)
    ranges_of r (some []) s = (send_error [] (lit "invalid range") 416, s)
    ranges_of r (some (range ∷ more)) s =
        single_range r (range ∷ more) (backend.head_object r.bucket r.key s)

    -- `getRangeObject`
    unfoldable pub get_range_object : Request → Bytes → S → Response × S
    unfolding ranges_of
    get_range_object r range_header s = ranges_of r (parse_range_header range_header) s

    -- `getObject`
    unfoldable pub get_object : Request → S → Response × S
    unfolding send_object is_empty
    get_object r s =
        let range_header = value_of (lit "range") r.headers in
        if is_empty range_header
        then (let (result, s') = backend.get_object r.bucket r.key s in (send_object result, s'))
        else get_range_object r range_header s
