-- ===== src/S3/Examples.antt =====
-- Concrete requests and ranges for the theorems about pkg/s3/handler.go.
use s3proxy_go.Base.{
  ◌+◌, ◌-◌, ltb, if◌then◌else◌, true, false, none, some, List, [], ◌∷◌, Bytes, is_empty, lit, beq,
  pos, negsuc, ◌≡◌, ◌⊎◌, ◌↔◌, inl, refl, arith,
}
use s3proxy_go.Storage.Backend.{Object}
use s3proxy_go.Storage.Memory.{Objects, memory, object, info_of}
use s3proxy_go.S3.Http.{Request, value_of, bytes}
use s3proxy_go.S3.Range.{resolve_range}
use s3proxy_go.S3.Range.Bounds.{resolve_range_suffix}
use s3proxy_go.S3.Objects.{Render, get_range_object}
use s3proxy_go.S3.Objects.Ranges.{
  range_header, slice, get_range_object_partial, get_range_object_unsatisfied,
}
use s3proxy_go.S3.Route.{Operation, Method, operation_of}
use s3proxy_go.S3.Route.Dispatch.{operation_of_store}

abbrev render : Render
render = record { http_date = λ t. lit "date"; md5_hex = λ s. lit "md5" }

abbrev request : Request
request = record {
  method = lit "GET";
  bucket = lit "b";
  key = lit "k";
  query = [];
  headers = [];
  host = lit "h";
  content_length = pos 0;
  body = record { seekable = false; content = []; fails = false };
}

abbrev hello : Object
hello = object (lit "hello")

abbrev holding : Objects
holding bucket key = if beq bucket (lit "b") then some hello else none

resolve_range_suffix_example :
    resolve_range (pos 2) (record { start = negsuc 4; end = negsuc 0 }) ≡ (
      if ltb 4 2 then some (pos (2 - (4 + 1)), pos (2 - 1)) else some (negsuc (4 - 2), pos (2 - 1)))
resolve_range_suffix_example = resolve_range_suffix 2 4 (omega arith)

get_range_object_partial_example :
    ((get_range_object render memory request (range_header 1 3) holding).0.status ≡ 206)
    × ((get_range_object render memory request (range_header 1 3) holding).0.body
        ≡ bytes (slice 1 3 (lit "hello")))
    × ((get_range_object render memory request (range_header 1 3) holding).1 ≡ holding)
unfolding memory beq
get_range_object_partial_example =
    get_range_object_partial render memory request 1 3 holding holding holding
      (info_of (lit "k") hello) hello (omega arith) (omega arith) refl refl refl (omega arith)
      (omega arith)

get_range_object_unsatisfied_example :
    ((get_range_object render memory request (range_header 5 9) holding).0.status ≡ 416)
    × ((get_range_object render memory request (range_header 5 9) holding).1 ≡ holding)
unfolding memory beq
get_range_object_unsatisfied_example =
    get_range_object_unsatisfied render memory request 5 9 holding holding holding
      (info_of (lit "k") hello) hello (omega arith) (omega arith) refl refl (inl (omega arith))

abbrev upload_query : List (Bytes × Bytes)
upload_query = (lit "uploadId", lit "u") ∷ []

abbrev start_query : List (Bytes × Bytes)
start_query = (lit "uploads", []) ∷ []

operation_of_store_example : (operation_of Method.put upload_query ≡ Operation.put) ↔ (
    (Method.put ≡ Method.put)
    × (is_empty (value_of (lit "acl") upload_query) ≡ true)
    × ((is_empty (value_of (lit "uploadId") upload_query) ≡ true)
        ⊎ (is_empty (value_of (lit "partNumber") upload_query) ≡ true)))
operation_of_store_example = operation_of_store Method.put upload_query

abbrev upload : Request
upload = record request {
  method = lit "PUT";
  content_length = pos 5;
  body = record { seekable = false; content = lit "hello"; fails = false };
}

abbrev nothing : Objects
nothing bucket key = none
