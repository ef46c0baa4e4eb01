-- ===== src/S3/Objects/Ranges.antt =====
-- `getRangeObject` of pkg/s3/handler.go for a range from one byte to another.
use Prim.Native.Nat.{min}
use s3proxy_go.Base.{
  ℕ, zero, suc, ◌+◌, ◌-◌, ◌≤◌, ◌<◌, none, some, [], ◌∷◌, ◌++◌, Bytes, lit, pos, ◌≡◌, ◌⊎◌, refl,
  arith, format_nat, int64_bound, take, drop, length, ok, ◌+ℤ◌, ◌-ℤ◌, pos_part, lt→ltb,
}
use s3proxy_go.Storage.Backend.{Backend, Object, ObjectInfo, Reader}
use s3proxy_go.S3.Http.{Request, bytes, send_error}
use s3proxy_go.S3.Range.{ByteRange, parse_range_header, resolve_range}
use s3proxy_go.S3.Range.Bounds.{resolve_range_closed}
use s3proxy_go.S3.Range.Parse.{parse_range_header-format_nat}
use s3proxy_go.S3.Objects.{
  Render, get_range_object, skipped, range_of, partial_headers, unsatisfied,
}

-- the header `bytes=a-b`
abbrev pub range_header : ℕ → ℕ → Bytes
range_header a b = lit "bytes=" ++ (format_nat a ++ b'-' ∷ format_nat b)

-- the bytes of a text from `a` to `b` or its end
abbrev pub slice : ℕ → ℕ → Bytes → Bytes
slice a b content = take (min b (length content - 1) + 1 - a) (drop a content)

skipped_lem :
    (a : ℕ) (body : Reader)
    → a < length body.content
    → skipped (pos a) body ≡ some (drop a body.content)
unfolding skipped
skipped_lem zero body h = refl
skipped_lem (suc a) body h = ground arith

width : (a c : ℕ) → a ≤ c → pos_part (pos c -ℤ pos a +ℤ pos 1) ≡ c + 1 - a
unfolding ◌+ℤ◌ ◌-ℤ◌
width a c h = ground arith

module _ (render : Render) {S : Type 0} (backend : Backend S) (r : Request) where
  single :
      (header : Bytes) (range : ByteRange) (info : ObjectInfo) (s s' : S)
      → parse_range_header header ≡ some (range ∷ [])
      → backend.head_object r.bucket r.key s ≡ (ok info, s')
      → get_range_object render backend r header s ≡ range_of render backend r range info s'
  unfolding get_range_object
  single header range info s s' parsed head = rw (parsed, head)

  served :
      (range : ByteRange) (info : ObjectInfo) (obj : Object) (a c : ℕ) (s s' : S)
      → resolve_range info.size range ≡ some (pos a, pos c)
      → backend.get_object r.bucket r.key s ≡ (ok obj, s')
      → a < length obj.body.content
      → a ≤ c
      → range_of render backend r range info s ≡ (
        record {
          status = 206;
          headers = partial_headers render info (pos a) (pos c);
          body = bytes (take (c + 1 - a) (drop a obj.body.content));
        },
        s',
      )
  unfolding range_of
  served range info obj a c s s' bounds got inside ordered =
      rw (bounds, got, skipped_lem a obj.body inside, width a c ordered)

  refused :
      (range : ByteRange) (info : ObjectInfo) (s : S)
      → resolve_range info.size range ≡ none
      → range_of render backend r range info s
        ≡ (send_error (unsatisfied info.size) (lit "invalid range") 416, s)
  unfolding range_of
  refused range info s bounds = rw bounds

module _ (render : Render) {S : Type 0} (backend : Backend S) (r : Request) (a b : ℕ) (s s' s'' : S)
    (info : ObjectInfo) (obj : Object) where
  -- If a and b are below 2 ^ 63, HeadObject reports the size of the content that GetObject returns, and the range from a to b begins in the content and does not end before it begins, then the answer has status 206, its body is the content from byte a to byte b or to its end, and the state is the one that GetObject leaves.
  pub get_range_object_partial :
      a < int64_bound
      → b < int64_bound
      → backend.head_object r.bucket r.key s ≡ (ok info, s')
      → backend.get_object r.bucket r.key s' ≡ (ok obj, s'')
      → info.size ≡ pos (length obj.body.content)
      → a < length obj.body.content
      → a ≤ b
      → ((get_range_object render backend r (range_header a b) s).0.status ≡ 206)
        × ((get_range_object render backend r (range_header a b) s).0.body
            ≡ bytes (slice a b obj.body.content))
        × ((get_range_object render backend r (range_header a b) s).1 ≡ s'')
  get_range_object_partial sa sb head got size inside ordered =
      let n = length obj.body.content in
      let bounds : resolve_range info.size (record { start = pos a; end = pos b })
          ≡ some (pos a, pos (min b (n - 1))) =
        rw (size, resolve_range_closed n a b, lt→ltb a n inside) (ground arith) in
      rw
        (
          single render backend r (range_header a b) _ info s s'
              (parse_range_header-format_nat a b sa sb) head,
          served render backend r _ info obj a (min b (n - 1)) s' s'' bounds got inside
              (omega arith),
        )
        (refl, refl, refl)

  -- If a and b are below 2 ^ 63, HeadObject reports the size of the content, and the range from a to b begins behind the content or ends before it begins, then the answer has status 416 and the state is the one that HeadObject leaves.
  pub get_range_object_unsatisfied :
      a < int64_bound
      → b < int64_bound
      → backend.head_object r.bucket r.key s ≡ (ok info, s')
      → info.size ≡ pos (length obj.body.content)
      → ((length obj.body.content ≤ a) ⊎ (b < a))
      → ((get_range_object render backend r (range_header a b) s).0.status ≡ 416)
        × ((get_range_object render backend r (range_header a b) s).1 ≡ s')
  unfolding send_error
  get_range_object_unsatisfied sa sb head size outside =
      let n = length obj.body.content in
      let bounds : resolve_range info.size (record { start = pos a; end = pos b }) ≡ none =
        rw (size, resolve_range_closed n a b) (ground arith) in
      rw
        (
          single render backend r (range_header a b) _ info s s'
              (parse_range_header-format_nat a b sa sb) head,
          refused render backend r _ info s' bounds,
        )
        (refl, refl)
