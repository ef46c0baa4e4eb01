-- ===== src/S3/Objects/Reads.antt =====
-- `getObject` of pkg/s3/handler.go changes nothing but what the reads of the backend change.
use s3proxy_go.Base.{
  Option, none, some, List, [], ◌∷◌, Bytes, is_empty, lit, ◌≡◌, Bool-cases, inl, inr, ℤ, Result, ok,
  err, refl, ◌∙◌,
}
use s3proxy_go.Storage.Backend.{Backend, ObjectInfo}
use s3proxy_go.Storage.Reads.{ReadsKeep}
use s3proxy_go.S3.Http.{Request, value_of}
use s3proxy_go.S3.Range.{ByteRange, resolve_range, parse_range_header}
use s3proxy_go.S3.Objects.{Render, get_object, get_range_object, ranges_of, single_range, within}

module _ (render : Render) {S : Type 0} (b : Backend S) (k : ReadsKeep b) (r : Request) where
  within-keeps :
      (info : ObjectInfo) (o : Option (ℤ × ℤ)) (s : S) → (within render b r info o s).1 ≡ s
  unfolding within
  within-keeps info none s = refl
  within-keeps info (some (start, end)) s = k.get_object r.bucket r.key s

  single-keeps :
      (ranges : List ByteRange) (result : Result Bytes ObjectInfo) (s : S)
      → (single_range render b r ranges (result, s)).1 ≡ s
  unfolding single_range
  single-keeps ranges (err message) s = refl
  single-keeps [] (ok info) s = refl
  single-keeps (range ∷ []) (ok info) s = within-keeps info (resolve_range info.size range) s
  single-keeps (range ∷ second ∷ more) (ok info) s = refl

  ranges-keeps : (o : Option (List ByteRange)) (s : S) → (ranges_of render b r o s).1 ≡ s
  unfolding ranges_of
  ranges-keeps none s = refl
  ranges-keeps (some []) s = refl
  ranges-keeps (some (range ∷ more)) s =
      single-keeps (range ∷ more) _ _ ∙ k.head_object r.bucket r.key s

  pub get_object-keeps : (s : S) → (get_object render b r s).1 ≡ s
  unfolding get_object get_range_object
  get_object-keeps s = elim (Bool-cases (is_empty (value_of (lit "range") r.headers))) [
    | inl e ↦ rw e (k.get_object r.bucket r.key s)
    | inr e ↦ rw e (ranges-keeps (parse_range_header (value_of (lit "range") r.headers)) s)
  ]
