-- ===== src/S3/Route/Safety.antt =====
-- Requests of pkg/s3/handler.go that only read.
use s3proxy_go.Base.{
  ℕ, if◌then◌else◌, Bool, true, false, Option, List, Bytes, is_empty, Dict, lookup, lit, ◌≡◌, ◌⊎◌,
  arith, Bool-cases, inl, inr, Result, ok, err, refl, ◌∙◌,
}
use s3proxy_go.Storage.Backend.{Backend, CompletedPart}
use s3proxy_go.Storage.Reads.{ReadsKeep}
use s3proxy_go.S3.Objects.Reads.{get_object-keeps}
use s3proxy_go.S3.Http.{Request, value_of}
use s3proxy_go.S3.Objects.{Render}
use s3proxy_go.S3.Uploads
use s3proxy_go.S3.Route.{
  Operation, list_parts, get_acl, no_operation, Method, operation_of, method_of, general_operation,
  is_some, checked, run, handle_object, handle_bucket, bucket_operation, is_mc,
}

abbrev IsRead : Operation → Type 0
IsRead (list_parts u) = Unit
IsRead get_acl = Unit
IsRead Operation.get = Unit
IsRead Operation.head = Unit
IsRead no_operation = Unit
IsRead _ = ⊥

general_get : (query : Dict Bytes) → IsRead (general_operation Method.get query)
unfolding general_operation
general_get query = elim (Bool-cases (is_some (lookup (lit "uploads") query))) [
  | inl u ↦ rw u (acl_or_get query)
  | inr u ↦ rw u (acl_or_get query)
]
  where
    acl_or_get :
        (query : Dict Bytes)
        → IsRead (if is_empty (value_of (lit "acl") query) then Operation.get else get_acl)
    acl_or_get query = elim (Bool-cases (is_empty (value_of (lit "acl") query))) [
      | inl e ↦ rw e tt
      | inr e ↦ rw e tt
    ]

general_head : (query : Dict Bytes) → IsRead (general_operation Method.head query)
unfolding general_operation
general_head query = elim (Bool-cases (is_some (lookup (lit "uploads") query))) [
  | inl u ↦ rw u (head_either (is_empty (value_of (lit "acl") query)))
  | inr u ↦ rw u (head_either (is_empty (value_of (lit "acl") query)))
]
  where
    head_either : (c : Bool) → IsRead (if c then Operation.head else Operation.head)
    head_either true = tt
    head_either false = tt

operation_of-IsRead :
    (m : Method) (query : Dict Bytes)
    → ((m ≡ Method.get) ⊎ (m ≡ Method.head))
    → IsRead (operation_of m query)
unfolding operation_of
operation_of-IsRead Method.get query h =
    elim (Bool-cases (is_empty (value_of (lit "uploadId") query))) [
      | inl e ↦ rw e (general_get query)
      | inr e ↦ rw e tt
    ]
operation_of-IsRead Method.head query h =
    elim (Bool-cases (is_empty (value_of (lit "uploadId") query))) [
      | inl e ↦ rw e (general_head query)
      | inr e ↦ rw e (general_head query)
    ]
operation_of-IsRead _ query h = absurd (ground arith)

abbrev IsReading : Method → Type 0
IsReading m = (m ≡ Method.get) ⊎ (m ≡ Method.head)

module _ (render : Render) {S : Type 0} (b : Backend S) (k : ReadsKeep b) (r : Request) where
  run-keeps :
      (o : Operation) (parts : Option (List CompletedPart)) (now : ℕ) (s : S)
      → IsRead o
      → (run render b o r parts now s).1 ≡ s
  unfolding run Uploads.list_parts Uploads.get_object_acl Uploads.head_object
  run-keeps (list_parts u) parts now s h = k.list_parts r.bucket r.key u _ _ s
  run-keeps get_acl parts now s h = k.get_object_acl r.bucket r.key s
  run-keeps Operation.get parts now s h = get_object-keeps render b k r s
  run-keeps Operation.head parts now s h = k.head_object r.bucket r.key s
  run-keeps no_operation parts now s h = refl
  run-keeps _ parts now s h = absurd h

  -- If the reading methods of the backend leave its state as it was, then so does a GET or HEAD request for an object, whatever its parameters are.
  handle_object_read :
      (parts : Option (List CompletedPart)) (now : ℕ) (s : S)
      → IsReading (method_of r.method)
      → (handle_object render b r parts now s).1 ≡ s
  unfolding handle_object
  handle_object_read parts now s h =
      run-keeps (operation_of (method_of r.method) r.query) parts now s
        (operation_of-IsRead (method_of r.method) r.query h)

  bucket_operation-keeps :
      (m : Method) (s : S) → IsReading m → (bucket_operation render b m r s).1 ≡ s
  unfolding bucket_operation Uploads.list_objects Uploads.head_bucket
  bucket_operation-keeps Method.get s h = k.list_objects_with_delimiter r.bucket _ _ _ _ s
  bucket_operation-keeps Method.head s h = k.bucket_exists r.bucket s
  bucket_operation-keeps _ s h = absurd (ground arith)

  checked-keeps :
      (found : Result Bytes Bool) (s : S)
      → IsReading (method_of r.method)
      → (checked render b r (found, s)).1 ≡ s
  unfolding checked
  checked-keeps (err message) s h = refl
  checked-keeps (ok false) s h = refl
  checked-keeps (ok true) s h = bucket_operation-keeps (method_of r.method) s h

  -- If the reading methods of the backend leave its state as it was, then so does a GET or HEAD request for a bucket, from an mc client too.
  pub handle_bucket_read :
      (s : S) → IsReading (method_of r.method) → (handle_bucket render b r s).1 ≡ s
  unfolding handle_bucket
  handle_bucket_read s h = elim (Bool-cases (is_mc (value_of (lit "user-agent") r.headers))) [
    | inl e ↦ rw e (
        checked-keeps (b.bucket_exists r.bucket s).0 (b.bucket_exists r.bucket s).1 h
        ∙ k.bucket_exists r.bucket s)
    | inr e ↦ rw e (bucket_operation-keeps (method_of r.method) s h)
  ]
