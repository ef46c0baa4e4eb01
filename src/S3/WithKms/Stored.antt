-- ===== src/S3/WithKms/Stored.antt =====
-- What the uploads of pkg/s3/handler_kms.go ask of the S3 backend, and what they answer.
use s3proxy_go.Base.{
  false, some, ◌∷◌, Bytes, is_empty, beq, Dict, lookup, insert, lookup-insert, beq_refl, lit, ◌≡◌,
  refl, ◌∙◌, Bool-cases, inl, inr,
}
use s3proxy_go.Kms.Manager.{Manager}
use s3proxy_go.Kms.Manager.DataKeys.{context_part, algorithm_header, key_id_header, context_header}
use s3proxy_go.S3.WithKms.{add_all}

-- the metadata with the headers of a key and of a context
abbrev pub keyed : Bytes → Bytes → Dict Bytes → Dict Bytes
keyed key_id context m =
    add_all m ((algorithm_header, lit "aws:kms") ∷ (key_id_header, key_id) ∷ context_part context)

lookup-insert_own : (k v : Bytes) (m : Dict Bytes) → lookup k (insert k v m) ≡ some v
lookup-insert_own k v m = lookup-insert k k v m ∙ rw (beq_refl k) refl

lookup-insert_apart :
    (h k v : Bytes) (m : Dict Bytes) → beq h k ≡ false → lookup k (insert h v m) ≡ lookup k m
lookup-insert_apart h k v m apart = lookup-insert h k v m ∙ rw apart refl

pub lookup-keyed_key :
    (key_id context : Bytes) (m : Dict Bytes)
    → lookup key_id_header (keyed key_id context m) ≡ some key_id
unfolding add_all beq
lookup-keyed_key key_id context m =
    let base = lookup-insert_own key_id_header key_id (insert algorithm_header (lit "aws:kms") m) in
    elim (Bool-cases (is_empty context)) [
      | inl none_set ↦ rw none_set base
      | inr some_set ↦
          rw some_set (lookup-insert_apart context_header key_id_header context _ refl ∙ base)
    ]
