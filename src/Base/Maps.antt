-- ===== src/Base/Maps.antt =====
-- A Go map with string keys as an association list. A key that is missing reads as `none`.
use mathlib.Core.Path.{◌≡◌, refl}
use mathlib.Core.Option.{Option, none, some}
use mathlib.Core.Logic.{inl, inr}
use mathlib.Core.List.{List, [], ◌∷◌}
use native.Mathlib.Omega.{arith}
use s3proxy_go.Base.Tests.{if◌then◌else◌, Bool-cases}
use s3proxy_go.Base.Text.{Bytes, beq}
use s3proxy_go.Base.TextLaws.{beq_iff, beq→eq}

abbrev pub Dict {ℓ} : Type ℓ → Type ℓ
Dict V = List (Bytes × V)

module _ {ℓ} {V : Type ℓ} where
  unfoldable pub lookup : Bytes → Dict V → Option V
  unfolding beq
  lookup k [] = none
  lookup k ((j, v) ∷ m) = if beq j k then some v else lookup k m

  unfoldable pub insert : Bytes → V → Dict V → Dict V
  unfolding beq
  insert k v [] = (k, v) ∷ []
  insert k v ((j, w) ∷ m) = if beq j k then (k, v) ∷ m else (j, w) ∷ insert k v m

  -- `delete(m, k)`
  unfoldable pub delete : Bytes → Dict V → Dict V
  unfolding beq
  delete k [] = []
  delete k ((j, w) ∷ m) = let rest = delete k m in if beq j k then rest else (j, w) ∷ rest

module _ {ℓ} {V : Type ℓ} where
  pub lookup-insert :
      (k j : Bytes) (v : V) (m : Dict V)
      → lookup j (insert k v m) ≡ (if beq k j then some v else lookup j m)
  unfolding lookup insert
  lookup-insert k j v [] = refl
  lookup-insert k j v ((i, w) ∷ m) =
      ground (arith, beq_iff k j, beq_iff i k, beq_iff i j, lookup-insert k j v m)

  pub lookup-delete :
      (k j : Bytes) (m : Dict V) → lookup j (delete k m) ≡ (if beq k j then none else lookup j m)
  unfolding lookup delete
  lookup-delete k j [] = ground arith
  lookup-delete k j ((i, w) ∷ m) =
      ground (arith, beq_iff k j, beq_iff i k, beq_iff i j, lookup-delete k j m)

-- no key stands twice
abbrev pub KeysDiffer {ℓ} : {V : Type ℓ} → Dict V → Type ℓ
KeysDiffer [] = Unit
KeysDiffer ((k, v) ∷ m) = (lookup k m ≡ none) × KeysDiffer m

module _ {ℓ} {V : Type ℓ} where
  pub insert-KeysDiffer :
      (k : Bytes) (v : V) (m : Dict V) → KeysDiffer m → KeysDiffer (insert k v m)
  unfolding lookup insert
  insert-KeysDiffer k v [] h = (refl, tt)
  insert-KeysDiffer k v ((j, w) ∷ m) h = elim (Bool-cases (beq j k)) [
    | inl e ↦ rw e (rw (← beq→eq j k e) h.0, h.1)
    | inr e ↦ rw e (
      rw (lookup-insert k j v m) (ground (arith, h.0, beq_iff k j, beq_iff j k)),
      insert-KeysDiffer k v m h.1,
    )
  ]

  pub delete-KeysDiffer : (k : Bytes) (m : Dict V) → KeysDiffer m → KeysDiffer (delete k m)
  unfolding lookup delete
  delete-KeysDiffer k [] h = tt
  delete-KeysDiffer k ((j, w) ∷ m) h = elim (Bool-cases (beq j k)) [
    | inl e ↦ rw e (delete-KeysDiffer k m h.1)
    | inr e ↦ rw e (rw (lookup-delete k j m) (ground (arith, h.0)), delete-KeysDiffer k m h.1)
  ]
