-- ===== src/Remote/Parts/Pieces.antt =====
-- The parts in which `putObjectMultipart` sends an object.
use s3proxy_go.Base.{
  ℕ, zero, suc, ◌+◌, ◌≤◌, ◌<◌, false, ltb, ltb→lt, Bytes, List, [], ◌∷◌, ◌++◌, Option, length, take,
  drop, ◌≡◌, refl, ap, arith, ◌∙◌, take-drop, length-take, length-drop, inl, inr, Bool-cases,
  Result,
}
use mathlib.Core.List.{append-nil}
use s3proxy_go.Storage.Steps.{return}
use s3proxy_go.Remote.Sdk.{SdkCompletedPart}
use s3proxy_go.Remote.State.{Setting, S3State}
use s3proxy_go.Remote.Parts.{send_then, send_parts}
use s3proxy_go.Remote.Decoding.Plain.{concat}

-- every part but the last is full, and the last is not empty
abbrev pub AreParts : ℕ → List Bytes → Type 0
AreParts size [] = Unit
AreParts size (p ∷ []) = (0 < length p) × (length p ≤ size)
AreParts size (p ∷ q ∷ ps) = (length p ≡ size) × AreParts size (q ∷ ps)

cons-AreParts :
    (size : ℕ) (p : Bytes) (ps : List Bytes)
    → 0 < size
    → length p ≡ size
    → AreParts size ps
    → AreParts size (p ∷ ps)
cons-AreParts size p [] pos full fit = (omega (arith, pos, full), omega (arith, full))
cons-AreParts size p (q ∷ ps) pos full fit = (full, fit)

take-all : (n : ℕ) (xs : Bytes) → length xs ≤ n → take n xs ≡ xs
take-all zero [] h = refl
take-all zero (x ∷ xs) h = absurd (omega arith)
take-all (suc n) [] h = refl
take-all (suc n) (x ∷ xs) h = ap (◌∷◌ x) (take-all n xs (omega (arith, h)))

module _ {Client World : Type 0} (s3 : Setting Client World) (client : Client) (bucket key : Bytes)
    (upload_id : Option Bytes) where
  -- the parts are sent one after the other, under the numbers from `n` on, until one fails
  abbrev pub send_each :
      ℕ
      → List Bytes
      → S3State Client World
      → Result Bytes (List SdkCompletedPart) × S3State Client World
  send_each n [] = return []
  send_each n (p ∷ ps) = send_then s3 client bucket key upload_id n p (send_each (n + 1) ps)

  -- The loop sends the content in parts: one behind the other they are the content, every part but the
  -- last has the size of a part, and the last is not empty and no longer. It makes no other call of the
  -- service than to send them, in their order and under their numbers, where none fails. This holds for
  -- a reader that does not fail and every size of a part but 0, with fuel for one turn more than the
  -- content has bytes.
  pub send_parts_lem :
      (fuel size n : ℕ) (content : Bytes)
      → 0 < size
      → length content < fuel
      → (ps : List Bytes) × (concat ps ≡ content)
        × AreParts size ps
        × (send_parts s3 fuel size client bucket key upload_id n content false ≡ send_each n ps)
  unfolding send_parts
  send_parts_lem zero size n content pos enough = absurd (omega arith)
  send_parts_lem (suc fuel) size n [] pos enough = ([], refl, tt, refl)
  send_parts_lem (suc fuel) size n (c ∷ content) pos enough =
      elim (Bool-cases (ltb (length (c ∷ content)) size)) [
        | inl short ↦ (
          (c ∷ content) ∷ [],
          append-nil (c ∷ content),
          (omega arith, omega (arith, ltb→lt (length (c ∷ content)) size short)),
          rw short (
              ap (λ p. send_then s3 client bucket key upload_id n p (return []))
                (take-all size (c ∷ content)
                  (omega (arith, ltb→lt (length (c ∷ content)) size short)))),
        )
        | inr long ↦
            let full : size ≤ length (c ∷ content) = ground (arith, long) in
            let (ps, joined, fit, sent) =
              send_parts_lem fuel size (n + 1) (drop size (c ∷ content)) pos
                (omega (arith, enough, length-drop size (c ∷ content) full, pos)) in
            (
              take size (c ∷ content) ∷ ps,
              ap (λ x. take size (c ∷ content) ++ x) joined ∙ take-drop size (c ∷ content),
              cons-AreParts size (take size (c ∷ content)) ps pos
                  (length-take size (c ∷ content) full) fit,
              rw long
                  (ap (send_then s3 client bucket key upload_id n (take size (c ∷ content))) sent),
            )
      ]
