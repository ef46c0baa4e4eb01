-- ===== src/Kms/Stream/Frames.antt =====
-- The frames that `StreamEncryptor` of internal/kms/envelope.go writes, and a reader of them.
use mathlib.Core.List.{append_assoc}
use s3proxy_go.Base.{
  ℕ, zero, suc, ◌+◌, ◌*◌, ◌/◌, ◌%◌, ◌^◌, ◌<◌, ◌≤◌, Option, none, some, List, [], ◌∷◌, ◌++◌, length,
  take, drop, length-append, take-append, drop-append, Bytes, ◌≡◌, refl, sym, ap, ◌∙◌, arith,
}
use s3proxy_go.Kms.Envelope.{Gcm}
use s3proxy_go.Kms.Stream.{header}

-- the length that four bytes spell
abbrev value : ℕ → ℕ → ℕ → ℕ → ℕ
value a b c d = ((a * 256 + b) * 256 + c) * 256 + d

value-header :
    (n : ℕ)
    → n < 2 ^ 32
    → value (n / 2 ^ 24 % 256) (n / 2 ^ 16 % 256) (n / 2 ^ 8 % 256) (n % 256) ≡ n
value-header n h = omega arith

prepend : Option Bytes → Option Bytes → Option Bytes
prepend none more = none
prepend (some text) none = none
prepend (some text) (some more) = some (text ++ more)

abbrev pub join : List Bytes → Bytes
join [] = []
join (chunk ∷ chunks) = chunk ++ join chunks

abbrev pub AllSmall : List Bytes → Type 0
AllSmall [] = Unit
AllSmall (chunk ∷ chunks) = (length chunk ≤ 2 ^ 20) × AllSmall chunks

module _ (gcm : Gcm) (key : Bytes) where
  -- reads one frame after the other: the length in four bytes, the nonce in twelve, and the sealed text;
  -- at most `fuel` frames
  unfoldable pub read_frames : ℕ → Bytes → Option Bytes
  unfolding prepend
  read_frames zero s = none
  read_frames (suc fuel) [] = some []
  read_frames (suc fuel) (a ∷ b ∷ c ∷ d ∷ s) =
      let n = value a b c d in
      let more = read_frames fuel (drop n s) in
      prepend (gcm.open_sealed key (take 12 (take n s)) (drop 12 (take n s))) more
  read_frames (suc fuel) _ = none

  abbrev pub frame : Bytes → Bytes → Bytes
  frame nonce sealed = header (length nonce + length sealed) ++ (nonce ++ sealed)

  read_frames-frame :
      (fuel : ℕ) (nonce text rest : Bytes)
      → length nonce ≡ 12
      → length (gcm.seal key nonce text) < 2 ^ 31
      → read_frames (suc fuel) (frame nonce (gcm.seal key nonce text) ++ rest)
        ≡ prepend (some text) (read_frames fuel rest)
  unfolding read_frames header
  read_frames-frame fuel nonce text rest twelve small =
      let sealed = gcm.seal key nonce text in
      let n = length nonce + length sealed in
      let whole : length nonce + length sealed ≡ length (nonce ++ sealed) =
        sym (length-append nonce sealed) in
      rw
        (
          value-header n (omega arith),
          whole,
          take-append (nonce ++ sealed) rest,
          drop-append (nonce ++ sealed) rest,
          ← twelve,
          take-append nonce sealed,
          drop-append nonce sealed,
          gcm.open-seal key nonce text,
        )
        refl

  -- the frames of some chunks, with the nonces from number `i` on
  abbrev pub emit : (ℕ → Bytes) → ℕ → List Bytes → Bytes
  emit nonces i [] = []
  emit nonces i (chunk ∷ chunks) =
      frame (nonces i) (gcm.seal key (nonces i) chunk) ++ emit nonces (suc i) chunks

  module _ (nonces : ℕ → Bytes) (twelve : (i : ℕ) → length (nonces i) ≡ 12)
      (overhead : (nonce text : Bytes) → length (gcm.seal key nonce text) ≤ length text + 16) where
    pub read_frames-emit :
        (fuel i : ℕ) (chunks : List Bytes)
        → AllSmall chunks
        → length chunks < fuel
        → read_frames fuel (emit nonces i chunks) ≡ some (join chunks)
    unfolding read_frames prepend
    read_frames-emit zero i chunks small bound = absurd (omega arith)
    read_frames-emit (suc fuel) i [] small bound = refl
    read_frames-emit (suc fuel) i (chunk ∷ chunks) small bound =
        let fits : length (gcm.seal key (nonces i) chunk) < 2 ^ 31 =
          omega (arith, overhead (nonces i) chunk, small.0) in
        read_frames-frame fuel (nonces i) chunk (emit nonces (suc i) chunks) (twelve i) fits
        ∙ ap (prepend (some chunk)) (read_frames-emit fuel (suc i) chunks small.1 (omega arith))

    pub length-emit : (i : ℕ) (chunks : List Bytes) → length chunks ≤ length (emit nonces i chunks)
    unfolding header
    length-emit i [] = omega arith
    length-emit i (chunk ∷ chunks) = omega (
      arith,
      length-append (frame (nonces i) (gcm.seal key (nonces i) chunk)) (emit nonces (suc i) chunks),
      length-emit (suc i) chunks,
    )

module _ (gcm : Gcm) (key : Bytes) (nonces : ℕ → Bytes) where
  pub emit-append :
      (i j : ℕ) (xs ys : List Bytes)
      → j ≡ i + length xs
      → emit gcm key nonces i (xs ++ ys) ≡ emit gcm key nonces i xs ++ emit gcm key nonces j ys
  emit-append i j [] ys e = ap (λ n. emit gcm key nonces n ys) (omega arith)
  emit-append i j (x ∷ xs) ys e =
      ap (◌++◌ (frame gcm key (nonces i) (gcm.seal key (nonces i) x)))
        (emit-append (suc i) j xs ys (omega arith))
      ∙ sym (
          append_assoc (frame gcm key (nonces i) (gcm.seal key (nonces i) x))
            (emit gcm key nonces (suc i) xs) (emit gcm key nonces j ys))

pub join-append : (xs ys : List Bytes) → join (xs ++ ys) ≡ join xs ++ join ys
join-append [] ys = refl
join-append (x ∷ xs) ys = ap (◌++◌ x) (join-append xs ys) ∙ sym (append_assoc x (join xs) (join ys))

pub append-AllSmall : (xs ys : List Bytes) → AllSmall xs → AllSmall ys → AllSmall (xs ++ ys)
append-AllSmall [] ys hx hy = hy
append-AllSmall (x ∷ xs) ys hx hy = (hx.0, append-AllSmall xs ys hx.1 hy)
