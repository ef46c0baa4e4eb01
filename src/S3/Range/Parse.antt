-- ===== src/S3/Range/Parse.antt =====
-- `parseRangeHeader` of pkg/s3/handler.go reads a range that is written in decimal.
use s3proxy_go.Base.{
  ℕ, suc, ◌+◌, ◌<◌, ◌==◌, ◌||◌, true, false, some, [], ◌∷◌, ◌++◌, Bytes, lit, pos, ◌≡◌, ◌∙◌, refl,
  arith, ap₂, is_digit, AllDigits, format_nat, format_nat-AllDigits, format_nat_filled,
  parse_int-format_nat, int64_bound, is_empty, has_prefix, has_suffix, split, split_from, index,
  cut, take, drop, length, take-append, has_prefix-append,
}
use native.Mathlib.Numerals.{add-one}
use mathlib.Core.List.{append_assoc, append-nil}
use s3proxy_go.S3.Range.{parse_range_header, parse_part, trim_space, trim_left, trim_right}

-- texts of digits and dashes
abbrev IsPlain : ℕ → Type 0
IsPlain c = (is_digit c || c == b'-') ≡ true

abbrev AllPlain : Bytes → Type 0
AllPlain [] = Unit
AllPlain (c ∷ s) = IsPlain c × AllPlain s

digits-AllPlain : (a s : Bytes) → AllDigits a → AllPlain s → AllPlain (a ++ s)
digits-AllPlain [] s h p = p
digits-AllPlain (c ∷ a) s h p = (ground arith, digits-AllPlain a s h.1 p)

no_comma : (c : ℕ) → IsPlain c → (c == b',') ≡ false
no_comma c p = ground arith

-- a plain text has no comma, so that it is one piece
split_from-AllPlain : (cur s : Bytes) → AllPlain s → split_from (lit ",") 0 cur s ≡ (cur ++ s) ∷ []
unfolding split_from has_prefix
split_from-AllPlain cur [] p = rw append-nil
split_from-AllPlain cur (c ∷ s) p =
    ground (
      arith,
      no_comma c p.0,
      split_from-AllPlain (cur ++ c ∷ []) s p.1,
      append_assoc cur (c ∷ []) s,
    )

trim_left-AllPlain : (s : Bytes) → AllPlain s → trim_left s ≡ s
unfolding trim_left
trim_left-AllPlain [] p = refl
trim_left-AllPlain (c ∷ s) p = ground arith

trim_right-AllPlain : (s : Bytes) → AllPlain s → trim_right s ≡ s
unfolding trim_right
trim_right-AllPlain [] p = refl
trim_right-AllPlain (c ∷ s) p = rw (trim_right-AllPlain s p.1) (ground arith)

trim_space-AllPlain : (s : Bytes) → AllPlain s → trim_space s ≡ s
unfolding trim_space
trim_space-AllPlain s p = rw (trim_right-AllPlain s p) (trim_left-AllPlain s p)

index-AllDigits : (a s : Bytes) → AllDigits a → index (a ++ b'-' ∷ s) (lit "-") ≡ some (length a)
unfolding index
index-AllDigits [] s h = refl
index-AllDigits (c ∷ a) s h = ground (arith, index-AllDigits a s h.1)

has_suffix-AllDigits : (b : Bytes) → AllDigits b → has_suffix b (lit "-") ≡ false
unfolding has_suffix
has_suffix-AllDigits [] h = refl
has_suffix-AllDigits (c ∷ b) h = ground (arith, has_suffix-AllDigits b h.1)

has_suffix-append :
    (a b : Bytes)
    → is_empty b ≡ false
    → AllDigits a
    → AllDigits b
    → has_suffix (a ++ b'-' ∷ b) (lit "-") ≡ false
unfolding has_suffix is_empty
has_suffix-append [] [] f h k = cc
has_suffix-append [] (c ∷ r) f h k = has_suffix-AllDigits (c ∷ r) k
has_suffix-append (d ∷ a) b f h k = ground (arith, has_suffix-append a b f h.1 k)

prefix-AllDigits :
    (a s : Bytes) → is_empty a ≡ false → AllDigits a → has_prefix (a ++ s) (lit "-") ≡ false
unfolding has_prefix is_empty
prefix-AllDigits [] s f h = cc
prefix-AllDigits (c ∷ a) s f h = ground arith

format_nat-filled : (n : ℕ) → is_empty (format_nat n) ≡ false
unfolding is_empty
format_nat-filled n = let (c, s, e) = format_nat_filled n in rw e

drop_past : (a b : Bytes) → drop (suc (length a)) (a ++ b'-' ∷ b) ≡ b
drop_past [] b = refl
drop_past (c ∷ a) b = drop_past a b

cut_at :
    (s sep : Bytes) (i : ℕ)
    → index s sep ≡ some i
    → cut s sep ≡ some (take i s, drop (i + length sep) s)
unfolding cut
cut_at s sep i h = ground arith

cut-AllDigits : (a b : Bytes) → AllDigits a → cut (a ++ b'-' ∷ b) (lit "-") ≡ some (a, b)
cut-AllDigits a b h =
    cut_at (a ++ b'-' ∷ b) (lit "-") (length a) (index-AllDigits a b h)
    ∙ rw add-one (ap₂ (λ x y. some (x, y)) (take-append a (b'-' ∷ b)) (drop_past a b))

split_plain : (s : Bytes) → AllPlain s → split s (lit ",") ≡ s ∷ []
unfolding split
split_plain s p = split_from-AllPlain [] s p

module _ (a b : ℕ) (small_a : a < int64_bound) (small_b : b < int64_bound) where
  spec : Bytes
  spec = format_nat a ++ b'-' ∷ format_nat b

  spec-AllPlain : AllPlain spec
  unfolding spec
  spec-AllPlain =
      digits-AllPlain (format_nat a) (b'-' ∷ format_nat b) (format_nat-AllDigits a) (refl, rest)
    where
      rest : AllPlain (format_nat b)
      rest =
          rw (← append-nil (format_nat b))
            (digits-AllPlain (format_nat b) [] (format_nat-AllDigits b) tt)

  spec_prefix : has_prefix spec (lit "-") ≡ false
  unfolding spec
  spec_prefix = prefix-AllDigits (format_nat a) _ (format_nat-filled a) (format_nat-AllDigits a)

  spec_suffix : has_suffix spec (lit "-") ≡ false
  unfolding spec
  spec_suffix =
      has_suffix-append (format_nat a) (format_nat b) (format_nat-filled b) (format_nat-AllDigits a)
        (format_nat-AllDigits b)

  cut-spec : cut spec (lit "-") ≡ some (format_nat a, format_nat b)
  unfolding spec
  cut-spec = cut-AllDigits (format_nat a) (format_nat b) (format_nat-AllDigits a)

  spec-filled : is_empty spec ≡ false
  unfolding spec is_empty
  spec-filled = let (c, s, e) = format_nat_filled a in rw e

  parse_part-spec : parse_part spec ≡ some (record { start = pos a; end = pos b })
  unfolding parse_part
  parse_part-spec = rw (
    spec_prefix,
    spec_suffix,
    cut-spec,
    parse_int-format_nat a small_a,
    parse_int-format_nat b small_b,
  )

  -- The header bytes=a-b, with a and b in decimal and each below 2 ^ 63, is read as the one range from a to b.
  pub parse_range_header-format_nat :
      parse_range_header (lit "bytes=" ++ (format_nat a ++ b'-' ∷ format_nat b))
      ≡ some (record { start = pos a; end = pos b } ∷ [])
  unfolding parse_range_header spec
  parse_range_header-format_nat = rw (
    has_prefix-append (lit "bytes=") spec,
    split_plain spec spec-AllPlain,
    trim_space-AllPlain spec spec-AllPlain,
    spec-filled,
    parse_part-spec,
  )
