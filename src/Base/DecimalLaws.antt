-- ===== src/Base/DecimalLaws.antt =====
-- Reading a number back from its decimal form.
use Prim.Native.Nat.{ℕ, zero, suc, ◌+◌, ◌*◌, ◌/◌, ◌%◌, ◌<◌}
use mathlib.Core.Path.{◌≡◌, ◌∙◌, ap}
use mathlib.Core.Bool.{true}
use mathlib.Core.Logic.{inl, inr}
use mathlib.Core.Option.{some}
use mathlib.Core.List.{[], ◌∷◌}
use native.Mathlib.Omega.{arith}
use s3proxy_go.Base.Tests.{ltb, Bool-cases, ltb→lt}
use s3proxy_go.Base.Text.{Bytes}
use s3proxy_go.Base.Int.{pos}
use s3proxy_go.Base.Decimal.{
  is_digit, digits_value, parse_int, format_from, format_nat, int64_bound,
}

-- texts of digits alone
abbrev pub AllDigits : Bytes → Type 0
AllDigits [] = Unit
AllDigits (c ∷ s) = (is_digit c ≡ true) × AllDigits s

digit_fits : (d : ℕ) → d < 10 → is_digit (d + 48) ≡ true
digit_fits d h = ground arith

digit_step :
    (m d : ℕ) (acc : Bytes)
    → d < 10
    → digits_value m ((d + 48) ∷ acc) ≡ digits_value (m * 10 + d) acc
unfolding digits_value
digit_step m d acc h = rw (digit_fits d h) (ap (λ k. digits_value k acc) (omega arith))

digits_value-format_from :
    (f n : ℕ) (acc : Bytes) → n < f → digits_value 0 (format_from f n acc) ≡ digits_value n acc
unfolding format_from
digits_value-format_from zero n acc h = absurd (omega arith)
digits_value-format_from (suc f) n acc h = elim (Bool-cases (ltb n 10)) [
  | inl e ↦ rw e (digit_step 0 n acc (ltb→lt n 10 e) ∙ ap (λ k. digits_value k acc) (omega arith))
  | inr e ↦ rw e (
      digits_value-format_from f (n / 10) _ (ground arith)
      ∙ digit_step (n / 10) (n % 10) acc (omega arith)
      ∙ ap (λ k. digits_value k acc) (omega arith))
]

format_from-AllDigits : (f n : ℕ) (acc : Bytes) → AllDigits acc → AllDigits (format_from f n acc)
unfolding format_from
format_from-AllDigits zero n acc h = h
format_from-AllDigits (suc f) n acc h = elim (Bool-cases (ltb n 10)) [
  | inl e ↦ rw e (ground arith, h)
  | inr e ↦ rw e (format_from-AllDigits f (n / 10) _ (ground arith, h))
]

pub format_nat-AllDigits : (n : ℕ) → AllDigits (format_nat n)
unfolding format_nat
format_nat-AllDigits n = format_from-AllDigits (suc n) n [] tt

-- the decimal form is not empty
format_from_filled :
    (f n : ℕ) (acc : Bytes) → n < f → (c : ℕ) × (s : Bytes) × (format_from f n acc ≡ c ∷ s)
unfolding format_from
format_from_filled zero n acc h = absurd (omega arith)
format_from_filled (suc f) n acc h = elim (Bool-cases (ltb n 10)) [
  | inl e ↦ (n + 48, acc, rw e)
  | inr e ↦ rw e (format_from_filled f (n / 10) _ (ground arith))
]

pub format_nat_filled : (n : ℕ) → (c : ℕ) × (s : Bytes) × (format_nat n ≡ c ∷ s)
unfolding format_nat
format_nat_filled n = format_from_filled (suc n) n [] (omega arith)

digits_value-format_nat : (n : ℕ) → digits_value 0 (format_nat n) ≡ some n
unfolding format_nat digits_value
digits_value-format_nat n = digits_value-format_from (suc n) n [] (omega arith)

parse_int_digits :
    (c n : ℕ) (s : Bytes)
    → is_digit c ≡ true
    → n < int64_bound
    → digits_value 0 (c ∷ s) ≡ some n
    → parse_int (c ∷ s) ≡ some (pos n)
unfolding parse_int
parse_int_digits c n s d h e = ground (arith, e)

-- `strconv.ParseInt` reads what `strconv.FormatInt` wrote of a number that an int64 holds.
pub parse_int-format_nat : (n : ℕ) → n < int64_bound → parse_int (format_nat n) ≡ some (pos n)
parse_int-format_nat n h =
    let (c, s, e) = format_nat_filled n in
    rw e (
      parse_int_digits c n s (rw e at (format_nat-AllDigits n)).0 h
        (rw e at (digits_value-format_nat n)))
