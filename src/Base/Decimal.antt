-- ===== src/Base/Decimal.antt =====
-- `strconv.ParseInt(s, 10, 64)` and `strconv.FormatInt(n, 10)`.
use Prim.Native.Nat.{ℕ, zero, suc, ◌+◌, ◌-◌, ◌*◌, ◌/◌, ◌%◌, ◌^◌}
use mathlib.Core.Bool.{Bool, ◌&&◌}
use mathlib.Core.Option.{Option, none, some}
use mathlib.Core.List.{[], ◌∷◌}
use s3proxy_go.Base.Tests.{leb, ltb, ◌==◌, if◌then◌else◌}
use s3proxy_go.Base.Text.{Bytes}
use s3proxy_go.Base.Int.{ℤ, pos, negsuc}

abbrev pub is_digit : ℕ → Bool
is_digit c = leb 48 c && leb c 57

-- the value of the digits behind the value `n`
unfoldable pub digits_value : ℕ → Bytes → Option ℕ
digits_value n [] = some n
digits_value n (c ∷ s) =
    let rest = digits_value (n * 10 + (c - 48)) s in if is_digit c then rest else none

unfoldable pub parse_digits : Bytes → Option ℕ
unfolding digits_value
parse_digits [] = none
parse_digits (c ∷ s) = digits_value 0 (c ∷ s)

abbrev pub int64_bound : ℕ
int64_bound = 2 ^ 63

in_range_pos : Option ℕ → Option ℤ
in_range_pos none = none
in_range_pos (some n) = if ltb n int64_bound then some (pos n) else none

abbrev negated : ℕ → ℤ
negated zero = pos zero
negated (suc n) = negsuc n

in_range_neg : Option ℕ → Option ℤ
in_range_neg none = none
in_range_neg (some n) = if leb n int64_bound then some (negated n) else none

-- `none` is an error: no digits, another byte than a digit, or a value outside int64
unfoldable pub parse_int : Bytes → Option ℤ
unfolding parse_digits in_range_pos in_range_neg
parse_int [] = none
parse_int (c ∷ s) =
    if c == b'-'
    then in_range_neg (parse_digits s)
    else if c == b'+'
    then in_range_pos (parse_digits s)
    else in_range_pos (parse_digits (c ∷ s))

-- the digits of `n` in front of `acc`; a number has fewer digits than its value, but for 0
unfoldable pub format_from : ℕ → ℕ → Bytes → Bytes
format_from zero n acc = acc
format_from (suc f) n acc =
    let more = format_from f (n / 10) ((n % 10 + 48) ∷ acc) in
    if ltb n 10 then (n + 48) ∷ acc else more

unfoldable pub format_nat : ℕ → Bytes
unfolding format_from
format_nat n = format_from (suc n) n []

unfoldable pub format_int : ℤ → Bytes
unfolding format_nat
format_int (pos n) = format_nat n
format_int (negsuc n) = b'-' ∷ format_nat (suc n)

hex_digit : ℕ → ℕ
hex_digit d = if ltb d 10 then d + 48 else d + 87

hex_from : ℕ → ℕ → Bytes → Bytes
unfolding hex_digit
hex_from zero n acc = acc
hex_from (suc f) n acc =
    let more = hex_from f (n / 16) (hex_digit (n % 16) ∷ acc) in
    if ltb n 16 then hex_digit n ∷ acc else more

-- `fmt.Sprintf("%x", n)`
unfoldable pub format_hex : ℕ → Bytes
unfolding hex_from
format_hex n = hex_from (suc n) n []
