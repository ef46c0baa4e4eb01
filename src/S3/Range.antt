-- ===== src/S3/Range.antt =====
-- pkg/s3/handler.go: `parseRangeHeader`, and the arithmetic of `getRangeObject`.
pub mod Bounds
pub mod Parse
use s3proxy_go.Base.{
  ℕ, zero, suc, ◌+◌, ◌-◌, ◌==◌, ◌^◌, ltb, leb, if◌then◌else◌, ◌&&◌, ◌||◌, not, Bool, true, false,
  Option, none, some, List, [], ◌∷◌, ◌++◌, Bytes, is_empty, beq, has_prefix, has_suffix, index,
  split, cut, take, drop, length, String, lit, ℤ, pos, negsuc, ◌+ℤ◌, ◌-ℤ◌, ltb_ℤ, leb_ℤ, parse_int,
}

pub record ByteRange : Type 0 where
  pub start : ℤ
  pub end : ℤ

-- `strings.TrimSpace` on ASCII
unfoldable pub is_space : ℕ → Bool
is_space c = c == 32 || (leb 9 c && leb c 13)

unfoldable pub trim_left : Bytes → Bytes
unfolding is_space
trim_left [] = []
trim_left (c ∷ s) = let rest = trim_left s in if is_space c then rest else c ∷ s

-- drops the trailing run of spaces
unfoldable pub trim_right : Bytes → Bytes
unfolding is_space is_empty
trim_right [] = []
trim_right (c ∷ s) = let rest = trim_right s in if is_space c && is_empty rest then [] else c ∷ rest

unfoldable pub trim_space : Bytes → Bytes
unfolding trim_left trim_right
trim_space s = trim_left (trim_right s)

-- `-n` on int64: the least value is its own negation
unfoldable pub neg_int64 : ℤ → ℤ
neg_int64 (pos zero) = pos zero
neg_int64 (pos (suc n)) = negsuc n
neg_int64 (negsuc n) = if n == 2 ^ 63 - 1 then negsuc n else pos (suc n)

byte_range : Option ℤ → Option ℤ → Option ByteRange
byte_range none end = none
byte_range (some a) none = none
byte_range (some a) (some b) = some (record { start = a; end = b })

suffix_range : Option ℤ → Option ByteRange
suffix_range none = none
suffix_range (some n) = some (record { start = neg_int64 n; end = negsuc 0 })

normal_range : Option (Bytes × Bytes) → Option ByteRange
normal_range none = none
normal_range (some (a, b)) = byte_range (parse_int a) (parse_int b)

-- one element of the header, already trimmed and not empty; `none` is an error
unfoldable pub parse_part : Bytes → Option ByteRange
unfolding suffix_range byte_range normal_range
parse_part part =
    if has_prefix part (lit "-")
    then suffix_range (parse_int (drop 1 part))
    else if has_suffix part (lit "-")
    then byte_range (parse_int (take (length part - 1) part)) (some (negsuc 0))
    else normal_range (cut part (lit "-"))

add_range : Option ByteRange → Option (List ByteRange) → Option (List ByteRange)
add_range none rest = none
add_range (some r) none = none
add_range (some r) (some rs) = some (r ∷ rs)

parse_parts : List Bytes → Option (List ByteRange)
unfolding add_range
parse_parts [] = some []
parse_parts (p ∷ ps) =
    let part = trim_space p in
    let rest = parse_parts ps in if is_empty part then rest else add_range (parse_part part) rest

-- `parseRangeHeader`
unfoldable pub parse_range_header : Bytes → Option (List ByteRange)
unfolding parse_parts
parse_range_header header =
    if has_prefix header (lit "bytes=") then parse_parts (split (drop 6 header) (lit ",")) else none

-- the first and the last byte that `getRangeObject` serves of an object of this size
unfoldable pub adjust_range : ℤ → ByteRange → ℤ × ℤ
unfolding ◌+ℤ◌ ◌-ℤ◌
adjust_range size r = (
  if ltb_ℤ r.start (pos 0) then size +ℤ r.start else r.start,
  if ltb_ℤ r.end (pos 0) || leb_ℤ size r.end then size -ℤ pos 1 else r.end,
)

-- `none` is the answer 416
unfoldable pub resolve_range : ℤ → ByteRange → Option (ℤ × ℤ)
unfolding adjust_range
resolve_range size r =
    let (start, end) = adjust_range size r in
    if ltb_ℤ end start || leb_ℤ size start then none else some (start, end)
