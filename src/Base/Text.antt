-- ===== src/Base/Text.antt =====
-- Go's strings as lists of bytes, with the functions of its package strings that the source calls.
use Prim.Native.Nat.{ℕ, zero, suc, ◌+◌, ◌-◌}
use Prim.Native.Char.{code}
use Prim.Native.String.{String}
use mathlib.Core.Bool.{Bool, true, false, ◌&&◌, ◌||◌}
use mathlib.Core.Option.{Option, none, some}
use mathlib.Core.List.{List, [], ◌∷◌, ◌++◌, map}
use s3proxy_go.Base.Tests.{leb, ◌==◌, if◌then◌else◌}
use s3proxy_go.Base.Lists.{length, take, drop}

abbrev pub Bytes : Type 0
Bytes = List ℕ

-- the bytes of an ASCII literal
abbrev pub lit : String → Bytes
lit String.[] = []
lit (String.◌∷◌ c s) = code c ∷ lit s

-- `a == b` on strings
unfoldable pub beq : Bytes → Bytes → Bool
beq [] [] = true
beq [] (y ∷ ys) = false
beq (x ∷ xs) [] = false
beq (x ∷ xs) (y ∷ ys) = (x == y) && beq xs ys

-- `strings.HasPrefix s p`
unfoldable pub has_prefix : Bytes → Bytes → Bool
has_prefix s [] = true
has_prefix [] (y ∷ p) = false
has_prefix (x ∷ s) (y ∷ p) = (x == y) && has_prefix s p

unfoldable pub is_empty : Bytes → Bool
is_empty [] = true
is_empty (x ∷ s) = false

-- `strings.HasSuffix s p`
unfoldable pub has_suffix : Bytes → Bytes → Bool
unfolding beq
has_suffix [] p = beq [] p
has_suffix (x ∷ s) p = beq (x ∷ s) p || has_suffix s p

-- `strings.Index s p`; `none` is -1
unfoldable pub index : Bytes → Bytes → Option ℕ
unfolding has_prefix
index [] p = if has_prefix [] p then some 0 else none
index (x ∷ s) p =
    let rest = index s p in
    if has_prefix (x ∷ s) p then some 0 else elim rest [ none ↦ none | some i ↦ some (suc i) ]

-- `strings.Contains s p`
unfoldable pub contains : Bytes → Bytes → Bool
unfolding has_prefix
contains [] p = has_prefix [] p
contains (x ∷ s) p = has_prefix (x ∷ s) p || contains s p

-- `strings.ToLower` on ASCII
unfoldable pub lower : ℕ → ℕ
lower c = if leb b'A' c && leb c b'Z' then c + 32 else c

unfoldable pub to_lower : Bytes → Bytes
unfolding lower
to_lower = map lower

-- `strings.Split s sep`, for a separator that is not empty: `skip` bytes of a separator that was
-- met are still to be passed over, and `cur` is the piece so far
unfoldable pub split_from : Bytes → ℕ → Bytes → Bytes → List Bytes
unfolding has_prefix
split_from sep skip cur [] = cur ∷ []
split_from sep (suc k) cur (c ∷ s) = split_from sep k cur s
split_from sep zero cur (c ∷ s) =
    let piece = cur ∷ split_from sep (length sep - 1) [] s in
    let longer = split_from sep zero (cur ++ c ∷ []) s in
    if has_prefix (c ∷ s) sep then piece else longer

unfoldable pub split : Bytes → Bytes → List Bytes
unfolding split_from
split s sep = split_from sep zero [] s

-- `strings.SplitN s sep 2`: the text before the first separator and the text behind it
unfoldable pub cut : Bytes → Bytes → Option (Bytes × Bytes)
cut s sep = elim (index s sep) [ none ↦ none | some i ↦ some (take i s, drop (i + length sep) s) ]

-- `strings.ReplaceAll s c ""` for a single byte
unfoldable pub remove_byte : ℕ → Bytes → Bytes
remove_byte c [] = []
remove_byte c (x ∷ s) = let rest = remove_byte c s in if x == c then rest else x ∷ rest
