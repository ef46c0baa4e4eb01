-- ===== src/S3/Range/Bounds.antt =====
-- Which bytes of an object pkg/s3/handler.go serves for a range.
use Prim.Native.Nat.{min}
use s3proxy_go.Base.{
  ℕ, ◌+◌, ◌-◌, ◌<◌, ltb, leb, if◌then◌else◌, ◌&&◌, none, some, pos, negsuc, ◌≡◌, arith,
}
use s3proxy_go.S3.Range.{resolve_range}

-- A range from byte a to byte b of an object of n bytes is served from a to the smaller of b and n - 1 if a lies in the object and not behind b, and is refused otherwise.
pub resolve_range_closed :
    (n a b : ℕ)
    → resolve_range (pos n) (record { start = pos a; end = pos b })
      ≡ (if ltb a n && leb a b then some (pos a, pos (min b (n - 1))) else none)
unfolding resolve_range
resolve_range_closed n a b = ground arith

-- An open range from byte a of an object of n bytes is served from a to the last byte if a lies in the object, and is refused otherwise.
pub resolve_range_open :
    (n a : ℕ)
    → resolve_range (pos n) (record { start = pos a; end = negsuc 0 })
      ≡ (if ltb a n then some (pos a, pos (n - 1)) else none)
unfolding resolve_range
resolve_range_open n a = ground arith

-- A request for the last k + 1 bytes of an object of n bytes that is not empty is served from byte n - k - 1 to the last one if the object has that many bytes, and else from a negative position, k + 1 - n in front of the object, on.
pub resolve_range_suffix :
    (n k : ℕ)
    → 0 < n
    → resolve_range (pos n) (record { start = negsuc k; end = negsuc 0 }) ≡ (
        if ltb k n
        then some (pos (n - (k + 1)), pos (n - 1))
        else some (negsuc (k - n), pos (n - 1)))
unfolding resolve_range
resolve_range_suffix n k h = ground arith
