-- ===== src/Limits/Rate.antt =====
-- internal/proxy/ratelimit.go: `RateLimiter`. The token bucket of golang.org/x/time/rate is a parameter.
pub mod Addresses
use s3proxy_go.Base.{
  ℕ, ◌-◌, ◌*◌, Bool, true, false, if◌then◌else◌, ltb, Bytes, Dict, lookup, insert, List, [], ◌∷◌,
  Option, none, some,
}
use s3proxy_go.Limits.Address.{Incoming, get_client_ip}

-- `rate.NewLimiter` of a rate and a burst, and `Allow` at a time, with the bucket that it leaves
pub record TokenBucket (Rate Limiter : Type 0) : Type 0 where
  pub new_limiter : Rate → ℕ → Limiter
  pub allow : ℕ → Limiter → Bool × Limiter

pub record IpLimiter (Limiter : Type 0) : Type 0 where
  pub limiter : Limiter
  pub last_seen : ℕ

pub record RateLimiter (Limiter : Type 0) : Type 0 where
  pub global : Limiter
  pub per_ip : Dict (IpLimiter Limiter)
  pub max_burst : ℕ

pub data Decision : Type 0 where
  too_many : Decision
  forward : Decision

abbrev pub five_minutes : ℕ
five_minutes = 300 * 1000000000

-- one pass of the loop over the map, and what stands in the map behind it
unfoldable pub cleanup_ips :
    {Limiter : Type 0} → ℕ → Dict (IpLimiter Limiter) → Dict (IpLimiter Limiter)
cleanup_ips now [] = []
cleanup_ips now ((ip, l) ∷ m) =
    let rest = cleanup_ips now m in
    if ltb five_minutes (now - l.last_seen) then rest else (ip, l) ∷ rest

-- a tick of the cleanup
unfoldable pub cleanup : {Limiter : Type 0} → ℕ → RateLimiter Limiter → RateLimiter Limiter
unfolding cleanup_ips
cleanup now rl = record rl { per_ip = cleanup_ips now rl.per_ip }

module _ {Rate Limiter : Type 0} (bucket : TokenBucket Rate Limiter) where
  unfoldable pub new_rate_limiter : Rate → ℕ → RateLimiter Limiter
  new_rate_limiter global_rps burst = record {
    global = bucket.new_limiter global_rps burst;
    per_ip = [];
    max_burst = burst;
  }

  -- the limiter of an address, a new one where there is none
  unfoldable pub get_limiter : Bytes → Rate → RateLimiter Limiter → Limiter
  unfolding lookup
  get_limiter ip rps rl = elim (lookup ip rl.per_ip) [
    | some l ↦ l.limiter
    | none ↦ bucket.new_limiter rps rl.max_burst
  ]

  -- the limiter of an address after its `Allow`, and the time at which it was seen
  unfoldable pub seen : Bytes → Limiter → ℕ → RateLimiter Limiter → RateLimiter Limiter
  unfolding insert
  seen ip limiter now rl = record rl {
    per_ip = insert ip (record { limiter = limiter; last_seen = now }) rl.per_ip;
  }

  abbrev decision : Bool → Decision
  decision true = forward
  decision false = too_many

  -- the test of an address
  unfoldable pub allow_ip : Bytes → Rate → ℕ → RateLimiter Limiter → Decision × RateLimiter Limiter
  unfolding seen
  allow_ip ip rps now rl =
      let result = bucket.allow now (get_limiter ip rps rl) in
      (decision result.0, seen ip result.1 now rl)

  -- what the middleware does with a request before the next handler
  unfoldable pub admit : Rate → ℕ → Incoming → RateLimiter Limiter → Decision × RateLimiter Limiter
  unfolding allow_ip
  admit rps now r rl =
      let result = bucket.allow now rl.global in
      let rl' = record rl { global = result.1 } in
      if result.0 then allow_ip (get_client_ip r) rps now rl' else (too_many, rl')
