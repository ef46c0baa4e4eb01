-- ===== src/Limits/Examples.antt =====
-- The theorems on the limits at concrete values.
use s3proxy_go.Base.{
  ℕ, ◌-◌, ◌≤◌, ◌<◌, ◌==◌, true, false, if◌then◌else◌, Bytes, lit, length, [], ◌∷◌, ◌≡◌, ◌↔◌, refl,
}
use s3proxy_go.Limits.Address.{Incoming, get_client_ip}
use s3proxy_go.Limits.Rate.{TokenBucket, RateLimiter}
use s3proxy_go.Limits.Concurrency.{Gate, served, too_busy, new_concurrency_limiter, arrive}
use s3proxy_go.Limits.Concurrency.Reach.{
  Steps, step, done, arrives, running_requests_limited, every_place_comes_free,
}

-- a bucket that is never filled again, of which the rate is not read
abbrev tokens : TokenBucket ℕ ℕ
tokens = record {
  new_limiter = λ rate burst. burst;
  allow = λ now n. (if n == 0 then false else true, n - 1);
}

abbrev from_address : Bytes → Incoming
from_address ip = record {
  headers = (lit "X-Forwarded-For", ip) ∷ [];
  remote_addr = lit "10.0.0.1:80";
}

-- the bucket of "a" is empty
abbrev used_up : RateLimiter ℕ
used_up = record {
  global = 5;
  per_ip = (lit "a", record { limiter = 0; last_seen = 7 }) ∷ [];
  max_burst = 2;
}

client_ip_list : get_client_ip (from_address (lit "1.2.3.4, 5.6.7.8")) ≡ lit "1.2.3.4"
unfolding get_client_ip
client_ip_list = refl

client_ip_remote :
    get_client_ip (record { headers = []; remote_addr = lit "10.0.0.1:80" }) ≡ lit "10.0.0.1"
unfolding get_client_ip
client_ip_remote = refl

-- two requests have arrived at a limiter of two places
abbrev full : Gate
full = (arrive 2 8 false true (arrive 2 7 false true new_concurrency_limiter).1).1

two_arrivals : Steps 2 new_concurrency_limiter full
two_arrivals =
    step (arrives 7 false true new_concurrency_limiter)
      (step (arrives 8 false true (arrive 2 7 false true new_concurrency_limiter).1) done)

running_requests_limited_example :
    (length full.running ≤ 2)
    × (((arrive 2 9 false true full).0 ≡ too_busy) ↔ (length full.running ≡ 2))
    × (((arrive 2 9 false true full).0 ≡ served) ↔ (length full.running < 2))
running_requests_limited_example = running_requests_limited 2 full 9 true two_arrivals

every_place_comes_free_example : Steps 2 full new_concurrency_limiter
every_place_comes_free_example = every_place_comes_free 2 full two_arrivals

full_is_busy : (arrive 2 9 false true full).0 ≡ too_busy
unfolding arrive new_concurrency_limiter
full_is_busy = refl
