-- ===== src/Limits/Concurrency.antt =====
-- internal/proxy/ratelimit.go: `ConcurrencyLimiter`, a channel of a fixed capacity as a semaphore.
pub mod Reach
use s3proxy_go.Base.{ℕ, suc, ◌-◌, Bool, true, false, if◌then◌else◌, ltb, ◌==◌, List, [], ◌∷◌, ◌≡◌}

-- the requests that are with the next handler, by a number of their own, and the values in the channel
pub record Gate : Type 0 where
  pub held : ℕ
  pub running : List ℕ

pub data Outcome : Type 0 where
  served : Outcome
  request_timeout : Outcome
  too_busy : Outcome

unfoldable pub new_concurrency_limiter : Gate
new_concurrency_limiter = record { held = 0; running = [] }

-- `select` takes one of the cases that are ready, and the default where none is: the send is ready
-- where the channel has room, the context where the request is cancelled. Which of two ready ones is
-- taken is up to the runtime, here to `first`.
unfoldable pub selected : Bool → Bool → Bool → Outcome
selected true true first = if first then served else request_timeout
selected true false first = served
selected false true first = request_timeout
selected false false first = too_busy

abbrev admitted : ℕ → Gate → Outcome → Gate
admitted id g served = record { held = suc g.held; running = id ∷ g.running }
admitted id g request_timeout = g
admitted id g too_busy = g

-- a request arrives
unfoldable pub arrive : ℕ → ℕ → Bool → Bool → Gate → Outcome × Gate
unfolding selected
arrive max_concurrent id cancelled first g =
    let outcome = selected (ltb g.held max_concurrent) cancelled first in
    (outcome, admitted id g outcome)

unfoldable pub without : ℕ → List ℕ → List ℕ
without id [] = []
without id (x ∷ xs) = if x == id then xs else x ∷ without id xs

-- the handler of a request returns or panics, and the deferred receive frees its place
unfoldable pub finish : ℕ → Gate → Gate
unfolding without
finish id g = record { held = g.held - 1; running = without id g.running }
