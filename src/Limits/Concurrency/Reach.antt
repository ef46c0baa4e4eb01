-- ===== src/Limits/Concurrency/Reach.antt =====
-- What holds of a `ConcurrencyLimiter` after every sequence of arrivals and ends.
use s3proxy_go.Base.{
  ℕ, suc, ◌-◌, ◌≤◌, ◌<◌, Bool, true, false, List, [], ◌∷◌, ◌≡◌, refl, sym, subst, arith, length,
  ◌↔◌,
}
use s3proxy_go.Limits.Concurrency.{
  Gate, served, too_busy, new_concurrency_limiter, arrive, finish, without,
}

-- a request that is with the handler
pub data IsRunning (id : ℕ) : List ℕ → Type 0 where
  here : {xs : List ℕ} → IsRunning id (id ∷ xs)
  there : {x : ℕ} {xs : List ℕ} → IsRunning id xs → IsRunning id (x ∷ xs)

module _ (max_concurrent : ℕ) where
  -- a step of the limiter: a request arrives, cancelled or not, or one that runs comes to its end
  pub data Step : Gate → Gate → Type 0 where
    arrives :
        (id : ℕ) (cancelled first : Bool) (g : Gate)
        → Step g (arrive max_concurrent id cancelled first g).1
    ends : (id : ℕ) (g : Gate) → IsRunning id g.running → Step g (finish id g)

  pub data Steps : Gate → Gate → Type 0 where
    done : {g : Gate} → Steps g g
    step : {g h k : Gate} → Step g h → Steps h k → Steps g k

  pub record IsSound (g : Gate) : Type 0 where
    pub counted : g.held ≡ length g.running
    pub within : g.held ≤ max_concurrent

length-without : (id : ℕ) (xs : List ℕ) → IsRunning id xs → suc (length (without id xs)) ≡ length xs
unfolding without
length-without id [] h = elim h [ ]
length-without id (_ ∷ xs) here = ground arith
length-without id (x ∷ xs) (there h) = ground (arith, length-without id xs h)

without_head : (x : ℕ) (xs : List ℕ) → without x (x ∷ xs) ≡ xs
unfolding without
without_head x xs = ground arith

module _ (max_concurrent : ℕ) where
  arrive-IsSound :
      (id : ℕ) (cancelled first : Bool) (g : Gate)
      → IsSound max_concurrent g
      → IsSound max_concurrent (arrive max_concurrent id cancelled first g).1
  unfolding arrive
  arrive-IsSound id true true g h = ground (arith, h.counted, h.within)
  arrive-IsSound id true false g h = ground (arith, h.counted, h.within)
  arrive-IsSound id false first g h = ground (arith, h.counted, h.within)

  finish-IsSound :
      (id : ℕ) (g : Gate)
      → IsRunning id g.running
      → IsSound max_concurrent g
      → IsSound max_concurrent (finish id g)
  unfolding finish
  finish-IsSound id g runs h = record {
    counted = omega (arith, h.counted, length-without id g.running runs);
    within = omega (arith, h.within);
  }

  Step-IsSound :
      {g h : Gate} → Step max_concurrent g h → IsSound max_concurrent g → IsSound max_concurrent h
  Step-IsSound (arrives id cancelled first g) sound = arrive-IsSound id cancelled first g sound
  Step-IsSound (ends id g runs) sound = finish-IsSound id g runs sound

  Steps-IsSound :
      {g h : Gate} → Steps max_concurrent g h → IsSound max_concurrent g → IsSound max_concurrent h
  Steps-IsSound done sound = sound
  Steps-IsSound (step s more) sound = Steps-IsSound more (Step-IsSound s sound)

  new-IsSound : IsSound max_concurrent new_concurrency_limiter
  unfolding new_concurrency_limiter
  new-IsSound = record { counted = refl; within = omega arith }

  -- After every sequence of arrivals and ends of requests, at most `max_concurrent` requests are with
  -- the handler; a request that is not cancelled is turned away as too busy exactly when so many are,
  -- and served otherwise.
  pub running_requests_limited :
      (g : Gate) (id : ℕ) (first : Bool)
      → Steps max_concurrent new_concurrency_limiter g
      → (length g.running ≤ max_concurrent)
        × (((arrive max_concurrent id false first g).0 ≡ too_busy)
            ↔ (length g.running ≡ max_concurrent))
        × (((arrive max_concurrent id false first g).0 ≡ served)
            ↔ (length g.running < max_concurrent))
  unfolding arrive
  running_requests_limited g id first steps =
      let sound = Steps-IsSound steps new-IsSound in
      (
        omega (arith, sound.counted, sound.within),
        ground (arith, sound.counted, sound.within),
        ground (arith, sound.counted, sound.within),
      )

  -- the requests that run come to their ends, the last one first
  all_finish :
      (n : ℕ) (xs : List ℕ)
      → n ≡ length xs
      → Steps max_concurrent (record { held = n; running = xs }) new_concurrency_limiter
  unfolding new_concurrency_limiter finish
  all_finish n [] e =
      subst
        (λ m.
          Steps max_concurrent (record { held = m; running = [] })
            (record { held = 0; running = [] }))
        (sym e) done
  all_finish n (x ∷ xs) e = step (ends x (record { held = n; running = x ∷ xs }) here) (
      subst
        (λ ys.
          Steps max_concurrent (record { held = n - 1; running = ys })
            (record { held = 0; running = [] }))
        (sym (without_head x xs)) (all_finish (n - 1) xs (omega (arith, e))))

  -- Whatever has happened, the requests that are with the handler can all come to their ends, and then
  -- every place is free again, as at the start: no place is lost.
  pub every_place_comes_free :
      (g : Gate)
      → Steps max_concurrent new_concurrency_limiter g
      → Steps max_concurrent g new_concurrency_limiter
  unfolding new_concurrency_limiter
  every_place_comes_free g steps =
      all_finish g.held g.running (Steps-IsSound steps new-IsSound).counted
