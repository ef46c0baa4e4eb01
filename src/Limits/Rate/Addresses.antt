-- ===== src/Limits/Rate/Addresses.antt =====
-- Whose requests the limiter of an address counts, and what the cleanup takes away.
use s3proxy_go.Base.{
  ℕ, ◌-◌, ◌≤◌, true, false, if◌then◌else◌, ltb, Bytes, lit, beq_iff, Dict, lookup, KeysDiffer,
  is_empty, [], ◌∷◌, Option, none, some, ◌≡◌, ◌↔◌, refl, sym, ap, subst, arith, inl, inr,
  Bool-cases, ◌∙◌,
}
use s3proxy_go.Limits.Address.{Incoming, get_client_ip, header_value, index_of}
use s3proxy_go.Limits.Rate.{
  TokenBucket, IpLimiter, RateLimiter, forward, decision, five_minutes, cleanup, cleanup_ips,
  get_limiter, admit,
}

-- the entry of a map is kept if it was seen in the last five minutes
abbrev kept : {Limiter : Type 0} → ℕ → Option (IpLimiter Limiter) → Option (IpLimiter Limiter)
kept now none = none
kept now (some l) = if ltb five_minutes (now - l.last_seen) then none else some l

lookup-cleanup_ips :
    {Limiter : Type 0} (now : ℕ) (ip : Bytes) (m : Dict (IpLimiter Limiter))
    → KeysDiffer m
    → lookup ip (cleanup_ips now m) ≡ kept now (lookup ip m)
unfolding lookup cleanup_ips
lookup-cleanup_ips now ip [] h = refl
lookup-cleanup_ips now ip ((j, l) ∷ m) (new, more) =
    ground (arith, beq_iff j ip, lookup-cleanup_ips now ip m more, new)

client_ip_forwarded :
    (r : Incoming) (ip : Bytes)
    → header_value (lit "X-Forwarded-For") r ≡ ip
    → is_empty ip ≡ false
    → index_of ip b',' ≡ none
    → get_client_ip r ≡ ip
unfolding get_client_ip
client_ip_forwarded r ip named filled alone = simp (named, filled, alone)

seen_at : {Limiter : Type 0} → Option (IpLimiter Limiter) → ℕ
seen_at none = 0
seen_at (some l) = l.last_seen

same-time :
    {Limiter : Type 0} (k l : IpLimiter Limiter)
    → ◌≡◌ {A = Option (IpLimiter Limiter)} (some k) (some l)
    → k.last_seen ≡ l.last_seen
unfolding seen_at
same-time k l e = ap seen_at e

kept-some :
    {Limiter : Type 0} (now : ℕ) (o : Option (IpLimiter Limiter)) (l : IpLimiter Limiter)
    → (kept now o ≡ some l) ↔ ((o ≡ some l) × (now - l.last_seen ≤ five_minutes))
kept-some now none l = (λ e. cc, λ e. cc (e.0))
kept-some now (some k) l = elim (Bool-cases (ltb five_minutes (now - k.last_seen))) [
  | inl h ↦ rw h (λ e. cc, λ (e, recent). absurd (ground (arith, same-time k l e, h, recent)))
  | inr h ↦ rw h (λ e. (e, ground (arith, same-time k l e, h)), λ (e, recent). e)
]

-- A tick of the cleanup takes away the entries that were not seen for more than five minutes and leaves
-- every other as it was, with its bucket; the global bucket stays.
lookup-cleanup :
    {Limiter : Type 0} (now : ℕ) (ip : Bytes) (rl : RateLimiter Limiter)
    → KeysDiffer rl.per_ip
    → ((cleanup now rl).global ≡ rl.global)
      × ((l : IpLimiter Limiter)
          → (lookup ip (cleanup now rl).per_ip ≡ some l)
            ↔ ((lookup ip rl.per_ip ≡ some l) × (now - l.last_seen ≤ five_minutes)))
unfolding cleanup
lookup-cleanup now ip rl h = (
  refl,
  λ l.
      subst
        (λ o. (o ≡ some l) ↔ ((lookup ip rl.per_ip ≡ some l) × (now - l.last_seen ≤ five_minutes)))
        (sym (lookup-cleanup_ips now ip rl.per_ip h)) (kept-some now (lookup ip rl.per_ip) l),
)

module _ {Rate Limiter : Type 0} (bucket : TokenBucket Rate Limiter) where
  get_limiter_new :
      (ip : Bytes) (rps : Rate) (rl : RateLimiter Limiter)
      → lookup ip rl.per_ip ≡ none
      → get_limiter bucket ip rps rl ≡ bucket.new_limiter rps rl.max_burst
  unfolding get_limiter
  get_limiter_new ip rps rl fresh = rw (fresh, get_limiter)

  -- A client that names a new address in the header X-Forwarded-For, one that the limiter has no entry
  -- for and with no comma in it, is tested against a new bucket of its own: its request is forwarded
  -- where the global bucket and a new bucket allow one, however many it has sent before.
  pub admit_forwarded :
      (rps : Rate) (now : ℕ) (r : Incoming) (rl : RateLimiter Limiter) (ip : Bytes)
      → header_value (lit "X-Forwarded-For") r ≡ ip
      → is_empty ip ≡ false
      → index_of ip b',' ≡ none
      → lookup ip rl.per_ip ≡ none
      → (bucket.allow now rl.global).0 ≡ true
      → (bucket.allow now (bucket.new_limiter rps rl.max_burst)).0 ≡ true
      → (admit bucket rps now r rl).0 ≡ forward
  unfolding admit
  admit_forwarded rps now r rl ip named filled alone fresh global first =
      let new = λ (rl : RateLimiter Limiter) (fresh : lookup ip rl.per_ip ≡ none).
        ap (λ q. get_limiter bucket q rps rl) (client_ip_forwarded r ip named filled alone)
        ∙ get_limiter_new ip rps rl fresh in
      rw global (
        ap (λ l. decision bucket (bucket.allow now l).0)
          (new (record rl { global = (bucket.allow now rl.global).1 }) fresh)
        ∙ ap (decision bucket) first)
