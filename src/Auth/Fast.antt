-- ===== src/Auth/Fast.antt =====
-- internal/auth/provider.go: `FastAWSProvider`, which remembers its verdicts for five minutes. Times are
-- nanoseconds.
use s3proxy_go.Base.{
  ℕ, ◌+◌, ◌*◌, ◌<◌, ◌≤◌, ltb, if◌then◌else◌, not, Bool, true, false, Option, none, some, [], ◌∷◌,
  ◌++◌, Bytes, is_empty, beq, beq_iff, has_prefix, cut, drop, length, lit, Dict, lookup, insert,
  lookup-insert, ok, err, ◌≡◌, refl, arith, Bool-cases, inl, inr, beq_refl,
}
use s3proxy_go.Auth.{Request, header, Verdict}

pub record FastEntry : Type 0 where
  pub valid : Bool
  pub timestamp : ℕ

abbrev pub cache_ttl : ℕ
cache_ttl = 5 * 60 * 1000000000

abbrev pub Verdicts : Type 0
Verdicts = Dict FastEntry

v2_fast_parts : Bytes → Option (Bytes × Bytes) → Verdict
v2_fast_parts access_key none = err (lit "invalid authorization header format")
v2_fast_parts access_key (some (k, signature)) =
    if not (beq k access_key) then err (lit "invalid access key") else ok tt

-- `authenticateV2Fast`
unfoldable pub authenticate_v2_fast : Bytes → Bytes → Verdict
unfolding v2_fast_parts
authenticate_v2_fast access_key authorization =
    v2_fast_parts access_key (cut (drop 4 authorization) (lit ":"))

v4_fast_rest : Bytes → Option (Bytes × Bytes) → Verdict
v4_fast_rest access_key none = err (lit "invalid credential format")
v4_fast_rest access_key (some (k, rest)) =
    if not (beq k access_key) then err (lit "invalid access key") else ok tt

v4_fast_credential : Bytes → Option (Bytes × Bytes) → Verdict
unfolding v4_fast_rest
v4_fast_credential access_key none = err (lit "missing credential in authorization header")
v4_fast_credential access_key (some (front, rest)) = v4_fast_rest access_key (cut rest (lit "/"))

-- `authenticateV4Fast`
unfoldable pub authenticate_v4_fast : Bytes → Bytes → Verdict
unfolding v4_fast_credential
authenticate_v4_fast access_key authorization =
    v4_fast_credential access_key (cut authorization (lit "Credential="))

-- the verdict that is not remembered
unfoldable pub decide_fast : Bytes → Bytes → Verdict
decide_fast access_key authorization =
    if has_prefix authorization (lit "AWS4-HMAC-SHA256 ")
    then authenticate_v4_fast access_key authorization
    else if has_prefix authorization (lit "AWS ")
    then authenticate_v2_fast access_key authorization
    else err (lit "unsupported authorization method")

unfoldable pub is_ok : Verdict → Bool
is_ok (ok u) = true
is_ok (err message) = false

-- the loop that drops the old entries
drop_old : ℕ → Verdicts → Verdicts
drop_old now [] = []
drop_old now ((k, v) ∷ m) =
    let rest = drop_old now m in if ltb (v.timestamp + cache_ttl) now then rest else (k, v) ∷ rest

remember : Bytes → Verdict → ℕ → Verdicts → Verdicts
unfolding is_ok drop_old
remember k verdict now cache =
    let m = insert k (record { valid = is_ok verdict; timestamp = now }) cache in
    if ltb 10000 (length m) then drop_old now m else m

unfoldable pub remembered : Bool → Verdict
remembered true = ok tt
remembered false = err (lit "cached: invalid credentials")

fresh_verdict : Bytes → Bytes → Bytes → ℕ → Verdicts → Verdict × Verdicts
unfolding remember
fresh_verdict access_key authorization k now cache =
    let verdict = decide_fast access_key authorization in (verdict, remember k verdict now cache)

verdict_of : Bytes → Bytes → Bytes → ℕ → Option FastEntry → Verdicts → Verdict × Verdicts
unfolding fresh_verdict remembered
verdict_of access_key authorization k now none cache =
    fresh_verdict access_key authorization k now cache
verdict_of access_key authorization k now (some entry) cache =
    if ltb now (entry.timestamp + cache_ttl)
    then (remembered entry.valid, cache)
    else fresh_verdict access_key authorization k now cache

unfoldable pub verdict_key : Request → Bytes
verdict_key r = header (lit "authorization") r ++ (r.method ++ r.path)

-- `FastAWSProvider.Authenticate`
unfoldable pub authenticate_fast : Bytes → Request → ℕ → Verdicts → Verdict × Verdicts
unfolding verdict_of is_empty
authenticate_fast access_key r now cache =
    let authorization = header (lit "authorization") r in
    if is_empty authorization
    then (err (lit "missing authorization header"), cache)
    else verdict_of access_key authorization (verdict_key r) now (lookup (verdict_key r) cache)
        cache

lookup-drop_old :
    (now : ℕ) (k : Bytes) (e : FastEntry) (m : Verdicts)
    → lookup k m ≡ some e
    → now ≤ e.timestamp + cache_ttl
    → lookup k (drop_old now m) ≡ some e
unfolding drop_old lookup
lookup-drop_old now k e [] found young = absurd (ground arith)
lookup-drop_old now k e ((j, v) ∷ m) found young =
    ground (arith, lookup-drop_old now k e m, beq_iff j k)

lookup-remember :
    (k : Bytes) (verdict : Verdict) (now : ℕ) (cache : Verdicts)
    → lookup k (remember k verdict now cache)
      ≡ some (record { valid = is_ok verdict; timestamp = now })
unfolding remember
lookup-remember k verdict now cache =
    let e : FastEntry = record { valid = is_ok verdict; timestamp = now } in
    let found : lookup k (insert k e cache) ≡ some e =
      rw (lookup-insert k k e cache, beq_refl k) refl in
    elim (Bool-cases (ltb 10000 (length (insert k e cache)))) [
      | inl large ↦ rw large (lookup-drop_old now k e (insert k e cache) found (omega arith))
      | inr small ↦ rw small found
    ]

-- A verdict that was not remembered is given again, from memory, to the same request for five minutes, however full the memory is: accepted as before, or refused as cached.
authenticate_fast-authenticate_fast :
    (access_key : Bytes) (r : Request) (now later : ℕ) (cache : Verdicts)
    → is_empty (header (lit "authorization") r) ≡ false
    → lookup (verdict_key r) cache ≡ none
    → later < now + cache_ttl
    → let (verdict, cache') = authenticate_fast access_key r now cache in
      authenticate_fast access_key r later cache' ≡ (remembered (is_ok verdict), cache')
unfolding authenticate_fast verdict_of fresh_verdict
authenticate_fast-authenticate_fast access_key r now later cache filled unknown soon =
    let k = verdict_key r in
    let verdict = decide_fast access_key (header (lit "authorization") r) in
    let live : ltb later (now + cache_ttl) ≡ true = ground arith in
    rw (filled, unknown, lookup-remember k verdict now cache, live) refl
