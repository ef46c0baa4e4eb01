-- ===== src/Kms/Manager/Validation.antt =====
-- Key validation of internal/kms/manager.go and its cache.
use s3proxy_go.Base.{
  ℕ, ◌-◌, ◌<◌, true, false, some, [], ◌∷◌, Bytes, is_empty, beq, Dict, lookup, insert, Result, ok,
  err, ◌∙◌, ◌⊎◌, ◌≡◌, refl, Bool-cases, inl, inr, lookup-insert, beq_refl, arith,
}
use s3proxy_go.Kms.Manager.{
  Manager, Client, Error, KeyInfo, enabled_client, validate_key, describe, cached_info, hour,
}

abbrev pub IsUsable : KeyInfo → Type 0
IsUsable info = (info.enabled ≡ true) × (info.supports_encrypt ≡ true)

-- every key information in the cache is of a key that was enabled and could encrypt
abbrev pub AllUsable : Dict KeyInfo → Type 0
AllUsable [] = Unit
AllUsable ((k, info) ∷ m) = IsUsable info × AllUsable m

describe-IsUsable :
    (client : Client) (key_id : Bytes) (now : ℕ) (info : KeyInfo)
    → describe client key_id now ≡ ok info
    → IsUsable info
unfolding describe
describe-IsUsable client key_id now info h = ground arith

lookup-AllUsable :
    (k : Bytes) (m : Dict KeyInfo) (info : KeyInfo)
    → AllUsable m
    → lookup k m ≡ some info
    → IsUsable info
unfolding lookup
lookup-AllUsable k [] info u h = cc
lookup-AllUsable k ((j, i) ∷ m) info u h = ground (arith, lookup-AllUsable k m info u.1)

insert-AllUsable :
    (k : Bytes) (info : KeyInfo) (m : Dict KeyInfo)
    → IsUsable info
    → AllUsable m
    → AllUsable (insert k info m)
unfolding insert
insert-AllUsable k info [] i u = (i, tt)
insert-AllUsable k info ((j, i') ∷ m) i u = elim (Bool-cases (beq j k)) [
  | inl e ↦ rw e (i, u.1)
  | inr e ↦ rw e (u.0, insert-AllUsable k info m i u.1)
]

-- the ways in which `ValidateKey` succeeds
Accepted : Bytes → ℕ → Manager → KeyInfo → Type 0
Accepted key_id now m info =
    (client : Client) × (enabled_client m ≡ ok client)
    × (is_empty key_id ≡ false)
    × (((cached_info key_id now m ≡ some info) × ((validate_key key_id now m).1 ≡ m))
        ⊎ ((describe client key_id now ≡ ok info)
            × ((validate_key key_id now m).1
                ≡ record m { key_cache = insert key_id info m.key_cache })))

validate_key-Accepted :
    (key_id : Bytes) (now : ℕ) (m : Manager) (info : KeyInfo)
    → (validate_key key_id now m).0 ≡ ok info
    → Accepted key_id now m info
unfolding validate_key Accepted
validate_key-Accepted key_id now m info h = go (enabled_client m) refl
  where
    go : (r : Result Error Client) → enabled_client m ≡ r → Accepted key_id now m info
    go (err e) c = absurd (ground arith)
    go (ok client) c = (client, c, ground arith, ground arith)

-- A call of ValidateKey that returns an error leaves the manager as it was.
pub validate_key_error_unchanged :
    (key_id : Bytes) (now : ℕ) (m : Manager) (e : Error)
    → (validate_key key_id now m).0 ≡ err e
    → (validate_key key_id now m).1 ≡ m
unfolding validate_key
validate_key_error_unchanged key_id now m e h = ground arith

cached_info-IsUsable :
    (key_id : Bytes) (now : ℕ) (m : Manager) (info : KeyInfo)
    → AllUsable m.key_cache
    → cached_info key_id now m ≡ some info
    → IsUsable info
unfolding cached_info
cached_info-IsUsable key_id now m info u h =
    lookup-AllUsable key_id m.key_cache info u (ground arith)

IsUsable-of-Accepted :
    (key_id : Bytes) (now : ℕ) (m : Manager) (info : KeyInfo)
    → AllUsable m.key_cache
    → Accepted key_id now m info
    → IsUsable info × AllUsable (validate_key key_id now m).1.key_cache
unfolding Accepted
IsUsable-of-Accepted key_id now m info u (client, c, filled, inl (hit, same)) =
    (cached_info-IsUsable key_id now m info u hit, rw same u)
IsUsable-of-Accepted key_id now m info u (client, c, filled, inr (made, stored)) =
    let i = describe-IsUsable client key_id now info made in
    (i, rw stored (insert-AllUsable key_id info m.key_cache i u))

-- If every cached key information is of a usable key, then a key that ValidateKey returns is enabled and supports encryption, and the cache still holds usable keys alone.
pub validate_key-IsUsable :
    (key_id : Bytes) (now : ℕ) (m : Manager) (info : KeyInfo)
    → AllUsable m.key_cache
    → (validate_key key_id now m).0 ≡ ok info
    → IsUsable info × AllUsable (validate_key key_id now m).1.key_cache
validate_key-IsUsable key_id now m info u h =
    IsUsable-of-Accepted key_id now m info u (validate_key-Accepted key_id now m info h)

cached_info_later :
    (key_id : Bytes) (later : ℕ) (m : Manager) (info : KeyInfo)
    → lookup key_id m.key_cache ≡ some info
    → later - info.last_validated < hour
    → cached_info key_id later m ≡ some info
unfolding cached_info
cached_info_later key_id later m info h fresh = ground arith

lookup-cached_info :
    (key_id : Bytes) (now : ℕ) (m : Manager) (info : KeyInfo)
    → cached_info key_id now m ≡ some info
    → lookup key_id m.key_cache ≡ some info
unfolding cached_info
lookup-cached_info key_id now m info h = ground arith

validate_key_hit :
    (key_id : Bytes) (now : ℕ) (m : Manager) (info : KeyInfo) (client : Client)
    → enabled_client m ≡ ok client
    → is_empty key_id ≡ false
    → cached_info key_id now m ≡ some info
    → validate_key key_id now m ≡ (ok info, m)
unfolding validate_key
validate_key_hit key_id now m info client c filled hit = ground arith

stored : Bytes → KeyInfo → Manager → Manager
stored key_id info m = record m { key_cache = insert key_id info m.key_cache }

enabled_client-stored :
    (key_id : Bytes) (info : KeyInfo) (m : Manager)
    → enabled_client (stored key_id info m) ≡ enabled_client m
unfolding enabled_client stored
enabled_client-stored key_id info m = refl

lookup-stored :
    (key_id : Bytes) (info : KeyInfo) (m : Manager)
    → lookup key_id (stored key_id info m).key_cache ≡ some info
unfolding stored
lookup-stored key_id info m = rw lookup-insert (rw (beq_refl key_id))

again_of-Accepted :
    (key_id : Bytes) (now later : ℕ) (m : Manager) (info : KeyInfo)
    → later - info.last_validated < hour
    → Accepted key_id now m info
    → validate_key key_id later (validate_key key_id now m).1
      ≡ (ok info, (validate_key key_id now m).1)
unfolding Accepted stored
again_of-Accepted key_id now later m info fresh (client, c, filled, inl (hit, same)) = rw same (
    validate_key_hit key_id later m info client c filled
      (cached_info_later key_id later m info (lookup-cached_info key_id now m info hit) fresh))
again_of-Accepted key_id now later m info fresh (client, c, filled, inr (made, kept)) =
    let m' = stored key_id info m in
    rw kept (
      validate_key_hit key_id later m' info client (enabled_client-stored key_id info m ∙ c) filled
        (cached_info_later key_id later m' info (lookup-stored key_id info m) fresh))

-- A key that ValidateKey has accepted is accepted again, with the same information, no call of the service and the manager as it was, as long as the information is less than an hour old.
validate_key-validate_key :
    (key_id : Bytes) (now later : ℕ) (m : Manager) (info : KeyInfo)
    → (validate_key key_id now m).0 ≡ ok info
    → later - info.last_validated < hour
    → validate_key key_id later (validate_key key_id now m).1
      ≡ (ok info, (validate_key key_id now m).1)
validate_key-validate_key key_id now later m info h fresh =
    again_of-Accepted key_id now later m info fresh (validate_key-Accepted key_id now m info h)
