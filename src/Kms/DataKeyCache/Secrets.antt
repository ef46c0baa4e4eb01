-- ===== src/Kms/DataKeyCache/Secrets.antt =====
-- Which plaintext keys the methods of internal/kms/cache.go zero.
use s3proxy_go.Base.{
  ◌∙◌, ◌&&◌, ==_iff, ℕ, ◌==◌, ◌||◌, ltb, if◌then◌else◌, Bool, true, false, Option, none, some, [],
  ◌∷◌, Bytes, is_empty, Bool-cases, inl, inr, beq_refl, lookup, ◌≡◌, refl, arith, Dict, ap,
}
use s3proxy_go.Kms.DataKeyCache.Reads.{get-put}
use s3proxy_go.Kms.DataKeyCache.{
  DataKey, DataKeyCache, CacheEntry, Heap, get, put, delete_key, clear, clear_all, cleanup,
  cleanup_loop, close, clear_sensitive_data, clear_entry, wipe, zeros,
}

zeros-zeros : (b : Bytes) → zeros (zeros b) ≡ zeros b
zeros-zeros [] = refl
zeros-zeros (x ∷ b) = ap (◌∷◌ 0) (zeros-zeros b)

pub wipe-wipe : (d : DataKey) → wipe (wipe d) ≡ wipe d
wipe-wipe d = ap (λ b. record d { plaintext_key = b }) (zeros-zeros d.plaintext_key)

abbrev pub is_at : ℕ → Option ℕ → Bool
is_at p none = false
is_at p (some q) = p == q

-- the entry points to `p`
abbrev pub points_to : ℕ → Option (Option CacheEntry) → Bool
points_to p none = false
points_to p (some none) = false
points_to p (some (some e)) = is_at p e.data_key

-- some entry points to `p`
abbrev pub holds : ℕ → Dict (Option CacheEntry) → Bool
holds p [] = false
holds p ((k, e) ∷ m) = points_to p (some e) || holds p m

-- some entry that has expired at `now` points to `p`
abbrev pub holds_expired : ℕ → ℕ → Dict (Option CacheEntry) → Bool
holds_expired p now [] = false
holds_expired p now ((k, none) ∷ m) = holds_expired p now m
holds_expired p now ((k, some e) ∷ m) =
    (ltb e.expires_at now && is_at p e.data_key) || holds_expired p now m

abbrev pub wiped_if : Bool → DataKey → DataKey
wiped_if b d = if b then wipe d else d

wiped_if-wiped_if : (a b : Bool) (d : DataKey) → wiped_if a (wiped_if b d) ≡ wiped_if (b || a) d
wiped_if-wiped_if true true d = wipe-wipe d
wiped_if-wiped_if true false d = refl
wiped_if-wiped_if false true d = refl
wiped_if-wiped_if false false d = refl

clear_sensitive_data_at :
    (o : Option ℕ) (h : Heap) (p : ℕ) → clear_sensitive_data o h p ≡ wiped_if (is_at p o) (h p)
unfolding clear_sensitive_data
clear_sensitive_data_at none h p = refl
clear_sensitive_data_at (some q) h p = elim (Bool-cases (p == q)) [
  | inl e ↦ rw e (rw (← (==_iff p q).0 e))
  | inr e ↦ rw e
]

clear_entry_at :
    (o : Option (Option CacheEntry)) (h : Heap) (p : ℕ)
    → clear_entry o h p ≡ wiped_if (points_to p o) (h p)
unfolding clear_entry
clear_entry_at none h p = refl
clear_entry_at (some none) h p = refl
clear_entry_at (some (some e)) h p = clear_sensitive_data_at e.data_key h p

clear_all_at :
    (m : Dict (Option CacheEntry)) (h : Heap) (p : ℕ) → clear_all m h p ≡ wiped_if (holds p m) (h p)
unfolding clear_all
clear_all_at [] h p = refl
clear_all_at ((k, e) ∷ m) h p =
    clear_all_at m (clear_entry (some e) h) p
    ∙ ap (wiped_if (holds p m)) (clear_entry_at (some e) h p)
    ∙ wiped_if-wiped_if (holds p m) (points_to p (some e)) (h p)

cleanup_step_at :
    (e : CacheEntry) (now : ℕ) (h : Heap) (p : ℕ)
    → (if ltb e.expires_at now then clear_sensitive_data e.data_key h else h) p
      ≡ wiped_if (ltb e.expires_at now && is_at p e.data_key) (h p)
cleanup_step_at e now h p = elim (Bool-cases (ltb e.expires_at now)) [
  | inl g ↦ rw g (clear_sensitive_data_at e.data_key h p)
  | inr g ↦ rw g
]

cleanup_loop_at :
    (now : ℕ) (m : Dict (Option CacheEntry)) (h : Heap) (p : ℕ)
    → (cleanup_loop now m h).1 p ≡ wiped_if (holds_expired p now m) (h p)
unfolding cleanup_loop
cleanup_loop_at now [] h p = refl
cleanup_loop_at now ((k, none) ∷ m) h p = cleanup_loop_at now m h p
cleanup_loop_at now ((k, some e) ∷ m) h p =
    cleanup_loop_at now m _ p
    ∙ ap (wiped_if (holds_expired p now m)) (cleanup_step_at e now h p)
    ∙ wiped_if-wiped_if (holds_expired p now m) _ (h p)

-- The cleanup zeroes the plaintext of exactly the data keys that an expired entry points to, and leaves every other data key as it was.
pub cleanup-heap :
    (now : ℕ) (c : DataKeyCache) (h : Heap) (p : ℕ)
    → (cleanup now c h).1 p ≡ wiped_if (holds_expired p now c.cache) (h p)
unfolding cleanup
cleanup-heap now c h p = cleanup_loop_at now c.cache h p

-- Put of a key that is not empty zeroes the plaintext of the data key that the replaced entry points to, and of no other.
pub put-heap :
    (key : Bytes) (q now : ℕ) (c : DataKeyCache) (h : Heap) (p : ℕ)
    → is_empty key ≡ false
    → (put key (some q) now c h).1 p ≡ wiped_if (points_to p (lookup key c.cache)) (h p)
unfolding put
put-heap key q now c h p e = rw e (clear_entry_at (lookup key c.cache) h p)

-- Clear, Close of a cache that is not closed, and Delete of a key that is not empty zero the plaintext of exactly the data keys that the removed entries point to, and a second Close changes nothing.
removal-heap :
    (key : Bytes) (c : DataKeyCache) (h : Heap) (p : ℕ)
    → is_empty key ≡ false
    → c.stopped ≡ false
    → ((clear c h).1 p ≡ wiped_if (holds p c.cache) (h p))
      × ((close c h).1 p ≡ wiped_if (holds p c.cache) (h p))
      × ((delete_key key c h).1 p ≡ wiped_if (points_to p (lookup key c.cache)) (h p))
      × (close (close c h).0 (close c h).1 ≡ close c h)
unfolding clear close delete_key
removal-heap key c h p e o = (
  clear_all_at c.cache h p,
  rw o (clear_all_at c.cache h p),
  rw e (clear_entry_at (lookup key c.cache) h p),
  rw o,
)

-- A data key that Get returns is held by the key's entry, which has not expired.
get-some :
    (key : Bytes) (p now : ℕ) (c : DataKeyCache)
    → get key now c ≡ some p
    → (is_empty key ≡ false) × (points_to p (lookup key c.cache) ≡ true)
unfolding get
get-some key p now c e = ground arith

-- Put of the data key that Get has just returned for the key leaves it in the cache with its plaintext zeroed.
put-get_zeroes :
    (key : Bytes) (p now : ℕ) (c : DataKeyCache) (h : Heap)
    → get key now c ≡ some p
    → (get key now (put key (some p) now c h).0 ≡ some p)
      × ((put key (some p) now c h).1 p ≡ wipe (h p))
put-get_zeroes key p now c h e =
    let (filled, held) = get-some key p now c e in
    (
      get-put key key p now now c h filled ∙ rw (beq_refl key) (ground arith),
      put-heap key p now c h p filled ∙ rw held,
    )
