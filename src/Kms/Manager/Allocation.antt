-- ===== src/Kms/Manager/Allocation.antt =====
-- Which data keys the cache of internal/kms/manager.go points to, and its entries after `Put`.
use s3proxy_go.Base.{
  ℕ, ◌+◌, ltb, ◌<◌, true, false, Option, none, some, [], ◌∷◌, Bytes, is_empty, beq, Dict, lookup,
  insert, ◌≡◌, refl, Bool-cases, inl, inr, arith,
}
use s3proxy_go.Kms.DataKeyCache.{DataKey, Heap, DataKeyCache, CacheEntry, write, put}
use s3proxy_go.Kms.DataKeyCache.Secrets.{points_to, is_at, holds_expired}

abbrev pub IsBelow : ℕ → Option ℕ → Type 0
IsBelow n none = Unit
IsBelow n (some p) = p < n

-- every data key that the cache points to lies below the first free address
abbrev pub AllAllocated : ℕ → Dict (Option CacheEntry) → Type 0
AllAllocated n [] = Unit
AllAllocated n ((k, none) ∷ m) = AllAllocated n m
AllAllocated n ((k, some e) ∷ m) = IsBelow n e.data_key × AllAllocated n m

IsBelow-grows : (n : ℕ) (o : Option ℕ) → IsBelow n o → IsBelow (n + 1) o
IsBelow-grows n none b = tt
IsBelow-grows n (some p) b = omega arith

not_below : (n : ℕ) (o : Option ℕ) → IsBelow n o → is_at n o ≡ false
not_below n none b = refl
not_below n (some p) b = ground arith

pub AllAllocated-grows :
    (n : ℕ) (m : Dict (Option CacheEntry)) → AllAllocated n m → AllAllocated (n + 1) m
AllAllocated-grows n [] a = tt
AllAllocated-grows n ((k, none) ∷ m) a = AllAllocated-grows n m a
AllAllocated-grows n ((k, some e) ∷ m) a =
    (IsBelow-grows n e.data_key a.0, AllAllocated-grows n m a.1)

pub insert-AllAllocated :
    (n : ℕ) (k : Bytes) (e : CacheEntry) (m : Dict (Option CacheEntry))
    → IsBelow n e.data_key
    → AllAllocated n m
    → AllAllocated n (insert k (some e) m)
unfolding insert
insert-AllAllocated n k e [] b a = (b, tt)
insert-AllAllocated n k e ((j, none) ∷ m) b a = elim (Bool-cases (beq j k)) [
  | inl q ↦ rw q (b, a)
  | inr q ↦ rw q (insert-AllAllocated n k e m b a)
]
insert-AllAllocated n k e ((j, some f) ∷ m) b a = elim (Bool-cases (beq j k)) [
  | inl q ↦ rw q (b, a.1)
  | inr q ↦ rw q (a.0, insert-AllAllocated n k e m b a.1)
]

pub not_held :
    (n : ℕ) (k : Bytes) (m : Dict (Option CacheEntry))
    → AllAllocated n m
    → points_to n (lookup k m) ≡ false
unfolding lookup
not_held n k [] a = refl
not_held n k ((j, none) ∷ m) a = elim (Bool-cases (beq j k)) [
  | inl q ↦ rw q
  | inr q ↦ rw q (not_held n k m a)
]
not_held n k ((j, some e) ∷ m) a = elim (Bool-cases (beq j k)) [
  | inl q ↦ rw q (not_below n e.data_key a.0)
  | inr q ↦ rw q (not_held n k m a.1)
]

pub put_cache :
    (key : Bytes) (p now : ℕ) (c : DataKeyCache) (h : Heap)
    → is_empty key ≡ false
    → (put key (some p) now c h).0 ≡ record c {
      cache = insert key (some (record { data_key = some p; expires_at = now + c.ttl })) c.cache;
    }
unfolding put
put_cache key p now c h e = rw e

-- an entry that is stored counts among the expired ones once its time has come
pub insert-holds_expired :
    (k : Bytes) (e : CacheEntry) (p later : ℕ) (m : Dict (Option CacheEntry))
    → is_at p e.data_key ≡ true
    → ltb e.expires_at later ≡ true
    → holds_expired p later (insert k (some e) m) ≡ true
unfolding insert
insert-holds_expired k e p later [] at late = ground arith
insert-holds_expired k e p later ((j, none) ∷ m) at late = elim (Bool-cases (beq j k)) [
  | inl q ↦ rw q (ground arith)
  | inr q ↦ rw q (insert-holds_expired k e p later m at late)
]
insert-holds_expired k e p later ((j, some f) ∷ m) at late = elim (Bool-cases (beq j k)) [
  | inl q ↦ rw q (ground arith)
  | inr q ↦ rw q (ground (arith, insert-holds_expired k e p later m))
]

pub write_self : (h : Heap) (p : ℕ) (d : DataKey) → write h p d p ≡ d
write_self h p d = ground arith
