-- ===== src/Kms/DataKeyCache/Reads.antt =====
-- What `Get` returns after each method of internal/kms/cache.go.
use s3proxy_go.Base.{
  ℕ, ◌+◌, ltb, if◌then◌else◌, false, none, some, Bytes, is_empty, beq, beq_iff, lookup,
  lookup-insert, lookup-delete, ◌≡◌, arith,
}
use s3proxy_go.Kms.DataKeyCache.{DataKeyCache, Heap, get, put, delete_key, clear, close}

-- After Put of a key that is not empty, Get of that key returns the data key until its time to live has passed, and Get of any other key returns what it returned before.
pub get-put :
    (key j : Bytes) (p now later : ℕ) (c : DataKeyCache) (h : Heap)
    → is_empty key ≡ false
    → get j later (put key (some p) now c h).0
      ≡ (if beq key j then (if ltb (now + c.ttl) later then none else some p) else get j later c)
unfolding get put
get-put key j p now later c h e = rw e (simp lookup-insert (ground (arith, beq_iff key j)))

-- After Delete of a key that is not empty, Get of that key returns nil, and Get of any other key returns what it returned before.
pub get-delete_key :
    (key j : Bytes) (later : ℕ) (c : DataKeyCache) (h : Heap)
    → is_empty key ≡ false
    → get j later (delete_key key c h).0 ≡ (if beq key j then none else get j later c)
unfolding get delete_key
get-delete_key key j later c h e = rw e (simp lookup-delete (ground (arith, beq_iff key j)))

-- After Close or Clear, Get returns nil for every key.
pub get-close_or_clear :
    (j : Bytes) (later : ℕ) (c : DataKeyCache) (h : Heap)
    → c.stopped ≡ false
    → (get j later (close c h).0 ≡ none) × (get j later (clear c h).0 ≡ none)
unfolding get close clear lookup
get-close_or_clear j later c h e = (ground arith, ground arith)
