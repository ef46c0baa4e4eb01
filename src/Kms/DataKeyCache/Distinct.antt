-- ===== src/Kms/DataKeyCache/Distinct.antt =====
-- The cache of internal/kms/cache.go has one entry for each key, and `cleanup` removes nothing that
-- `Get` would still return.
use s3proxy_go.Base.{
  ℕ, ◌≤◌, ltb, if◌then◌else◌, Option, none, some, [], ◌∷◌, Bytes, beq_iff, lookup, ◌≡◌, refl, arith,
  Dict, KeysDiffer,
}
use s3proxy_go.Kms.DataKeyCache.{
  DataKeyCache, CacheEntry, Heap, get, cleanup, cleanup_loop, read_entry, clear_sensitive_data,
}

-- what `cleanup` keeps, without the heap
live_entries : ℕ → Dict (Option CacheEntry) → Dict (Option CacheEntry)
live_entries now [] = []
live_entries now ((k, none) ∷ m) = live_entries now m
live_entries now ((k, some e) ∷ m) =
    if ltb e.expires_at now then live_entries now m else (k, some e) ∷ live_entries now m

cleanup_loop-live_entries :
    (now : ℕ) (m : Dict (Option CacheEntry)) (h : Heap)
    → (cleanup_loop now m h).0 ≡ live_entries now m
unfolding cleanup_loop live_entries
cleanup_loop-live_entries now [] h = refl
cleanup_loop-live_entries now ((k, none) ∷ m) h = cleanup_loop-live_entries now m h
cleanup_loop-live_entries now ((k, some e) ∷ m) h = rw (
    cleanup_loop-live_entries now m
      (if ltb e.expires_at now then clear_sensitive_data e.data_key h else h))

module _ (now : ℕ) (j : Bytes) where
  live_entries_absent :
      (m : Dict (Option CacheEntry)) → lookup j m ≡ none → lookup j (live_entries now m) ≡ none
  unfolding lookup live_entries
  live_entries_absent [] h = refl
  live_entries_absent ((k, none) ∷ m) h = live_entries_absent m (ground arith)
  live_entries_absent ((k, some e) ∷ m) h = ground (arith, live_entries_absent m)

read_live_entries :
    (j : Bytes) (now later : ℕ) (m : Dict (Option CacheEntry))
    → now ≤ later
    → KeysDiffer m
    → read_entry later (lookup j (live_entries now m)) ≡ read_entry later (lookup j m)
unfolding lookup live_entries read_entry
read_live_entries j now later [] le h = refl
read_live_entries j now later ((k, none) ∷ m) le h =
    ground (arith, beq_iff k j, read_live_entries j now later m le h.1, live_entries_absent now j m)
read_live_entries j now later ((k, some e) ∷ m) le h =
    ground (arith, beq_iff k j, read_live_entries j now later m le h.1, live_entries_absent now j m)

-- The cleanup is invisible to readers: at any time from the cleanup on, Get returns what it would have returned without it.
pub get-cleanup :
    (j : Bytes) (now later : ℕ) (c : DataKeyCache) (h : Heap)
    → now ≤ later
    → KeysDiffer c.cache
    → get j later (cleanup now c h).0 ≡ get j later c
unfolding get cleanup
get-cleanup j now later c h le d =
    rw (cleanup_loop-live_entries now c.cache h, read_live_entries j now later c.cache le d)
