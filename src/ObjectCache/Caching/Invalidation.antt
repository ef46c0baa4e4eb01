-- ===== src/ObjectCache/Caching/Invalidation.antt =====
-- The writing methods of `CachingBackend`, internal/cache/cache.go, keep its cache right.
use s3proxy_go.Base.{
  ℕ, ltb, leb, length, ◌++◌, lit, has_prefix, ◌&&◌, beq, beq_refl, beq→eq, if◌then◌else◌, Bool,
  true, false, none, some, List, [], ◌∷◌, Bytes, ℤ, Dict, Result, ok, err, ◌≡◌, inl, inr, refl,
  arith, Bool-cases,
}
use s3proxy_go.Storage.Backend.{Backend, ObjectInfo, Reader}
use s3proxy_go.Storage.Isolation.{Isolates}
use s3proxy_go.ObjectCache
use s3proxy_go.ObjectCache.{CachedObject, cache_key, object_of, invalidate, invalidate_bucket}
use s3proxy_go.ObjectCache.Queue.{TwoQueue, has_key, remove_all}
use s3proxy_go.ObjectCache.Caching.{put_object, delete_object, dropped}
use s3proxy_go.ObjectCache.Caching.Refinement.{Agrees}
use s3proxy_go.ObjectCache.Coherence.{NoSlash, IsCoherent-remove, IsCoherent-unchanged}

module _ {H M S : Type 0} (hot : TwoQueue H CachedObject) (meta : TwoQueue M ObjectInfo)
    (backend : Backend S) (now : ℕ) (bucket key : Bytes) where
  -- the entry that is removed is the only one whose object changes
  invalidate-Agrees :
      (c : ObjectCache.ObjectCache H M) (s s' : S)
      → ((b k : Bytes)
          → (beq bucket b && beq key k) ≡ false
          → (backend.get_object b k s').0 ≡ (backend.get_object b k s).0)
      → Agrees hot meta backend (c, s)
      → Agrees hot meta backend (invalidate hot meta bucket key c, s')
  unfolding invalidate
  invalidate-Agrees c s s' other agrees =
      IsCoherent-unchanged hot backend c.max_object_size
        (hot.remove (cache_key bucket key) c.hot_cache) s s'
        (λ b k e held. other b k (differs b k e held))
        (IsCoherent-remove hot backend c.max_object_size c.hot_cache s (cache_key bucket key)
          agrees)
    where
      differs :
          (b k : Bytes) (e : CachedObject)
          → hot.contents (hot.remove (cache_key bucket key) c.hot_cache) (cache_key b k) ≡ some e
          → (beq bucket b && beq key k) ≡ false
      differs b k e held = elim (Bool-cases (beq bucket b && beq key k)) [
        | inr other_pair ↦ other_pair
        | inl same_pair ↦
            let same_bucket : bucket ≡ b = beq→eq bucket b (ground (arith, same_pair)) in
            let same_key : key ≡ k = beq→eq key k (ground (arith, same_pair)) in
            let same : beq (cache_key bucket key) (cache_key b k) ≡ true =
              rw (same_bucket, same_key) (beq_refl (cache_key b k)) in
            absurd (
              ground (
                arith,
                held,
                same,
                hot.contents-remove (cache_key bucket key) (cache_key b k) c.hot_cache,
              ))
      ]

  dropped-Agrees :
      (out : Result Bytes (Unit {0}) × S) (c : ObjectCache.ObjectCache H M) (s : S)
      → ((b k : Bytes)
          → (beq bucket b && beq key k) ≡ false
          → (backend.get_object b k out.1).0 ≡ (backend.get_object b k s).0)
      → ((message b k : Bytes)
          → out.0 ≡ err message
          → (backend.get_object b k out.1).0 ≡ (backend.get_object b k s).0)
      → Agrees hot meta backend (c, s)
      → Agrees hot meta backend
          (dropped hot meta backend now (invalidate hot meta bucket key) out c).1
  unfolding dropped
  dropped-Agrees (err message, s') c s other failed agrees =
      IsCoherent-unchanged hot backend c.max_object_size c.hot_cache s s'
        (λ b k e held. failed message b k refl) agrees
  dropped-Agrees (ok u, s') c s other failed agrees = invalidate-Agrees c s s' other agrees

  -- A PUT through the cache, whether it succeeds or fails, keeps the cache in agreement with a backend whose writes change only the object that they name and, where they fail, none.
  pub put_object-Agrees :
      (reader : Reader) (size : ℤ) (metadata : Dict Bytes) (c : ObjectCache.ObjectCache H M) (s : S)
      → Isolates backend
      → Agrees hot meta backend (c, s)
      → Agrees hot meta backend
          (put_object hot meta backend now bucket key reader size metadata (c, s)).1
  unfolding put_object
  put_object-Agrees reader size metadata c s i agrees =
      dropped-Agrees (backend.put_object bucket key reader size metadata s) c s
        (λ b k other. i.put_other bucket key b k reader size metadata s other)
        (λ message b k failed. i.put_failed bucket key b k reader size metadata s message failed)
        agrees

  -- So does a DELETE of an object.
  pub delete_object-Agrees :
      (c : ObjectCache.ObjectCache H M) (s : S)
      → Isolates backend
      → Agrees hot meta backend (c, s)
      → Agrees hot meta backend (delete_object hot meta backend now bucket key (c, s)).1
  unfolding delete_object
  delete_object-Agrees c s i agrees =
      dropped-Agrees (backend.delete_object bucket key s) c s
        (λ b k other. i.delete_other bucket key b k s other)
        (λ message b k failed. i.delete_failed bucket key b k s message failed) agrees

abbrev pub is_dropped : Bytes → Bytes → Bool
is_dropped prefix j = ltb (length prefix) (length j) && has_prefix j prefix

module _ {Q V : Type 0} (t : TwoQueue Q V) (prefix : Bytes) where
  contents-remove_all :
      (ks : List Bytes) (q : Q) (j : Bytes)
      → t.contents (remove_all t prefix ks q) j
        ≡ (if has_key j ks && is_dropped prefix j then none else t.contents q j)
  unfolding remove_all
  contents-remove_all [] q j = refl
  contents-remove_all (k ∷ ks) q j = elim (Bool-cases (is_dropped prefix k)) [
    | inl e ↦
        rw (e, contents-remove_all ks (t.remove k q) j, t.contents-remove k j q) (dropped_now e)
    | inr e ↦ rw (e, contents-remove_all ks q j) (kept e)
  ]
    where
      dropped_now :
          is_dropped prefix k ≡ true
          → (if has_key j ks && is_dropped prefix j
              then none
              else if beq k j
              then none
              else t.contents q j)
            ≡ (if has_key j (k ∷ ks) && is_dropped prefix j then none else t.contents q j)
      dropped_now e = elim (Bool-cases (beq k j)) [
        | inl same ↦ rw (← beq→eq k j same, e, beq_refl k) (ground arith)
        | inr other ↦ rw other refl
      ]

      kept :
          is_dropped prefix k ≡ false
          → (if has_key j ks && is_dropped prefix j then none else t.contents q j)
            ≡ (if has_key j (k ∷ ks) && is_dropped prefix j then none else t.contents q j)
      kept e = elim (Bool-cases (beq k j)) [
        | inl same ↦ rw (← beq→eq k j same, e) (ground arith)
        | inr other ↦ rw other refl
      ]

  pub contents-remove_all_keys :
      (q : Q) (j : Bytes)
      → t.contents (remove_all t prefix (t.keys q) q) j
        ≡ (if is_dropped prefix j then none else t.contents q j)
  contents-remove_all_keys q j = elim (Bool-cases (has_key j (t.keys q))) [
    | inl held ↦ rw (contents-remove_all (t.keys q) q j, held) refl
    | inr gone ↦
        rw (contents-remove_all (t.keys q) q j, gone, t.contents-keys q j gone) (ground arith)
  ]

-- what `InvalidateBucket` drops: the objects of the bucket but for one with the empty key
pub is_dropped-cache_key :
    (bucket b k : Bytes)
    → NoSlash bucket
    → NoSlash b
    → is_dropped (bucket ++ lit "/") (cache_key b k) ≡ (beq bucket b && leb 1 (length k))
unfolding cache_key has_prefix beq
is_dropped-cache_key [] [] k n n' = ground arith
is_dropped-cache_key [] (d ∷ b) k n n' = ground arith
is_dropped-cache_key (c ∷ bucket) [] k n n' = ground arith
is_dropped-cache_key (c ∷ bucket) (d ∷ b) k n n' =
    ground (arith, is_dropped-cache_key bucket b k n.1 n'.1)
