-- ===== src/ObjectCache/Caching/Refinement.antt =====
-- `CachingBackend.GetObject` of internal/cache/cache.go against the backend that it wraps.
use s3proxy_go.Base.{
  ℕ, ◌+◌, ltb, length, true, Option, none, some, Bytes, Result, ok, err, ◌≡◌, inl, inr, ◌∙◌, refl,
  sym, Bool-cases,
}
use s3proxy_go.Storage.Backend.{Backend, Object, ObjectInfo}
use s3proxy_go.Storage.Reads.{ReadsKeep}
use s3proxy_go.ObjectCache
use s3proxy_go.ObjectCache.{
  CachedObject, cache_key, object_of, found_object, get_cached, put_cached, record_hit, record_miss,
}
use s3proxy_go.ObjectCache.Queue.{TwoQueue}
use s3proxy_go.ObjectCache.Caching.{
  Cached, is_cacheable, read_full, info_of, get_object, keep_object, fetched, or_fetch,
}
use s3proxy_go.ObjectCache.Coherence.{
  NoSlash, canonical, in_memory, IsCoherent, IsCoherent-Shrinks, IsCoherent-remove, IsCoherent-add,
}

module _ {H M S : Type 0} (hot : TwoQueue H CachedObject) (meta : TwoQueue M ObjectInfo)
    (backend : Backend S) where
  -- the hot cache agrees with the backend
  abbrev pub Agrees : Cached H M S → Type 0
  Agrees (c, s) = IsCoherent hot backend c.max_object_size c.hot_cache s

  -- the answer is what the backend holds, and the cache still agrees with the backend, which is as it was
  abbrev pub Served : Bytes → Bytes → Cached H M S → Result Bytes Object × Cached H M S → Type 0
  Served bucket key (c, s) (result, (c', s')) =
      (result ≡ canonical c.max_object_size (backend.get_object bucket key s).0)
      × Agrees (c', s')
      × (s' ≡ s)

module _ {H M S : Type 0} (hot : TwoQueue H CachedObject) (meta : TwoQueue M ObjectInfo)
    (backend : Backend S) (now : ℕ) (bucket key : Bytes) (plain : NoSlash bucket) where
  put_cached-Agrees :
      (content : Bytes) (info : ObjectInfo) (c : ObjectCache.ObjectCache H M) (s : S)
      → canonical c.max_object_size (backend.get_object bucket key s).0
        ≡ ok (object_of (record { content = content; info = info; expires_at = now + c.ttl }))
      → Agrees hot meta backend (c, s)
      → Agrees hot meta backend (put_cached hot meta bucket key content info now c, s)
  unfolding put_cached
  put_cached-Agrees content info c s held agrees =
      elim (Bool-cases (ltb c.max_object_size (length content))) [
        | inl large ↦ rw large agrees
        | inr small ↦ rw small (
            IsCoherent-add hot backend c.max_object_size c.hot_cache s bucket key _ plain held
              agrees)
      ]

  keep_object-Served :
      (obj : Object) (content : Option Bytes) (c : ObjectCache.ObjectCache H M) (s : S)
      → ReadsKeep backend
      → (backend.get_object bucket key s).0 ≡ ok obj
      → is_cacheable c.max_object_size obj ≡ true
      → read_full obj ≡ content
      → Agrees hot meta backend (c, s)
      → Served hot meta backend bucket key
          (c, s)
          (keep_object hot meta backend now bucket key obj content (c, s))
  unfolding keep_object canonical in_memory info_of object_of
  keep_object-Served obj none c s k got cacheable content_eq agrees =
      rw (k.get_object bucket key s, got, cacheable, content_eq) (refl, agrees, refl)
  keep_object-Served obj (some content) c s k got cacheable content_eq agrees = (
    rw (got, cacheable, content_eq) refl,
    put_cached-Agrees content _ c s (rw (got, cacheable, content_eq) refl) agrees,
    refl,
  )

  fetched-Served :
      (result : Result Bytes Object) (c : ObjectCache.ObjectCache H M) (s : S)
      → ReadsKeep backend
      → (backend.get_object bucket key s).0 ≡ result
      → Agrees hot meta backend (c, s)
      → Served hot meta backend bucket key
          (c, s)
          (fetched hot meta backend now bucket key result (c, s))
  unfolding fetched canonical
  fetched-Served (err message) c s k got agrees = rw got (refl, agrees, refl)
  fetched-Served (ok obj) c s k got agrees =
      elim (Bool-cases (is_cacheable c.max_object_size obj)) [
        | inl cacheable ↦
            rw cacheable (keep_object-Served obj (read_full obj) c s k got cacheable refl agrees)
        | inr large ↦ rw (got, large) (refl, agrees, refl)
      ]

  or_fetch-Served :
      (c : ObjectCache.ObjectCache H M) (s : S)
      → ReadsKeep backend
      → Agrees hot meta backend (c, s)
      → Served hot meta backend bucket key
          (c, s)
          (or_fetch hot meta backend now bucket key none (c, s))
  unfolding or_fetch
  or_fetch-Served c s k agrees =
      rw (k.get_object bucket key s)
        (fetched-Served (backend.get_object bucket key s).0 c s k refl agrees)

  after_lookup :
      (found : Option CachedObject) (c : ObjectCache.ObjectCache H M) (s : S)
      → ReadsKeep backend
      → hot.contents c.hot_cache (cache_key bucket key) ≡ found
      → Agrees hot meta backend (c, s)
      → let looked = found_object hot meta (cache_key bucket key) now found c in
        Served hot meta backend bucket key
          (c, s)
          (or_fetch hot meta backend now bucket key looked.0 (looked.1, s))
  unfolding found_object or_fetch record_hit record_miss
  after_lookup none c s k held agrees = or_fetch-Served (record_miss hot meta c) s k agrees
  after_lookup (some cached) c s k held agrees = elim (Bool-cases (ltb now cached.expires_at)) [
    | inl live ↦ rw live (sym (agrees.at bucket key cached plain held), agrees, refl)
    | inr late ↦ rw late (
        or_fetch-Served
          (record_miss hot meta
            (record c { hot_cache = hot.remove (cache_key bucket key) c.hot_cache }))
          s k (removed cached))
  ]
    where
      removed :
          (cached : CachedObject)
          → Agrees hot meta backend
              (record c { hot_cache = hot.remove (cache_key bucket key) c.hot_cache }, s)
      removed cached =
          IsCoherent-remove hot backend c.max_object_size c.hot_cache s (cache_key bucket key)
            agrees

  -- A GET through the cache, for a bucket with no slash in its name, answers what the wrapped backend holds now (where the object is read into memory, as much of its content as its size says), at any time and whether it is served from the cache or not, if the cache agrees with the backend; then it still does, and the backend is unchanged.
  pub get_object-Served :
      (c : ObjectCache.ObjectCache H M) (s : S)
      → ReadsKeep backend
      → Agrees hot meta backend (c, s)
      → Served hot meta backend bucket key
          (c, s)
          (get_object hot meta backend now bucket key (c, s))
  unfolding get_object get_cached
  get_object-Served c s k agrees =
      after_lookup (hot.get (cache_key bucket key) c.hot_cache).0
        (record c { hot_cache = (hot.get (cache_key bucket key) c.hot_cache).1 }) s k
        (hot.contents-get _ _ c.hot_cache ∙ sym (hot.get_result _ c.hot_cache))
        (IsCoherent-Shrinks hot backend c.max_object_size c.hot_cache _ s agrees
          (record { at = λ j. inl (hot.contents-get _ j c.hot_cache) }))
