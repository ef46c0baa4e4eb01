-- ===== src/ObjectCache/Caching/Staleness.antt =====
-- Answers of `CachingBackend`, internal/cache/cache.go, that do not follow the backend.
use s3proxy_go.Base.{
  ℕ, ◌+◌, ◌<◌, ◌≤◌, ltb, length, false, none, some, List, Bytes, ok, ◌≡◌, refl, arith, lt→ltb,
}
use s3proxy_go.Storage.Backend.{Backend, ObjectInfo, CompletedPart}
use s3proxy_go.ObjectCache
use s3proxy_go.ObjectCache.{
  CachedObject, cache_key, object_of, get_cached, put_cached, get_metadata, found_object,
  found_info, record_hit, record_miss,
}
use s3proxy_go.ObjectCache.Queue.{TwoQueue}
use s3proxy_go.ObjectCache.Caching.{
  get_object, head_object, or_fetch, or_head, embedded, caching_backend,
}

module _ {H M S : Type 0} (hot : TwoQueue H CachedObject) (meta : TwoQueue M ObjectInfo)
    (backend : Backend S) (bucket key : Bytes) where
  get_object-held :
      (now : ℕ) (c : ObjectCache.ObjectCache H M) (s : S) (e : CachedObject)
      → hot.contents c.hot_cache (cache_key bucket key) ≡ some e
      → now < e.expires_at
      → (get_object hot meta backend now bucket key (c, s)).0 ≡ ok (object_of e)
  unfolding get_object get_cached found_object or_fetch
  get_object-held now c s e held live =
      rw (hot.get_result (cache_key bucket key) c.hot_cache, held, lt→ltb now e.expires_at live)
        refl

  -- After CompleteMultipartUpload through the cache, a GET of the object still answers with the entry that the cache holds of it, until that expires, whatever the backend holds now.
  pub get_object-complete_multipart_upload :
      (now later : ℕ) (id : Bytes) (parts : List CompletedPart) (c : ObjectCache.ObjectCache H M)
      (s : S) (e : CachedObject)
      → hot.contents c.hot_cache (cache_key bucket key) ≡ some e
      → later < e.expires_at
      → (get_object hot meta backend later bucket key
          ((caching_backend hot meta backend now).complete_multipart_upload bucket key id parts
            (c, s)).1).0
        ≡ ok (object_of e)
  unfolding caching_backend embedded
  get_object-complete_multipart_upload now later id parts c s e held live =
      get_object-held later c _ e held live

  -- From the time on at which an entry of the cache expires, it gives the object no more, but HeadObject answers with the entry's metadata at any time.
  head_object-put_cached :
      (content : Bytes) (info : ObjectInfo) (now later : ℕ) (c : ObjectCache.ObjectCache H M)
      (s : S)
      → length content ≤ c.max_object_size
      → now + c.ttl ≤ later
      → let c' = put_cached hot meta bucket key content info now c in
        ((get_cached hot meta bucket key later c').0 ≡ none)
        × ((head_object hot meta backend later bucket key (c', s)).0 ≡ ok info)
  unfolding put_cached get_cached head_object get_metadata found_object found_info or_head
      record_miss record_hit
  head_object-put_cached content info now later c s small late =
      let fits : ltb c.max_object_size (length content) ≡ false = ground arith in
      let expired : ltb later (now + c.ttl) ≡ false = ground arith in
      rw
        (
          fits,
          hot.get_result (cache_key bucket key) (
              hot.add (cache_key bucket key)
                (record { content = content; info = info; expires_at = now + c.ttl }) c.hot_cache),
          hot.contents-add_self (cache_key bucket key)
              (record { content = content; info = info; expires_at = now + c.ttl }) c.hot_cache,
          meta.get_result (cache_key bucket key)
              (meta.add (cache_key bucket key) info c.meta_cache),
          meta.contents-add_self (cache_key bucket key) info c.meta_cache,
          expired,
        )
        (refl, refl)
