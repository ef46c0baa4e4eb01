-- ===== src/ObjectCache.antt =====
-- internal/cache/cache.go: `ObjectCache`, over the two-queue caches of the library golang-lru.
pub mod Queue
pub mod Caching
pub mod Coherence
mod Examples
use s3proxy_go.Base.{
  ℕ, zero, suc, ◌+◌, ◌-◌, ◌*◌, ◌/◌, ◌%◌, ◌^◌, ◌<◌, ◌==◌, ltb, leb, if◌then◌else◌, ◌&&◌, ◌||◌, not,
  Bool, true, false, Option, none, some, List, [], ◌∷◌, ◌++◌, Bytes, lit, has_prefix, length, take,
  drop, Dict, pos,
}
use s3proxy_go.Storage.Backend.{Object, ObjectInfo, Reader}
use Queue.{TwoQueue, remove_all}

pub record CachedObject : Type 0 where
  pub content : Bytes
  pub info : ObjectInfo
  pub expires_at : ℕ

-- sizes are int64 and times nanoseconds, and neither is negative here
pub record ObjectCache (H M : Type 0) : Type 0 where
  pub hot_cache : H
  pub meta_cache : M
  pub max_memory : ℕ
  pub max_object_size : ℕ
  pub ttl : ℕ
  pub hits : ℕ
  pub misses : ℕ

-- `fmt.Sprintf("%s/%s", bucket, key)`
unfoldable pub cache_key : Bytes → Bytes → Bytes
cache_key bucket key = bucket ++ (lit "/" ++ key)

-- the number of entries of the hot cache
unfoldable pub hot_cache_size : ℕ → ℕ → ℕ
hot_cache_size max_memory max_object_size =
    let n = max_memory / max_object_size / 2 in if ltb n 100 then 100 else n

-- an `io.NopCloser` over `bytesReader`
abbrev pub reader_of : Bytes → Reader
reader_of content = record { seekable = false; content = content; fails = false }

unfoldable pub object_of : CachedObject → Object
object_of cached = record {
  body = reader_of cached.content;
  content_type = cached.info.content_type;
  size = cached.info.size;
  etag = cached.info.etag;
  metadata = cached.info.metadata;
  last_modified = cached.info.last_modified;
}

-- `bytesReader.Read` into a slice of n bytes: the bytes, or `none` at the end, and the reader's state
unfoldable pub read_bytes : ℕ → Bytes → ℕ → Option Bytes × ℕ
read_bytes n content p =
    if leb (length content) p
    then (none, p)
    else (let out = take n (drop p content) in (some out, p + length out))

module _ {H M : Type 0} (hot : TwoQueue H CachedObject) (meta : TwoQueue M ObjectInfo) where
  -- `NewObjectCache`, which divides by the object size; `none` is the panic or the error of `New2Q`
  unfoldable pub new_object_cache : ℕ → ℕ → ℕ → Option (ObjectCache H M)
  unfolding hot_cache_size
  new_object_cache max_memory zero ttl = none
  new_object_cache max_memory (suc m) ttl =
      let n = hot_cache_size max_memory (suc m) in
      elim (hot.new n) [
        | none ↦ none
        | some h ↦ elim (meta.new (n * 10)) [
          | none ↦ none
          | some q ↦ some (record {
            hot_cache = h;
            meta_cache = q;
            max_memory = max_memory;
            max_object_size = suc m;
            ttl = ttl;
            hits = 0;
            misses = 0;
          })
        ]
      ]

  record_hit : ObjectCache H M → ObjectCache H M
  record_hit c = record c { hits = (c.hits + 1) % 2 ^ 64 }

  record_miss : ObjectCache H M → ObjectCache H M
  record_miss c = record c { misses = (c.misses + 1) % 2 ^ 64 }

  found_object : Bytes → ℕ → Option CachedObject → ObjectCache H M → Option Object × ObjectCache H M
  unfolding record_hit record_miss
  found_object k now none c = (none, record_miss c)
  found_object k now (some cached) c =
      if ltb now cached.expires_at
      then (some (object_of cached), record_hit c)
      else (none, record_miss (record c { hot_cache = hot.remove k c.hot_cache }))

  -- `ObjectCache.GetObject`
  unfoldable pub get_cached : Bytes → Bytes → ℕ → ObjectCache H M → Option Object × ObjectCache H M
  unfolding found_object
  get_cached bucket key now c =
      let (found, h) = hot.get (cache_key bucket key) c.hot_cache in
      found_object (cache_key bucket key) now found (record c { hot_cache = h })

  -- `ObjectCache.PutObject`
  unfoldable pub put_cached :
      Bytes → Bytes → Bytes → ObjectInfo → ℕ → ObjectCache H M → ObjectCache H M
  put_cached bucket key content info now c =
      if ltb c.max_object_size (length content) then c else record c {
        hot_cache =
            hot.add (cache_key bucket key)
              (record { content = content; info = info; expires_at = now + c.ttl }) c.hot_cache;
        meta_cache = meta.add (cache_key bucket key) info c.meta_cache;
      }

  found_info : Option ObjectInfo → ObjectCache H M → Option ObjectInfo × ObjectCache H M
  unfolding record_hit record_miss
  found_info none c = (none, record_miss c)
  found_info (some info) c = (some info, record_hit c)

  -- `GetMetadata`
  unfoldable pub get_metadata :
      Bytes → Bytes → ObjectCache H M → Option ObjectInfo × ObjectCache H M
  unfolding found_info
  get_metadata bucket key c =
      let (found, q) = meta.get (cache_key bucket key) c.meta_cache in
      found_info found (record c { meta_cache = q })

  -- `PutMetadata`
  unfoldable pub put_metadata : Bytes → Bytes → ObjectInfo → ObjectCache H M → ObjectCache H M
  put_metadata bucket key info c = record c {
    meta_cache = meta.add (cache_key bucket key) info c.meta_cache;
  }

  -- `Invalidate`
  unfoldable pub invalidate : Bytes → Bytes → ObjectCache H M → ObjectCache H M
  invalidate bucket key c = record c {
    hot_cache = hot.remove (cache_key bucket key) c.hot_cache;
    meta_cache = meta.remove (cache_key bucket key) c.meta_cache;
  }

  -- `InvalidateBucket`
  unfoldable pub invalidate_bucket : Bytes → ObjectCache H M → ObjectCache H M
  invalidate_bucket bucket c =
      let prefix = bucket ++ lit "/" in
      record c {
        hot_cache = remove_all hot prefix (hot.keys c.hot_cache) c.hot_cache;
        meta_cache = remove_all meta prefix (meta.keys c.meta_cache) c.meta_cache;
      }
