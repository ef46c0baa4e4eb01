-- ===== src/ObjectCache/Caching/Buckets.antt =====
-- `CachingBackend.DeleteBucket` of internal/cache/cache.go, and sequences of calls.
use s3proxy_go.Base.{ℕ, List, [], ◌∷◌, Bytes, ℤ, Dict}
use s3proxy_go.Storage.Backend.{Backend, ObjectInfo, Reader}
use s3proxy_go.ObjectCache
use s3proxy_go.ObjectCache.{CachedObject}
use s3proxy_go.ObjectCache.Queue.{TwoQueue}
use s3proxy_go.ObjectCache.Caching.{Cached, get_object, delete_bucket, caching_backend}
use s3proxy_go.ObjectCache.Coherence.{NoSlash}

-- calls of the caching backend, each at its time
pub data Call : Type 0 where
  get delete : ℕ → Bytes → Bytes → Call
  put : ℕ → Bytes → Bytes → Reader → ℤ → Dict Bytes → Call
  delete_bucket_call : ℕ → Bytes → Call

module _ {H M S : Type 0} (hot : TwoQueue H CachedObject) (meta : TwoQueue M ObjectInfo)
    (backend : Backend S) where
  call_backend : Call → Cached H M S → Cached H M S
  unfolding caching_backend
  call_backend (get now bucket key) cs =
      ((caching_backend hot meta backend now).get_object bucket key cs).1
  call_backend (delete now bucket key) cs =
      ((caching_backend hot meta backend now).delete_object bucket key cs).1
  call_backend (put now bucket key reader size metadata) cs =
      ((caching_backend hot meta backend now).put_object bucket key reader size metadata cs).1
  call_backend (delete_bucket_call now bucket) cs =
      ((caching_backend hot meta backend now).delete_bucket bucket cs).1

  unfoldable pub call_all : List Call → Cached H M S → Cached H M S
  unfolding call_backend
  call_all [] cs = cs
  call_all (k ∷ ks) cs = call_all ks (call_backend k cs)

-- the buckets of the calls have no slash in their names
abbrev pub NoSlashes : List Call → Type 0
NoSlashes [] = Unit
NoSlashes (get now bucket key ∷ ks) = NoSlash bucket × NoSlashes ks
NoSlashes (delete now bucket key ∷ ks) = NoSlash bucket × NoSlashes ks
NoSlashes (put now bucket key reader size metadata ∷ ks) = NoSlash bucket × NoSlashes ks
NoSlashes (delete_bucket_call now bucket ∷ ks) = NoSlash bucket × NoSlashes ks
