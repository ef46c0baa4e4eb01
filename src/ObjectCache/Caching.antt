-- ===== src/ObjectCache/Caching.antt =====
-- internal/cache/cache.go: `CachingBackend`. It embeds the backend, so that a method which it does not
-- declare itself is the backend's.
pub mod Refinement
pub mod Invalidation
pub mod Buckets
pub mod Staleness
use s3proxy_go.Base.{
  ℕ, ◌+◌, ltb, leb, if◌then◌else◌, ◌&&◌, ◌||◌, not, Bool, true, false, Option, none, some, List, [],
  ◌∷◌, ◌++◌, Bytes, lit, length, take, drop, Dict, ℤ, pos, ltb_ℤ, leb_ℤ, pos_part, Result, ok, err,
}
use s3proxy_go.Storage.Backend.{
  Backend, Object, ObjectInfo, Reader, Action, BucketInfo, ListObjectsResult, CompletedPart,
}
use s3proxy_go.ObjectCache.Queue.{TwoQueue}
use s3proxy_go.ObjectCache
use s3proxy_go.ObjectCache.{
  CachedObject, get_cached, put_cached, get_metadata, put_metadata, invalidate, invalidate_bucket,
  reader_of,
}

abbrev pub Cached : Type 0 → Type 0 → Type 0 → Type 0
Cached H M S = ObjectCache.ObjectCache H M × S

-- an object that `GetObject` reads into memory: it is not empty and fits the limit
unfoldable pub is_cacheable : ℕ → Object → Bool
is_cacheable limit obj = ltb_ℤ (pos 0) obj.size && leb_ℤ obj.size (pos limit)

-- `io.ReadFull` of as many bytes as the object's size says
unfoldable pub read_full : Object → Option Bytes
read_full obj =
    if leb (pos_part obj.size) (length obj.body.content)
    then some (take (pos_part obj.size) obj.body.content)
    else none

unfoldable pub info_of : Bytes → Object → ObjectInfo
info_of key obj = record {
  key = key;
  size = obj.size;
  etag = obj.etag;
  last_modified = obj.last_modified;
  storage_class = [];
  content_type = obj.content_type;
  metadata = obj.metadata;
}

module _ {H M S : Type 0} (hot : TwoQueue H CachedObject) (meta : TwoQueue M ObjectInfo)
    (backend : Backend S) (now : ℕ) where
  -- the objects that fail to be read are fetched once more
  keep_object :
      Bytes → Bytes → Object → Option Bytes → Cached H M S → Result Bytes Object × Cached H M S
  unfolding info_of
  keep_object bucket key obj none (c, s) =
      let (result, s') = backend.get_object bucket key s in (result, (c, s'))
  keep_object bucket key obj (some content) (c, s) = (
    ok (record obj { body = reader_of content }),
    (put_cached hot meta bucket key content (info_of key obj) now c, s),
  )

  fetched : Bytes → Bytes → Result Bytes Object → Cached H M S → Result Bytes Object × Cached H M S
  unfolding keep_object
  fetched bucket key (err message) cs = (err message, cs)
  fetched bucket key (ok obj) (c, s) =
      if is_cacheable c.max_object_size obj
      then keep_object bucket key obj (read_full obj) (c, s)
      else (ok obj, (c, s))

  or_fetch : Bytes → Bytes → Option Object → Cached H M S → Result Bytes Object × Cached H M S
  unfolding fetched
  or_fetch bucket key (some obj) cs = (ok obj, cs)
  or_fetch bucket key none (c, s) =
      let (result, s') = backend.get_object bucket key s in fetched bucket key result (c, s')

  -- `CachingBackend.GetObject`
  unfoldable pub get_object : Bytes → Bytes → Action (Cached H M S) Object
  unfolding or_fetch
  get_object bucket key (c, s) =
      let (found, c') = get_cached hot meta bucket key now c in or_fetch bucket key found (c', s)

  keep_info :
      Bytes
      → Bytes
      → Result Bytes ObjectInfo
      → Cached H M S
      → Result Bytes ObjectInfo × Cached H M S
  keep_info bucket key (err message) cs = (err message, cs)
  keep_info bucket key (ok info) (c, s) = (ok info, (put_metadata hot meta bucket key info c, s))

  or_head :
      Bytes → Bytes → Option ObjectInfo → Cached H M S → Result Bytes ObjectInfo × Cached H M S
  unfolding keep_info
  or_head bucket key (some info) cs = (ok info, cs)
  or_head bucket key none (c, s) =
      let (result, s') = backend.head_object bucket key s in keep_info bucket key result (c, s')

  -- `CachingBackend.HeadObject`
  unfoldable pub head_object : Bytes → Bytes → Action (Cached H M S) ObjectInfo
  unfolding or_head
  head_object bucket key (c, s) =
      let (found, c') = get_metadata hot meta bucket key c in or_head bucket key found (c', s)

  -- the cache after an operation: `drop` where it succeeded
  dropped :
      (ObjectCache.ObjectCache H M → ObjectCache.ObjectCache H M)
      → Result Bytes (Unit {0}) × S
      → ObjectCache.ObjectCache H M
      → Result Bytes (Unit {0}) × Cached H M S
  dropped drop_entries (err message, s) c = (err message, (c, s))
  dropped drop_entries (ok _, s) c = (ok tt, (drop_entries c, s))

  -- `CachingBackend.PutObject`
  unfoldable pub put_object :
      Bytes → Bytes → Reader → ℤ → Dict Bytes → Action (Cached H M S) (Unit {0})
  unfolding dropped
  put_object bucket key reader size metadata (c, s) =
      dropped (invalidate hot meta bucket key)
        (backend.put_object bucket key reader size metadata s) c

  -- `CachingBackend.DeleteObject`
  unfoldable pub delete_object : Bytes → Bytes → Action (Cached H M S) (Unit {0})
  unfolding dropped
  delete_object bucket key (c, s) =
      dropped (invalidate hot meta bucket key) (backend.delete_object bucket key s) c

  -- `CachingBackend.DeleteBucket`
  unfoldable pub delete_bucket : Bytes → Action (Cached H M S) (Unit {0})
  unfolding dropped
  delete_bucket bucket (c, s) =
      dropped (invalidate_bucket hot meta bucket) (backend.delete_bucket bucket s) c

  -- a method of the embedded backend
  embedded : {A : Type 0} → Action S A → Action (Cached H M S) A
  embedded f (c, s) = let (result, s') = f s in (result, (c, s'))

  -- `CachingBackend` as a backend
  unfoldable pub caching_backend : Backend (Cached H M S)
  unfolding embedded
  caching_backend = record {
    list_buckets = embedded backend.list_buckets;
    create_bucket = λ bucket. embedded (backend.create_bucket bucket);
    delete_bucket = delete_bucket;
    bucket_exists = λ bucket. embedded (backend.bucket_exists bucket);
    list_objects = λ bucket prefix marker n. embedded (backend.list_objects bucket prefix marker n);
    list_objects_with_delimiter = λ bucket prefix marker delimiter n.
        embedded (backend.list_objects_with_delimiter bucket prefix marker delimiter n);
    get_object = get_object;
    put_object = put_object;
    delete_object = delete_object;
    head_object = head_object;
    get_object_acl = λ bucket key. embedded (backend.get_object_acl bucket key);
    put_object_acl = λ bucket key acl. embedded (backend.put_object_acl bucket key acl);
    initiate_multipart_upload =
        λ bucket key metadata. embedded (backend.initiate_multipart_upload bucket key metadata);
    upload_part =
        λ bucket key id n reader size. embedded (backend.upload_part bucket key id n reader size);
    complete_multipart_upload =
        λ bucket key id parts. embedded (backend.complete_multipart_upload bucket key id parts);
    abort_multipart_upload =
        λ bucket key id. embedded (backend.abort_multipart_upload bucket key id);
    list_parts = λ bucket key id n marker. embedded (backend.list_parts bucket key id n marker);
  }
