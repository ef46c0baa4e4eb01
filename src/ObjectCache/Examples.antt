-- ===== src/ObjectCache/Examples.antt =====
-- Concrete caches and calls for the theorems about internal/cache/cache.go.
use s3proxy_go.Base.{
  if◌then◌else◌, true, false, none, some, List, [], ◌∷◌, Bytes, lit, beq, beq_refl, Dict, lookup,
  insert, delete, lookup-insert, lookup-delete, pos, ok, ◌≡◌, inl, refl, arith,
}
use s3proxy_go.Storage.Backend.{ObjectInfo, Reader}
use s3proxy_go.Storage.Memory.{Objects, memory, object}
use s3proxy_go.ObjectCache.{CachedObject, ObjectCache, cache_key, object_of}
use s3proxy_go.ObjectCache.Queue.{TwoQueue, has_key}
use s3proxy_go.ObjectCache.Caching.{get_object, caching_backend}
use s3proxy_go.ObjectCache.Caching.Refinement.{Agrees}
use s3proxy_go.ObjectCache.Caching.Buckets.{Call, get, put, delete_bucket_call}
use s3proxy_go.ObjectCache.Caching.Staleness.{get_object-complete_multipart_upload}

abbrev keys_of : {V : Type 0} → Dict V → List Bytes
keys_of [] = []
keys_of ((k, v) ∷ m) = k ∷ keys_of m

lookup-keys_of :
    {V : Type 0} → (m : Dict V) (j : Bytes) → has_key j (keys_of m) ≡ false → lookup j m ≡ none
unfolding lookup
lookup-keys_of [] j h = refl
lookup-keys_of ((k, v) ∷ m) j h = ground (arith, lookup-keys_of m j)

-- a two-queue cache that evicts nothing
unfoldable queue : {V : Type 0} → TwoQueue (Dict V) V
unfolding lookup insert
queue = record {
  new = λ n. some [];
  get = λ k q. (lookup k q, q);
  add = insert;
  remove = delete;
  keys = keys_of;
  contents = λ q k. lookup k q;
  get_result = λ k q. refl;
  contents-get = λ k j q. refl;
  contents-add_self = λ k v q. rw (lookup-insert k k v q, beq_refl k) refl;
  contents-add_ne = λ k j v q h. inl (rw (lookup-insert k j v q, h) refl);
  contents-remove = λ k j q. lookup-delete k j q;
  contents-keys = lookup-keys_of;
}

abbrev Empty : Type 0
Empty = ObjectCache (Dict CachedObject) (Dict ObjectInfo)

abbrev fresh : Empty
fresh = record {
  hot_cache = [];
  meta_cache = [];
  max_memory = 4096;
  max_object_size = 8;
  ttl = 10;
  hits = 0;
  misses = 0;
}

abbrev b : Bytes
b = lit "b"

abbrev k : Bytes
k = lit "k"

abbrev nothing : Objects
nothing bucket key = none

abbrev hello : Reader
hello = record { seekable = true; content = lit "hello"; fails = false }

abbrev holding : Objects
holding bucket key = if beq b bucket then some (object (lit "hello")) else none

fresh-Agrees : (s : Objects) → Agrees queue queue memory (fresh, s)
unfolding lookup queue
fresh-Agrees s = record { at = λ bucket key e n held. absurd (ground arith) }

abbrev calls : List Call
calls =
    put 1 b k hello (pos 5) []
    ∷ get 2 b k
    ∷ put 3 b k hello (pos 5) []
    ∷ get 4 b k
    ∷ delete_bucket_call 5 (lit "a")
    ∷ []

abbrev old : CachedObject
old = record {
  content = lit "old";
  info = record {
    key = k;
    size = pos 3;
    etag = lit "e";
    last_modified = 0;
    storage_class = [];
    content_type = lit "text/plain";
    metadata = [];
  };
  expires_at = 20;
}

abbrev warm : Empty
warm = record fresh { hot_cache = (lit "b/k", old) ∷ [] }

get_object-complete_multipart_upload_example :
    (get_object queue queue memory 9 b k
      ((caching_backend queue queue memory 5).complete_multipart_upload b k
        (lit "u")
        []
        (warm, holding)).1).0
    ≡ ok (object_of old)
unfolding lookup cache_key queue
get_object-complete_multipart_upload_example =
    get_object-complete_multipart_upload queue queue memory b k 5 9 (lit "u") [] warm holding old
      refl (omega arith)
