-- ===== src/Kms/Manager/Sharing.antt =====
-- Data keys that internal/kms/manager.go shares between its cache and its callers.
use s3proxy_go.Base.{
  ℕ, ◌+◌, ◌<◌, ◌≤◌, false, [], ◌∷◌, ◌++◌, Bytes, is_empty, Dict, ok, ◌∙◌, ◌≡◌, refl, arith,
}
use mathlib.Core.List.{append_assoc}
use s3proxy_go.Kms.DataKeyCache.{wipe, build_data_key_cache_key, cleanup}
use s3proxy_go.Kms.DataKeyCache.Secrets.{cleanup-heap}
use s3proxy_go.Kms.Manager.{World, Client, GeneratedKey}
use s3proxy_go.Kms.Manager.DataKeys.{generate_data_key}
use s3proxy_go.Kms.Manager.Allocation.{AllAllocated, AllAllocated-grows, insert-AllAllocated}
use s3proxy_go.Kms.Manager.Miss.{
  IsMiss, cache_of, generate_hit, missed, stored_heap, stored_cache, stored_next, stored_client,
  stored_get, stored_expired, new_key, after_miss,
}

module _ {hex_sha256 : Bytes → Bytes} {key_id : Bytes} {context : Dict Bytes} {now : ℕ} {w : World}
    {client : Client} {r : GeneratedKey} (m : IsMiss hex_sha256 key_id context now w client r) where
  -- On a miss, if the cache points to allocated data keys alone, GenerateDataKey returns a new data key with the key ID and the context that were asked for and the plaintext and the blob that the service sent, and the cache still points to allocated data keys alone.
  generate_data_key_new :
      AllAllocated w.next (cache_of w).cache
      → ((generate_data_key hex_sha256 key_id context now w).0 ≡ ok w.next)
        × ((generate_data_key hex_sha256 key_id context now w).1.heap w.next ≡ record {
          key_id = key_id;
          plaintext_key = r.plaintext;
          ciphertext_blob = r.ciphertext_blob;
          encryption_context = context;
          created_at = now;
        })
        × AllAllocated
            (generate_data_key hex_sha256 key_id context now w).1.next
            (cache_of (generate_data_key hex_sha256 key_id context now w).1).cache
  unfolding new_key
  generate_data_key_new a = rw (missed m) (
    refl,
    stored_heap m a,
    rw (stored_next m, stored_cache m)
        (insert-AllAllocated (w.next + 1) _ _ (cache_of w).cache (omega arith)
          (AllAllocated-grows w.next (cache_of w).cache a)),
  )

  -- After a miss that stored a new data key, any request with the same cache key gets that same data key, with no call of the service and nothing changed, until its time to live has passed.
  pub generate_data_key-generate_data_key :
      (key_id' : Bytes) (context' : Dict Bytes) (later : ℕ)
      → is_empty key_id' ≡ false
      → build_data_key_cache_key hex_sha256 key_id' context'
        ≡ build_data_key_cache_key hex_sha256 key_id context
      → later ≤ now + (cache_of w).ttl
      → generate_data_key hex_sha256 key_id' context' later
          (generate_data_key hex_sha256 key_id context now w).1
        ≡ (ok w.next, (generate_data_key hex_sha256 key_id context now w).1)
  generate_data_key-generate_data_key key_id' context' later filled' same fresh = rw (missed m) (
      generate_hit hex_sha256 key_id' context' later (after_miss hex_sha256 key_id context now w r)
        client w.next (stored_client m) filled' (rw same (stored_get m later fresh)))

  -- The plaintext of the data key that a caller got from a miss is zeroed by the first cleanup after the entry's time to live, although the caller still holds it.
  pub cleanup_zeroes_returned_key :
      (later : ℕ)
      → now + (cache_of w).ttl < later
      → ((generate_data_key hex_sha256 key_id context now w).0 ≡ ok w.next)
        × ((cleanup later
                (cache_of (generate_data_key hex_sha256 key_id context now w).1)
                (generate_data_key hex_sha256 key_id context now w).1.heap).1
              w.next
            ≡ wipe ((generate_data_key hex_sha256 key_id context now w).1.heap w.next))
  cleanup_zeroes_returned_key later late =
      rw (missed m) (refl, cleanup-heap later _ _ w.next ∙ rw (stored_expired m later late))

is_empty-append : (a b : Bytes) → is_empty a ≡ false → is_empty (a ++ b) ≡ false
unfolding is_empty
is_empty-append [] b e = cc
is_empty-append (x ∷ a) b e = refl

-- Two requests whose key ID and context spell the same bytes one after the other share a cache key, whatever the hash: moving the front of the first context key to the end of the key ID changes nothing.
pub build_data_key_cache_key_shift :
    (hex_sha256 : Bytes → Bytes) (key_id x y v : Bytes) (context : Dict Bytes)
    → is_empty key_id ≡ false
    → build_data_key_cache_key hex_sha256 (key_id ++ x) ((y, v) ∷ context)
      ≡ build_data_key_cache_key hex_sha256 key_id ((x ++ y, v) ∷ context)
unfolding build_data_key_cache_key
build_data_key_cache_key_shift hex_sha256 key_id x y v context e =
    rw (is_empty-append key_id x e, e, append_assoc, append_assoc)
