-- ===== src/Kms/Manager/Miss.antt =====
-- `GenerateDataKey` of internal/kms/manager.go on a hit and on a miss of the cache.
use s3proxy_go.Base.{
  ℕ, ◌+◌, ◌<◌, ◌≤◌, true, false, none, some, Bytes, is_empty, Dict, insert, ok, ◌∙◌, ◌≡◌, refl,
  beq_refl, arith, lt→ltb,
}
use s3proxy_go.Kms.DataKeyCache.{DataKey, DataKeyCache, write, build_data_key_cache_key, get, put}
use s3proxy_go.Kms.DataKeyCache.Reads.{get-put}
use s3proxy_go.Kms.DataKeyCache.Secrets.{put-heap, holds_expired}
use s3proxy_go.Kms.Manager.{World, Client, GeneratedKey, enabled_client}
use s3proxy_go.Kms.Manager.DataKeys.{generate_data_key}
use s3proxy_go.Kms.Manager.Allocation.{
  AllAllocated, not_held, put_cache, insert-holds_expired, write_self,
}

abbrev pub cache_of : World → DataKeyCache
cache_of w = w.manager.data_key_cache

module _ (hex_sha256 : Bytes → Bytes) where
  pub generate_hit :
      (key_id : Bytes) (context : Dict Bytes) (now : ℕ) (w : World) (client : Client) (p : ℕ)
      → enabled_client w.manager ≡ ok client
      → is_empty key_id ≡ false
      → get (build_data_key_cache_key hex_sha256 key_id context) now (cache_of w) ≡ some p
      → generate_data_key hex_sha256 key_id context now w ≡ (ok p, w)
  unfolding generate_data_key
  generate_hit key_id context now w client p c filled hit = ground arith

  -- what a miss stores: the new data key, and the cache and the heap after `Put`
  unfoldable pub new_key : Bytes → Dict Bytes → ℕ → GeneratedKey → DataKey
  new_key key_id context now r = record {
    key_id = key_id;
    plaintext_key = r.plaintext;
    ciphertext_blob = r.ciphertext_blob;
    encryption_context = context;
    created_at = now;
  }

  unfoldable pub after_miss : Bytes → Dict Bytes → ℕ → World → GeneratedKey → World
  unfolding new_key
  after_miss key_id context now w r =
      let (cache, heap) =
        put (build_data_key_cache_key hex_sha256 key_id context) (some w.next) now (cache_of w)
          (write w.heap w.next (new_key key_id context now r)) in
      record {
        manager = record w.manager { data_key_cache = cache };
        heap = heap;
        next = w.next + 1;
      }

  pub generate_miss :
      (key_id : Bytes) (context : Dict Bytes) (now : ℕ) (w : World) (client : Client)
      (r : GeneratedKey)
      → enabled_client w.manager ≡ ok client
      → is_empty key_id ≡ false
      → get (build_data_key_cache_key hex_sha256 key_id context) now (cache_of w) ≡ none
      → client.generate_data_key now key_id context ≡ ok (some r)
      → is_empty r.plaintext ≡ false
      → is_empty r.ciphertext_blob ≡ false
      → generate_data_key hex_sha256 key_id context now w
        ≡ (ok w.next, after_miss key_id context now w r)
  unfolding generate_data_key after_miss
  generate_miss key_id context now w client r c filled miss answer p b = ground arith

-- A request that the cache does not answer and the service does: the manager is enabled, the key ID
-- is not empty, the hash is never empty, and the service sends a data key.
pub record IsMiss (hex_sha256 : Bytes → Bytes) (key_id : Bytes) (context : Dict Bytes) (now : ℕ)
    (w : World) (client : Client) (r : GeneratedKey) : Type 0 where
  pub hash_filled : (s : Bytes) → is_empty (hex_sha256 s) ≡ false
  pub on : enabled_client w.manager ≡ ok client
  pub filled : is_empty key_id ≡ false
  pub miss : get (build_data_key_cache_key hex_sha256 key_id context) now (cache_of w) ≡ none
  pub answer : client.generate_data_key now key_id context ≡ ok (some r)
  pub plaintext_filled : is_empty r.plaintext ≡ false
  pub blob_filled : is_empty r.ciphertext_blob ≡ false

module _ {hex_sha256 : Bytes → Bytes} {key_id : Bytes} {context : Dict Bytes} {now : ℕ} {w : World}
    {client : Client} {r : GeneratedKey} (m : IsMiss hex_sha256 key_id context now w client r) where
  pub missed :
      generate_data_key hex_sha256 key_id context now w
      ≡ (ok w.next, after_miss hex_sha256 key_id context now w r)
  missed =
      generate_miss hex_sha256 key_id context now w client r m.on m.filled m.miss m.answer
        m.plaintext_filled m.blob_filled

  pub key_filled : is_empty (build_data_key_cache_key hex_sha256 key_id context) ≡ false
  unfolding build_data_key_cache_key
  key_filled = rw m.filled (m.hash_filled _)

  pub stored_heap :
      AllAllocated w.next (cache_of w).cache
      → (after_miss hex_sha256 key_id context now w r).heap w.next
        ≡ new_key hex_sha256 key_id context now r
  unfolding after_miss
  stored_heap a =
      put-heap (build_data_key_cache_key hex_sha256 key_id context) w.next now (cache_of w) _ w.next
        key_filled
      ∙ rw (not_held w.next _ (cache_of w).cache a) (write_self w.heap w.next _)

  pub stored_cache : cache_of (after_miss hex_sha256 key_id context now w r) ≡ record (cache_of w) {
    cache =
        insert
          (build_data_key_cache_key hex_sha256 key_id context)
          (some (record { data_key = some w.next; expires_at = now + (cache_of w).ttl }))
          (cache_of w).cache;
  }
  unfolding after_miss
  stored_cache = put_cache _ w.next now (cache_of w) _ key_filled

  pub stored_next : (after_miss hex_sha256 key_id context now w r).next ≡ w.next + 1
  unfolding after_miss
  stored_next = refl

  pub stored_client :
      enabled_client (after_miss hex_sha256 key_id context now w r).manager ≡ ok client
  unfolding after_miss enabled_client
  stored_client = m.on

  pub stored_get :
      (later : ℕ)
      → later ≤ now + (cache_of w).ttl
      → get
          (build_data_key_cache_key hex_sha256 key_id context)
          later
          (cache_of (after_miss hex_sha256 key_id context now w r))
        ≡ some w.next
  unfolding after_miss
  stored_get later fresh =
      get-put _ _ w.next now later (cache_of w) _ key_filled ∙ rw (beq_refl _) (ground arith)

  pub stored_expired :
      (later : ℕ)
      → now + (cache_of w).ttl < later
      → holds_expired w.next later (cache_of (after_miss hex_sha256 key_id context now w r)).cache
        ≡ true
  stored_expired later late = rw stored_cache (
      insert-holds_expired _
        (record { data_key = some w.next; expires_at = now + (cache_of w).ttl }) w.next later
        (cache_of w).cache (ground arith) (lt→ltb _ _ late))
