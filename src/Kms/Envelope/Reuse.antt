-- ===== src/Kms/Envelope/Reuse.antt =====
-- `Encrypt` of internal/kms/envelope.go zeroes a data key that the cache goes on to hand out.
use s3proxy_go.Base.{
  ℕ, ◌+◌, ◌≤◌, true, false, Option, some, Bytes, is_empty, Dict, ok, ◌≡◌, ◌∙◌, ap, arith,
}
use s3proxy_go.Kms.Manager.Allocation.{write_self}
use s3proxy_go.Kms.DataKeyCache.{get, wipe, zeros, build_data_key_cache_key}
use s3proxy_go.Kms.Manager
use s3proxy_go.Kms.Manager.{World, Client, GeneratedKey, DecryptedKey, is_enabled, enabled_client}
use s3proxy_go.Kms.Manager.Allocation.{AllAllocated}
use s3proxy_go.Kms.Manager.Miss.{
  IsMiss, cache_of, generate_hit, missed, stored_heap, stored_client, stored_get, new_key,
  after_miss,
}
use s3proxy_go.Kms.Envelope.{Gcm, encrypt, seal_under, zero_key}

pub is_enabled_of_client :
    (m : Manager.Manager) (c : Client) → enabled_client m ≡ ok c → is_enabled m ≡ true
unfolding is_enabled enabled_client
is_enabled_of_client m c h = ground arith

module _ (gcm : Gcm) {hex_sha256 : Bytes → Bytes} {key_id : Bytes} {context : Dict Bytes} {now : ℕ}
    {w : World} {client : Client} {r : GeneratedKey}
    (m : IsMiss hex_sha256 key_id context now w client r) (plaintext : Bytes)
    (random : Option Bytes) (given : is_empty plaintext ≡ false) where
  pub encrypt_miss : encrypt gcm hex_sha256 plaintext key_id context now random w ≡ (
    seal_under gcm
        ((after_miss hex_sha256 key_id context now w r).heap w.next)
        plaintext
        context
        random,
    zero_key w.next (after_miss hex_sha256 key_id context now w r),
  )
  unfolding encrypt
  encrypt_miss = rw (missed m, is_enabled_of_client w.manager client m.on, given, m.filled)

  unfoldable pub zeroed : World
  zeroed = zero_key w.next (after_miss hex_sha256 key_id context now w r)

  pub zeroed_client : enabled_client zeroed.manager ≡ ok client
  unfolding zeroed zero_key
  zeroed_client = stored_client m

  zeroed-get :
      (later : ℕ)
      → later ≤ now + (cache_of w).ttl
      → get (build_data_key_cache_key hex_sha256 key_id context) later (cache_of zeroed)
        ≡ some w.next
  unfolding zeroed zero_key
  zeroed-get later fresh = stored_get m later fresh

  zeroed_heap :
      AllAllocated w.next (cache_of w).cache
      → zeroed.heap w.next ≡ wipe (new_key hex_sha256 key_id context now r)
  unfolding zeroed zero_key
  zeroed_heap a =
      write_self (after_miss hex_sha256 key_id context now w r).heap w.next _
      ∙ ap wipe (stored_heap m a)

  again :
      (plaintext' : Bytes) (random' : Option Bytes) (later : ℕ)
      → is_empty plaintext' ≡ false
      → later ≤ now + (cache_of w).ttl
      → (encrypt gcm hex_sha256 plaintext' key_id context later random' zeroed).0
        ≡ seal_under gcm (zeroed.heap w.next) plaintext' context random'
  unfolding encrypt
  again plaintext' random' later given' fresh = rw (
    generate_hit hex_sha256 key_id context later zeroed client w.next zeroed_client m.filled
        (zeroed-get later fresh),
    is_enabled_of_client zeroed.manager client zeroed_client,
    given',
    m.filled,
  )

  -- A second Encrypt for the same key and context, made while the entry of the first one's data key has not expired, seals its plaintext under the data key with every byte zero.
  pub encrypt-encrypt_zero_key :
      (plaintext' : Bytes) (random' : Option Bytes) (later : ℕ)
      → AllAllocated w.next (cache_of w).cache
      → is_empty plaintext' ≡ false
      → later ≤ now + (cache_of w).ttl
      → (encrypt gcm hex_sha256 plaintext' key_id context later random'
          (encrypt gcm hex_sha256 plaintext key_id context now random w).1).0
        ≡ seal_under gcm
            (record {
              key_id = key_id;
              plaintext_key = zeros r.plaintext;
              ciphertext_blob = r.ciphertext_blob;
              encryption_context = context;
              created_at = now;
            })
            plaintext'
            context
            random'
  unfolding new_key zero_key zeroed
  encrypt-encrypt_zero_key plaintext' random' later a given' fresh =
      rw encrypt_miss (again plaintext' random' later given' fresh)
      ∙ ap (λ k. seal_under gcm k plaintext' context random') (zeroed_heap a)
