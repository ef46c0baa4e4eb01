-- ===== src/Kms/Envelope/RoundTrip.antt =====
-- `Decrypt` of internal/kms/envelope.go undoes the first `Encrypt` of a data key.
use s3proxy_go.Base.{
  ℕ, true, false, none, some, [], ◌∷◌, length, Bytes, is_empty, Dict, ok, ◌≡◌, ◌∙◌, refl, arith,
}
use s3proxy_go.Kms.DataKeyCache.{DataKey}
use s3proxy_go.Kms.Manager
use s3proxy_go.Kms.Manager.{World, Client, GeneratedKey, DecryptedKey, is_enabled, enabled_client}
use s3proxy_go.Kms.Manager.Allocation.{AllAllocated}
use s3proxy_go.Kms.Manager.Miss.{IsMiss, cache_of, stored_heap, new_key}
use s3proxy_go.Kms.Manager.DataKeys.{decrypt_data_key}
use s3proxy_go.Kms.Envelope.{
  Gcm, EncryptedData, encrypt, decrypt, seal_under, open_under, is_key_length, nonce_size,
}
use s3proxy_go.Kms.Envelope.Reuse.{encrypt_miss, is_enabled_of_client, zeroed, zeroed_client}

decrypt_data_key_lem :
    (blob : Bytes) (context : Dict Bytes) (now : ℕ) (m : Manager.Manager) (client : Client)
    (d : DecryptedKey)
    → enabled_client m ≡ ok client
    → is_empty blob ≡ false
    → client.decrypt now blob context ≡ ok (some d)
    → is_empty d.plaintext ≡ false
    → (k : DataKey) × (decrypt_data_key blob context now m ≡ ok k) × (k.plaintext_key ≡ d.plaintext)
unfolding decrypt_data_key
decrypt_data_key_lem blob context now m client d on filled answer given = (
  record {
    key_id = elim d.key_id [ none ↦ [] | some k ↦ k ];
    plaintext_key = d.plaintext;
    ciphertext_blob = blob;
    encryption_context = context;
    created_at = now;
  },
  rw (on, filled, answer) (rw given),
  refl,
)

not_nil : (b : Bytes) → length b ≡ nonce_size → is_empty b ≡ false
unfolding is_empty
not_nil [] h = absurd (omega arith)
not_nil (x ∷ b) h = refl

abbrev sealed : Gcm → GeneratedKey → Dict Bytes → Bytes → Bytes → EncryptedData
sealed gcm r context nonce plaintext = record {
  ciphertext_blob = r.ciphertext_blob;
  encrypted_data = gcm.seal r.plaintext nonce plaintext;
  nonce = nonce;
  encryption_context = context;
}

module _ (gcm : Gcm) where
  seal_under_lem :
      (k : DataKey) (plaintext : Bytes) (context : Dict Bytes) (nonce : Bytes)
      → is_key_length (length k.plaintext_key) ≡ true
      → seal_under gcm k plaintext context (some nonce)
        ≡ ok (record {
          ciphertext_blob = k.ciphertext_blob;
          encrypted_data = gcm.seal k.plaintext_key nonce plaintext;
          nonce = nonce;
          encryption_context = context;
        })
  unfolding seal_under
  seal_under_lem k plaintext context nonce fits = rw fits

  open_under_lem :
      (k : DataKey) (r : GeneratedKey) (context : Dict Bytes) (plaintext nonce : Bytes)
      → k.plaintext_key ≡ r.plaintext
      → is_key_length (length r.plaintext) ≡ true
      → length nonce ≡ nonce_size
      → open_under gcm k (sealed gcm r context nonce plaintext) ≡ ok plaintext
  unfolding open_under
  open_under_lem k r context plaintext nonce same fits size =
      rw (same, fits, size, gcm.open-seal r.plaintext nonce plaintext)

  decrypt_lem :
      (encrypted : EncryptedData) (now : ℕ) (m : Manager.Manager) (k : DataKey)
      → is_enabled m ≡ true
      → is_empty encrypted.ciphertext_blob ≡ false
      → is_empty encrypted.encrypted_data ≡ false
      → is_empty encrypted.nonce ≡ false
      → decrypt_data_key encrypted.ciphertext_blob encrypted.encryption_context now m ≡ ok k
      → decrypt gcm encrypted now m ≡ open_under gcm k encrypted
  unfolding decrypt
  decrypt_lem encrypted now m k on blob text nonce key = rw (on, blob, text, nonce, key)

module _ (gcm : Gcm) {hex_sha256 : Bytes → Bytes} {key_id : Bytes} {context : Dict Bytes} {now : ℕ}
    {w : World} {client : Client} {r : GeneratedKey}
    (m : IsMiss hex_sha256 key_id context now w client r) where
  -- If the cache does not hold the data key and points to allocated data keys alone, if the key that the service generates has a length that AES takes and the service decrypts its blob, under the same context, to that key, and if the nonce has the length that GCM takes, then Encrypt of a plaintext that is not empty succeeds, and Decrypt of what it returns is the plaintext.
  pub decrypt-encrypt :
      (plaintext nonce : Bytes) (later : ℕ) (d : DecryptedKey)
      → AllAllocated w.next (cache_of w).cache
      → is_empty plaintext ≡ false
      → is_key_length (length r.plaintext) ≡ true
      → length nonce ≡ nonce_size
      → client.decrypt later r.ciphertext_blob context ≡ ok (some d)
      → d.plaintext ≡ r.plaintext
      → (encrypted : EncryptedData) × ((encrypt gcm hex_sha256 plaintext key_id context now
            (some nonce)
            w).0
          ≡ ok encrypted)
        × (decrypt gcm encrypted later
              (encrypt gcm hex_sha256 plaintext key_id context now (some nonce) w).1.manager
            ≡ ok plaintext)
  unfolding new_key zeroed
  decrypt-encrypt plaintext nonce later d a given fits size answer same =
      let on = zeroed_client gcm m plaintext (some nonce) given in
      let (k, got, key) =
        decrypt_data_key_lem r.ciphertext_blob context later _ client d on m.blob_filled answer
          (rw same m.plaintext_filled) in
      (
        sealed gcm r context nonce plaintext,
        rw (encrypt_miss gcm m plaintext (some nonce) given, stored_heap m a)
            (seal_under_lem gcm _ plaintext context nonce fits),
        rw (encrypt_miss gcm m plaintext (some nonce) given) (
            decrypt_lem gcm (sealed gcm r context nonce plaintext) later _ k
              (is_enabled_of_client _ client on) m.blob_filled
              (gcm.seal_filled r.plaintext nonce plaintext) (not_nil nonce size) got
            ∙ open_under_lem gcm k r context plaintext nonce (key ∙ same) fits size),
      )
