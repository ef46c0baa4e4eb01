-- ===== src/Kms/Envelope.antt =====
-- internal/kms/envelope.go: `EnvelopeEncryptor`, over the data keys of the manager.
pub mod Reuse
pub mod RoundTrip
use s3proxy_go.Base.{
  ℕ, ◌+◌, ◌-◌, ◌*◌, ◌==◌, ltb, ◌<◌, ◌≤◌, if◌then◌else◌, ◌&&◌, ◌||◌, not, Bool, true, false, Option,
  none, some, List, [], ◌∷◌, ◌++◌, map, length, Bytes, is_empty, beq, Dict, lookup, insert, delete,
  String, lit, Result, ok, err, guard, map_err, ◌>>=◌, ◌>>◌, ◌≡◌,
}
use s3proxy_go.Kms.DataKeyCache.{DataKey, Heap, write, wipe}
use s3proxy_go.Kms.Manager
use s3proxy_go.Kms.Manager.{World, is_enabled}
use s3proxy_go.Kms.Manager.DataKeys.{generate_data_key, decrypt_data_key}

-- AES-GCM of the packages crypto/aes and crypto/cipher: a sealed text opens under its key and nonce
pub record Gcm : Type 0 where
  pub seal : Bytes → Bytes → Bytes → Bytes
  pub open_sealed : Bytes → Bytes → Bytes → Option Bytes
  pub open-seal : (key nonce text : Bytes) → open_sealed key nonce (seal key nonce text) ≡ some text
  pub seal_filled : (key nonce text : Bytes) → is_empty (seal key nonce text) ≡ false

abbrev pub nonce_size : ℕ
nonce_size = 12

-- `aes.NewCipher` takes keys of these lengths
unfoldable pub is_key_length : ℕ → Bool
is_key_length n = n == 16 || n == 24 || n == 32

pub data EnvelopeError : Type 0 where
  not_enabled empty_plaintext empty_key_id cipher_failed nonce_failed : EnvelopeError
  missing_fields bad_nonce_size open_failed : EnvelopeError
  data_key_failed : Manager.Error → EnvelopeError

pub record EncryptedData : Type 0 where
  pub ciphertext_blob : Bytes
  pub encrypted_data : Bytes
  pub nonce : Bytes
  pub encryption_context : Dict Bytes

-- the deferred loop that zeroes the data key in place
unfoldable pub zero_key : ℕ → World → World
zero_key p w = record w { heap = write w.heap p (wipe (w.heap p)) }

module _ (gcm : Gcm) where
  -- the body of `Encrypt` from `aes.NewCipher` on; `random` is `none` where reading the nonce fails
  unfoldable pub seal_under :
      DataKey → Bytes → Dict Bytes → Option Bytes → Result EnvelopeError EncryptedData
  unfolding is_key_length
  seal_under data_key plaintext context random =
      if is_key_length (length data_key.plaintext_key)
      then elim random [
        | none ↦ err nonce_failed
        | some nonce ↦ ok (record {
          ciphertext_blob = data_key.ciphertext_blob;
          encrypted_data = gcm.seal data_key.plaintext_key nonce plaintext;
          nonce = nonce;
          encryption_context = context;
        })
      ]
      else err cipher_failed

  after_generate :
      Bytes
      → Dict Bytes
      → Option Bytes
      → Result Manager.Error ℕ × World
      → Result EnvelopeError EncryptedData × World
  after_generate plaintext context random (err e, w) = (err (data_key_failed e), w)
  after_generate plaintext context random (ok p, w) =
      (seal_under (w.heap p) plaintext context random, zero_key p w)

  -- `Encrypt`
  unfoldable pub encrypt :
      (Bytes → Bytes)
      → Bytes
      → Bytes
      → Dict Bytes
      → ℕ
      → Option Bytes
      → World
      → Result EnvelopeError EncryptedData × World
  unfolding after_generate
  encrypt hex_sha256 plaintext key_id context now random w =
      if not (is_enabled w.manager)
      then (err not_enabled, w)
      else if is_empty plaintext
      then (err empty_plaintext, w)
      else if is_empty key_id
      then (err empty_key_id, w)
      else after_generate plaintext context random
          (generate_data_key hex_sha256 key_id context now w)

  -- the body of `Decrypt` from `aes.NewCipher` on
  unfoldable pub open_under : DataKey → EncryptedData → Result EnvelopeError Bytes
  unfolding is_key_length
  open_under data_key encrypted =
      if not (is_key_length (length data_key.plaintext_key))
      then err cipher_failed
      else if not (length encrypted.nonce == nonce_size)
      then err bad_nonce_size
      else elim (gcm.open_sealed data_key.plaintext_key encrypted.nonce encrypted.encrypted_data) [
        | none ↦ err open_failed
        | some text ↦ ok text
      ]

  -- `Decrypt`; the data key is the caller's own, so that zeroing it afterwards is not seen
  unfoldable pub decrypt : EncryptedData → ℕ → Manager.Manager → Result EnvelopeError Bytes
  decrypt encrypted now m = do
    guard (is_enabled m) not_enabled
    guard
        (not (
          is_empty encrypted.ciphertext_blob
          || is_empty encrypted.encrypted_data
          || is_empty encrypted.nonce))
        missing_fields
    data_key ←
        map_err data_key_failed
          (decrypt_data_key encrypted.ciphertext_blob encrypted.encryption_context now m)
    open_under data_key encrypted
