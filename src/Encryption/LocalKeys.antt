-- ===== src/Encryption/LocalKeys.antt =====
-- internal/encryption/keys/local.go: the key provider that seals its keys under a master key.
pub mod RoundTrip
use s3proxy_go.Base.{
  ℕ, suc, ◌+◌, ◌==◌, if◌then◌else◌, ltb, Option, none, some, List, ◌++◌, Bytes, lit, length, take,
  drop, Result, ok, err, not,
}
use s3proxy_go.Kms.Envelope.{Gcm, nonce_size, is_key_length}
use s3proxy_go.Encryption.{Codec, KeyProvider}

-- `NewLocalKeyProvider`: the master key
unfoldable pub new_local_key_provider : Bytes → Result Bytes Bytes
new_local_key_provider master_key =
    if length master_key == 32
    then ok master_key
    else err (lit "master key must be 32 bytes (256 bits)")

-- `rand.Read` of so many bytes, by the number of the draw; `none` is an error
module _ (gcm : Gcm) (codec : Codec) (draw : ℕ → ℕ → Option Bytes) (master_key : Bytes) where
  -- a key sealed under the master key, behind its nonce
  unfoldable pub seal_dek : Bytes → Bytes → Bytes
  seal_dek dek nonce = codec.encode (nonce ++ gcm.seal master_key nonce dek)

  abbrev with_nonce : Bytes → Option Bytes → Result Bytes (Bytes × Bytes)
  with_nonce dek none = err (lit "failed to generate nonce")
  with_nonce dek (some nonce) = ok (dek, seal_dek dek nonce)

  abbrev with_drawn_key : ℕ → Option Bytes → Result Bytes (Bytes × Bytes) × ℕ
  with_drawn_key k none = (err (lit "failed to generate DEK"), suc k)
  with_drawn_key k (some dek) =
      if is_key_length (length master_key)
      then (with_nonce dek (draw nonce_size (suc k)), suc (suc k))
      else (err (lit "failed to create cipher"), suc k)

  -- `GenerateDEK`, whose state is the number of the draws so far
  unfoldable pub generate_dek : ℕ → Result Bytes (Bytes × Bytes) × ℕ
  unfolding is_key_length seal_dek
  generate_dek k = with_drawn_key k (draw 32 k)

  abbrev opened : Option Bytes → Result Bytes Bytes
  opened none = err (lit "failed to decrypt DEK")
  opened (some dek) = ok dek

  -- what `DecryptDEK` does with the decoded bytes
  unfoldable pub open_dek : Bytes → Result Bytes Bytes
  unfolding is_key_length
  open_dek sealed =
      if not (is_key_length (length master_key))
      then err (lit "failed to create cipher")
      else if ltb (length sealed) nonce_size
      then err (lit "encrypted DEK too short")
      else opened (gcm.open_sealed master_key (take nonce_size sealed) (drop nonce_size sealed))

  -- `DecryptDEK`
  unfoldable pub decrypt_dek : Bytes → Result Bytes Bytes
  unfolding open_dek
  decrypt_dek encrypted = elim (codec.decode encrypted) [
    | none ↦ err (lit "failed to decode encrypted DEK")
    | some sealed ↦ open_dek sealed
  ]

  -- `LocalKeyProvider` as a key provider
  unfoldable pub local_keys : KeyProvider ℕ
  unfolding generate_dek decrypt_dek
  local_keys = record {
    generate_dek = generate_dek;
    decrypt_dek = λ encrypted k. decrypt_dek encrypted;
    name = lit "local";
  }
