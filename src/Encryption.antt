-- ===== src/Encryption.antt =====
-- internal/encryption: the manager, and the encryptor of internal/encryption/stream/simple_aes_gcm.go
-- that the factory builds, over a key provider. Readers are read whole, so that a result is the bytes.
pub mod Metadata
pub mod Backend
pub mod LocalKeys
mod Examples
use s3proxy_go.Base.{
  ℕ, suc, ◌+◌, ◌*◌, ◌==◌, if◌then◌else◌, ◌&&◌, ◌||◌, not, Bool, true, false, Option, none, some,
  List, [], ◌∷◌, Bytes, is_empty, lit, length, Dict, lookup, insert, ℤ, pos, ltb_ℤ, leb_ℤ,
  parse_int, format_nat, format_int, Result, ok, err, guard, map_err, ◌>>=◌, ◌>>◌, ◌≡◌,
}
use s3proxy_go.Storage.Backend.{Reader}
use s3proxy_go.Kms.Envelope.{Gcm, is_key_length}

-- the names under which an object's metadata carries how it is encrypted
abbrev pub algorithm_name : Bytes
algorithm_name = lit "x-amz-meta-encryption-algorithm"

abbrev pub key_id_name : Bytes
key_id_name = lit "x-amz-meta-encryption-key-id"

abbrev pub dek_name : Bytes
dek_name = lit "x-amz-meta-encryption-dek"

abbrev pub nonce_name : Bytes
nonce_name = lit "x-amz-meta-encryption-nonce"

abbrev pub size_name : Bytes
size_name = lit "x-amz-meta-encrypted-size"

abbrev pub aes_256_gcm : Bytes
aes_256_gcm = lit "AES-256-GCM"

-- base64 of the package encoding/base64
pub record Codec : Type 0 where
  pub encode : Bytes → Bytes
  pub decode : Bytes → Option Bytes
  pub decode-encode : (s : Bytes) → decode (encode s) ≡ some s

-- a key provider whose state is `K`: a new key with its encrypted form, the key of an encrypted form,
-- and its name
pub record KeyProvider (K : Type 0) : Type 0 where
  pub generate_dek : K → Result Bytes (Bytes × Bytes) × K
  pub decrypt_dek : Bytes → K → Result Bytes Bytes
  pub name : Bytes

-- `metadata[name]`
unfoldable pub field : Bytes → Dict Bytes → Bytes
unfolding lookup
field name metadata = elim (lookup name metadata) [ none ↦ [] | some v ↦ v ]

-- `io.ReadAll`
unfoldable pub read_all : Reader → Option Bytes
read_all reader = if reader.fails then none else some reader.content

unfoldable pub encryption_metadata : Bytes → Bytes → Bytes → ℤ → Dict Bytes
encryption_metadata name dek nonce size =
    (algorithm_name, aes_256_gcm)
    ∷ (key_id_name, name)
    ∷ (dek_name, dek)
    ∷ (nonce_name, nonce)
    ∷ (size_name, format_int size)
    ∷ []

module _ (gcm : Gcm) (codec : Codec) {K : Type 0} (keys : KeyProvider K) where
  -- the size in the metadata is that of the data, and for large files or those of no size the one given
  size_of : ℤ → Bytes → ℤ
  size_of size content =
      if leb_ℤ (pos 0) size && leb_ℤ size (pos (100 * 1024 * 1024))
      then pos (length content)
      else size

  sealed : Reader → ℤ → Bytes → Bytes → Bytes → Result Bytes (Bytes × Dict Bytes)
  unfolding size_of encryption_metadata read_all
  sealed reader size dek encrypted_dek nonce = elim (read_all reader) [
    | none ↦ err (lit "failed to read data")
    | some content ↦ ok (
      gcm.seal dek nonce content,
      encryption_metadata keys.name encrypted_dek (codec.encode nonce) (size_of size content),
    )
  ]

  with_key :
      Reader → ℤ → Option Bytes → Result Bytes (Bytes × Bytes) → Result Bytes (Bytes × Dict Bytes)
  unfolding is_key_length sealed
  with_key reader size random (err message) = err (lit "failed to generate DEK")
  with_key reader size random (ok (dek, encrypted_dek)) =
      if is_key_length (length dek)
      then elim random [
        | none ↦ err (lit "failed to generate nonce")
        | some nonce ↦ sealed reader size dek encrypted_dek nonce
      ]
      else err (lit "failed to create cipher")

  -- `SimpleAESGCMEncryptor.Encrypt`; `random` is the nonce, `none` where it cannot be drawn
  unfoldable pub encrypt : Reader → ℤ → Option Bytes → K → Result Bytes (Bytes × Dict Bytes) × K
  unfolding with_key
  encrypt reader size random k =
      let (made, k') = keys.generate_dek k in (with_key reader size random made, k')

  open_with : Reader → Bytes → Bytes → Result Bytes Bytes
  unfolding read_all
  open_with reader dek nonce = elim (read_all reader) [
    | none ↦ err (lit "failed to read encrypted data")
    | some content ↦
        if length nonce == 12
        then elim (gcm.open_sealed dek nonce content) [
          | none ↦ err (lit "failed to decrypt data")
          | some text ↦ ok text
        ]
        -- `gcm.Open` panics, and the server answers nothing
        else err (lit "incorrect nonce length given to GCM")
  ]

  with_dek : Reader → Bytes → Result Bytes Bytes → Result Bytes Bytes
  unfolding is_key_length open_with
  with_dek reader nonce (err message) = err (lit "failed to decrypt DEK")
  with_dek reader nonce (ok dek) =
      if is_key_length (length dek)
      then open_with reader dek nonce
      else err (lit "failed to create cipher")

  -- `SimpleAESGCMEncryptor.Decrypt`, which does the same whatever the size in the metadata is
  unfoldable pub decrypt : Reader → Dict Bytes → K → Result Bytes Bytes
  unfolding with_dek is_empty field
  decrypt reader metadata k =
      if is_empty (field dek_name metadata)
      then err (lit "missing encrypted DEK in metadata")
      else if is_empty (field nonce_name metadata)
      then err (lit "missing nonce in metadata")
      else elim (codec.decode (field nonce_name metadata)) [
        | none ↦ err (lit "failed to decode nonce")
        | some nonce ↦ with_dek reader nonce (keys.decrypt_dek (field dek_name metadata) k)
      ]

  -- `Manager.Decrypt` of a manager that is enabled or not; the reader itself where nothing is encrypted
  unfoldable pub manager_decrypt : Bool → Reader → Dict Bytes → K → Result Bytes Reader
  unfolding is_empty field
  manager_decrypt enabled reader metadata k =
      if is_empty (field algorithm_name metadata)
      then ok reader
      else if not enabled
      then err (lit "encryption is disabled but object is encrypted")
      else map_ok (λ text. record { seekable = false; content = text; fails = false })
          (decrypt reader metadata k)
    where
      map_ok : {A B : Type 0} → (A → B) → Result Bytes A → Result Bytes B
      map_ok f (ok a) = ok (f a)
      map_ok f (err e) = err e
