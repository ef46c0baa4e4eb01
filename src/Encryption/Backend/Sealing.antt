-- ===== src/Encryption/Backend/Sealing.antt =====
-- What `SimpleAESGCMEncryptor`, internal/encryption/stream/simple_aes_gcm.go, seals and opens, and the
-- metadata under which it does.
use s3proxy_go.Base.{
  ℕ, ◌<◌, true, false, none, some, Bytes, is_empty, lit, length, beq, beq_refl, Dict, lookup,
  insert, lookup-insert, delete, lookup-delete, ℤ, pos, format_nat, format_int, format_nat_filled,
  parse_int-format_nat, int64_bound, ok, ◌≡◌, refl, ◌∙◌, arith,
}
use s3proxy_go.Storage.Backend.{Reader}
use s3proxy_go.Kms.Envelope.{Gcm, is_key_length}
use s3proxy_go.Encryption.{
  KeyProvider, Codec, encrypt, decrypt, manager_decrypt, with_key, sealed, size_of, with_dek,
  open_with, encryption_metadata, field, read_all, algorithm_name, key_id_name, dek_name,
  nonce_name, size_name, aes_256_gcm,
}
use s3proxy_go.Encryption.Metadata.{
  merge, marker_name, validate_encryption_metadata, clean_metadata, shown, size_shown,
  get_original_size,
}

skip :
    (v : Bytes) (k j : Bytes) (m : Dict Bytes)
    → beq j k ≡ false
    → lookup k (insert j v m) ≡ lookup k m
skip v k j m differs = rw (lookup-insert j k v m, differs) refl

pub hit : (v k : Bytes) (m : Dict Bytes) → lookup k (insert k v m) ≡ some v
hit v k m = rw (lookup-insert k k v m, beq_refl k) refl

pub dek_hidden :
    (m : Dict Bytes) → lookup dek_name (insert marker_name (lit "AES256") (clean_metadata m)) ≡ none
unfolding clean_metadata beq
dek_hidden m =
    let m₁ = delete dek_name (delete key_id_name (delete algorithm_name m)) in
    skip _ dek_name marker_name (clean_metadata m) refl
    ∙ lookup-delete size_name dek_name (delete nonce_name m₁)
    ∙ lookup-delete nonce_name dek_name m₁
    ∙ lookup-delete dek_name dek_name (delete key_id_name (delete algorithm_name m))

pub field-some : (k v : Bytes) (m : Dict Bytes) → lookup k m ≡ some v → field k m ≡ v
unfolding field
field-some k v m found = rw (field, found) refl

aes_filled : is_empty aes_256_gcm ≡ false
unfolding is_empty
aes_filled = refl

filled_nat : (n : ℕ) → is_empty (format_nat n) ≡ false
unfolding is_empty
filled_nat n = let (c, s, e) = format_nat_filled n in rw e

pub shown_lem :
    (m : Dict Bytes)
    → field algorithm_name m ≡ aes_256_gcm
    → shown m ≡ insert marker_name (lit "AES256") (clean_metadata m)
unfolding shown is_empty
shown_lem m f₁ = rw f₁ refl

pub size_lem :
    (m : Dict Bytes) (size : ℤ) (content : Bytes)
    → field algorithm_name m ≡ aes_256_gcm
    → field size_name m ≡ format_nat (length content)
    → length content < int64_bound
    → size_shown m size ≡ pos (length content)
unfolding size_shown get_original_size is_empty
size_lem m size content f₁ f₄ small =
    rw (f₁, f₄, filled_nat (length content), parse_int-format_nat (length content) small) refl

module _ (gcm : Gcm) (codec : Codec) {K : Type 0} (keys : KeyProvider K)
    (content dek encrypted nonce : Bytes) where
  abbrev sealing : Dict Bytes
  sealing = encryption_metadata keys.name encrypted (codec.encode nonce) (pos (length content))

  size_of_lem : size_of gcm codec keys (pos (length content)) content ≡ pos (length content)
  unfolding size_of
  size_of_lem = ground arith

  pub encrypt_lem :
      (reader : Reader) (k k' : K)
      → reader.content ≡ content
      → reader.fails ≡ false
      → keys.generate_dek k ≡ (ok (dek, encrypted), k')
      → is_key_length (length dek) ≡ true
      → encrypt gcm codec keys reader (pos (length content)) (some nonce) k
        ≡ (ok (gcm.seal dek nonce content, sealing), k')
  unfolding encrypt with_key sealed read_all
  encrypt_lem reader k k' whole good made key_length =
      rw (made, key_length, good, whole, size_of_lem) refl

  pub decrypt_lem :
      (reader : Reader) (metadata : Dict Bytes) (k : K)
      → reader.content ≡ gcm.seal dek nonce content
      → reader.fails ≡ false
      → field algorithm_name metadata ≡ aes_256_gcm
      → field dek_name metadata ≡ encrypted
      → field nonce_name metadata ≡ codec.encode nonce
      → is_empty encrypted ≡ false
      → is_empty (codec.encode nonce) ≡ false
      → length nonce ≡ 12
      → keys.decrypt_dek encrypted k ≡ ok dek
      → is_key_length (length dek) ≡ true
      → manager_decrypt gcm codec keys true reader metadata k
        ≡ ok (record { seekable = false; content = content; fails = false })
  unfolding manager_decrypt decrypt with_dek open_with read_all
  decrypt_lem reader metadata k whole good f₁ f₂ f₃ e₂ e₃ twelve opened key_length =
      rw
        (
          f₁,
          aes_filled,
          f₂,
          e₂,
          f₃,
          e₃,
          codec.decode-encode nonce,
          f₂,
          opened,
          key_length,
          good,
          twelve,
          whole,
          gcm.open-seal dek nonce content,
        )
        refl

  unfoldable pub merged : (metadata : Dict Bytes) → Dict Bytes
  merged metadata = insert marker_name (lit "AES256") (merge metadata sealing)

  pub lookup-merged :
      (metadata : Dict Bytes)
      → (lookup algorithm_name (merged metadata) ≡ some aes_256_gcm)
        × (lookup dek_name (merged metadata) ≡ some encrypted)
        × (lookup nonce_name (merged metadata) ≡ some (codec.encode nonce))
        × (lookup size_name (merged metadata) ≡ some (format_nat (length content)))
  unfolding merged merge encryption_metadata format_int beq
  lookup-merged metadata =
      let a = algorithm_name in
      let m₁ = insert a aes_256_gcm metadata in
      let m₂ = insert key_id_name keys.name m₁ in
      let m₃ = insert dek_name encrypted m₂ in
      let m₄ = insert nonce_name (codec.encode nonce) m₃ in
      let m₅ = insert size_name (format_nat (length content)) m₄ in
      (
        skip _ a marker_name m₅ refl
            ∙ skip _ a size_name m₄ refl
            ∙ skip _ a nonce_name m₃ refl
            ∙ skip _ a dek_name m₂ refl
            ∙ skip _ a key_id_name m₁ refl
            ∙ hit _ a metadata,
        skip _ dek_name marker_name m₅ refl
            ∙ skip _ dek_name size_name m₄ refl
            ∙ skip _ dek_name nonce_name m₃ refl
            ∙ hit _ dek_name m₂,
        skip _ nonce_name marker_name m₅ refl
            ∙ skip _ nonce_name size_name m₄ refl
            ∙ hit _ nonce_name m₃,
        skip _ size_name marker_name m₅ refl ∙ hit _ size_name m₄,
      )

  pub valid_fields :
      (m : Dict Bytes)
      → field algorithm_name m ≡ aes_256_gcm
      → field dek_name m ≡ encrypted
      → field nonce_name m ≡ codec.encode nonce
      → is_empty encrypted ≡ false
      → is_empty (codec.encode nonce) ≡ false
      → validate_encryption_metadata m ≡ none
  unfolding validate_encryption_metadata is_empty
  valid_fields m f₁ f₂ f₃ e₂ e₃ = rw (f₁, f₂, e₂, f₃, e₃) refl

  pub valid_sealing :
      is_empty encrypted ≡ false
      → is_empty (codec.encode nonce) ≡ false
      → validate_encryption_metadata sealing ≡ none
  unfolding field lookup beq encryption_metadata
  valid_sealing e₂ e₃ = valid_fields sealing refl refl refl e₂ e₃
