-- ===== src/Encryption/Backend/RoundTrip.antt =====
-- An object put through `EncryptedBackend`, internal/storage/encrypted.go, comes back as it was.
use s3proxy_go.Base.{
  ℕ, suc, ◌<◌, true, false, Option, none, some, Bytes, is_empty, lit, length, Dict, lookup, insert,
  ℤ, pos, format_nat, int64_bound, ok, ◌≡◌, refl,
}
use s3proxy_go.Storage.Backend
use s3proxy_go.Storage.Backend.{Reader, Object}
use s3proxy_go.Storage.Storing.{Stores}
use s3proxy_go.Kms.Envelope.{Gcm, is_key_length}
use s3proxy_go.Encryption.{
  KeyProvider, Codec, field, algorithm_name, dek_name, nonce_name, size_name, aes_256_gcm,
}
use s3proxy_go.Encryption.Metadata.{marker_name, clean_metadata}
use s3proxy_go.Encryption.Backend.{
  Encrypted, put_object, get_object, wrapped, store, store_sealed, after_encrypt, opened_object,
  checked_object, with_body,
}
use s3proxy_go.Encryption.Backend.Sealing.{
  hit, dek_hidden, field-some, shown_lem, size_lem, encrypt_lem, decrypt_lem, merged, lookup-merged,
  valid_fields, valid_sealing,
}

module _ (gcm : Gcm) (codec : Codec) {K S : Type 0} (keys : KeyProvider K)
    (backend : Backend.Backend S) (random : ℕ → Option Bytes) (dek encrypted nonce : Bytes) where
  put_lem :
      (bucket key : Bytes) (reader : Reader) (metadata : Dict Bytes) (e : Encrypted K S) (k : K)
      → reader.fails ≡ false
      → keys.generate_dek e.keys ≡ (ok (dek, encrypted), k)
      → is_key_length (length dek) ≡ true
      → is_empty encrypted ≡ false
      → random e.drawn ≡ some nonce
      → is_empty (codec.encode nonce) ≡ false
      → put_object gcm codec keys backend true random bucket key reader
          (pos (length reader.content))
          metadata
          e
        ≡ wrapped gcm codec keys backend true random
            (backend.put_object bucket key
              (record {
                seekable = true;
                content = gcm.seal dek nonce reader.content;
                fails = false;
              })
              (pos (length (gcm.seal dek nonce reader.content)))
              (merged gcm codec keys reader.content dek encrypted nonce metadata))
            (record e { keys = k; drawn = suc e.drawn })
  unfolding put_object store store_sealed after_encrypt merged
  put_lem bucket key reader metadata e k good made key_length dek_filled drawn nonce_filled =
      rw
        (
          drawn,
          encrypt_lem gcm codec keys reader.content dek encrypted nonce reader e.keys k refl good
              made key_length,
          valid_sealing gcm codec keys reader.content dek encrypted nonce dek_filled nonce_filled,
        )
        refl

  opened_lem :
      (obj : Object) (metadata : Dict Bytes) (content : Bytes) (k : K)
      → obj.body.content ≡ gcm.seal dek nonce content
      → obj.body.fails ≡ false
      → obj.metadata ≡ merged gcm codec keys content dek encrypted nonce metadata
      → is_empty encrypted ≡ false
      → is_empty (codec.encode nonce) ≡ false
      → length nonce ≡ 12
      → keys.decrypt_dek encrypted k ≡ ok dek
      → is_key_length (length dek) ≡ true
      → length content < int64_bound
      → opened_object gcm codec keys backend true random k (ok obj)
        ≡ ok (record obj {
          body = record { seekable = false; content = content; fails = false };
          size = pos (length content);
          metadata = insert marker_name (lit "AES256") (clean_metadata obj.metadata);
        })
  unfolding opened_object checked_object with_body is_empty
  opened_lem obj metadata content k whole good same e₂ e₃ twelve opened key_length small =
      let m = merged gcm codec keys content dek encrypted nonce metadata in
      let held = lookup-merged gcm codec keys content dek encrypted nonce metadata in
      let f₁ : field algorithm_name obj.metadata ≡ aes_256_gcm =
        rw same (field-some _ _ m held.0) in
      let f₂ : field dek_name obj.metadata ≡ encrypted = rw same (field-some _ _ m held.1) in
      let f₃ : field nonce_name obj.metadata ≡ codec.encode nonce =
        rw same (field-some _ _ m held.2) in
      let f₄ : field size_name obj.metadata ≡ format_nat (length content) =
        rw same (field-some _ _ m held.3) in
      let size = size_lem obj.metadata obj.size content f₁ f₄ small in
      rw
        (
          valid_fields gcm codec keys content dek encrypted nonce obj.metadata f₁ f₂ f₃ e₂ e₃,
          checked_object,
          f₁,
          decrypt_lem gcm codec keys content dek encrypted nonce obj.body obj.metadata k whole good
              f₁ f₂ f₃ e₂ e₃ twelve opened key_length,
          size,
          shown_lem obj.metadata f₁,
        )
        refl

  -- With encryption enabled, an object that has a key, is read with no error and is put with its true size, below 2 ^ 63, is taken and comes back with its content, its size and a marker of the encryption, but without the encrypted key, in its metadata, if the wrapped backend takes objects and gives them back as they were, the key provider makes a key of a length that AES takes and opens its encrypted form, the nonce has twelve bytes, and neither the encrypted key nor the encoded nonce is empty.
  pub get_object-put_object :
      (bucket key : Bytes) (reader : Reader) (metadata : Dict Bytes) (e : Encrypted K S) (k : K)
      → Stores backend
      → is_empty key ≡ false
      → reader.fails ≡ false
      → length reader.content < int64_bound
      → keys.generate_dek e.keys ≡ (ok (dek, encrypted), k)
      → keys.decrypt_dek encrypted k ≡ ok dek
      → is_key_length (length dek) ≡ true
      → is_empty encrypted ≡ false
      → random e.drawn ≡ some nonce
      → length nonce ≡ 12
      → is_empty (codec.encode nonce) ≡ false
      → let (result, e') =
          put_object gcm codec keys backend true random bucket key reader
            (pos (length reader.content))
            metadata
            e in
        (result ≡ ok tt)
        × ((got : Object) × ((get_object gcm codec keys backend true random bucket key e').0
              ≡ ok got)
            × (got.body.content ≡ reader.content)
            × (got.size ≡ pos (length reader.content))
            × (lookup marker_name got.metadata ≡ some (lit "AES256"))
            × (lookup dek_name got.metadata ≡ none))
  unfolding get_object wrapped
  get_object-put_object bucket key reader metadata e k b key_filled good small made opened
        key_length e₂ drawn twelve e₃ =
      let body : Reader = record {
        seekable = true;
        content = gcm.seal dek nonce reader.content;
        fails = false;
      } in
      let size : ℤ = pos (length (gcm.seal dek nonce reader.content)) in
      let m = merged gcm codec keys reader.content dek encrypted nonce metadata in
      let (obj, got, whole, sound, same) =
        b.stored bucket key body size m e.backend key_filled refl in
      rw (put_lem bucket key reader metadata e k good made key_length e₂ drawn e₃) (
        b.accepts bucket key body size m e.backend refl,
        (
          record obj {
            body = record { seekable = false; content = reader.content; fails = false };
            size = pos (length reader.content);
            metadata = insert marker_name (lit "AES256") (clean_metadata obj.metadata);
          },
          rw got (
              opened_lem obj metadata reader.content k whole sound same e₂ e₃ twelve opened
                key_length small),
          refl,
          refl,
          hit _ marker_name (clean_metadata obj.metadata),
          dek_hidden obj.metadata,
        ),
      )
