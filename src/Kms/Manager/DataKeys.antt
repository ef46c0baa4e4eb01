-- ===== src/Kms/Manager/DataKeys.antt =====
-- internal/kms/manager.go: the methods of `Manager` that make, decrypt and rotate keys, its
-- constructor, its headers and `Close`.
use s3proxy_go.Base.{
  ℕ, ◌+◌, if◌then◌else◌, ◌&&◌, ◌||◌, not, Bool, true, false, Option, none, some, [], ◌∷◌, Bytes,
  is_empty, Dict, insert, lit, Result, ok, err, guard, map_err, ◌>>=◌, ◌>>◌, ◌≡◌, refl, ap, ◌∙◌,
  beq, Bool-cases, inl, inr,
}
use s3proxy_go.Kms.DataKeyCache
use s3proxy_go.Kms.DataKeyCache.{
  DataKey, Heap, DataKeyCache, write, new_data_key_cache, build_data_key_cache_key,
  serialize_encryption_context,
}
use s3proxy_go.Kms.Manager.{
  Manager, World, Client, Config, Error, BucketKmsConfig, KeyInfo, GeneratedKey, DecryptedKey,
  enabled_client, is_enabled, validate_key, empty_key_id, empty_blob, generate_failed,
  invalid_response, decrypt_failed, rotation_failed, config_nil, load_config_failed,
  validate_default_failed,
}

abbrev pub is_empty_dict {ℓ} : {V : Type ℓ} → Dict V → Bool
is_empty_dict [] = true
is_empty_dict (e ∷ m) = false

-- the checks of `GenerateDataKey` on the service's response
check_generated : Result (Unit {0}) (Option GeneratedKey) → Result Error GeneratedKey
check_generated (err _) = err generate_failed
check_generated (ok none) = err invalid_response
check_generated (ok (some r)) =
    if is_empty r.plaintext || is_empty r.ciphertext_blob then err invalid_response else ok r

-- a new data key, put into the cache
install :
    Bytes → Bytes → Dict Bytes → ℕ → World → Result Error GeneratedKey → Result Error ℕ × World
install cache_key key_id context now w (err e) = (err e, w)
install cache_key key_id context now w (ok r) =
    let data_key : DataKey = record {
      key_id = key_id;
      plaintext_key = r.plaintext;
      ciphertext_blob = r.ciphertext_blob;
      encryption_context = context;
      created_at = now;
    } in
    let (cache, heap) =
      DataKeyCache.put cache_key (some w.next) now w.manager.data_key_cache
        (write w.heap w.next data_key) in
    (
      ok w.next,
      record {
        manager = record w.manager { data_key_cache = cache };
        heap = heap;
        next = w.next + 1;
      },
    )

module _ (hex_sha256 : Bytes → Bytes) where
  -- `GenerateDataKey`; `context` lists the map in the order in which `range` visits it
  unfoldable pub generate_data_key : Bytes → Dict Bytes → ℕ → World → Result Error ℕ × World
  unfolding check_generated install
  generate_data_key key_id context now w = elim (enabled_client w.manager) [
    | err e ↦ (err e, w)
    | ok client ↦
        if is_empty key_id
        then (err empty_key_id, w)
        else let cache_key = build_data_key_cache_key hex_sha256 key_id context in
          elim (DataKeyCache.get cache_key now w.manager.data_key_cache) [
            | some p ↦ (ok p, w)
            | none ↦
                install cache_key key_id context now w
                  (check_generated (client.generate_data_key now key_id context))
          ]
  ]

-- the end of `DecryptDataKey`: the data key is handed to the caller and not cached
decrypted_key :
    Bytes → Dict Bytes → ℕ → Result (Unit {0}) (Option DecryptedKey) → Result Error DataKey
decrypted_key blob context now (err _) = err decrypt_failed
decrypted_key blob context now (ok none) = err invalid_response
decrypted_key blob context now (ok (some r)) =
    if is_empty r.plaintext
    then err invalid_response
    else ok (record {
      key_id = elim r.key_id [ none ↦ [] | some k ↦ k ];
      plaintext_key = r.plaintext;
      ciphertext_blob = blob;
      encryption_context = context;
      created_at = now;
    })

-- `DecryptDataKey`
unfoldable pub decrypt_data_key : Bytes → Dict Bytes → ℕ → Manager → Result Error DataKey
unfolding decrypted_key
decrypt_data_key blob context now m = do
  client ← enabled_client m
  guard (not (is_empty blob)) empty_blob
  decrypted_key blob context now (client.decrypt now blob context)

-- `GetKeyRotationStatus`
unfoldable pub get_key_rotation_status : Bytes → ℕ → Manager → Result Error Bool
unfolding is_empty
get_key_rotation_status key_id now m = do
  client ← enabled_client m
  guard (not (is_empty key_id)) empty_key_id
  map_err (λ _. rotation_failed) (client.get_key_rotation_status now key_id)

-- `EnableKeyRotation`
unfoldable pub enable_key_rotation : Bytes → ℕ → Manager → Result Error (Unit {0})
unfolding is_empty
enable_key_rotation key_id now m = do
  client ← enabled_client m
  guard (not (is_empty key_id)) empty_key_id
  map_err (λ _. rotation_failed) (client.enable_key_rotation now key_id)

-- `Close`; a manager that is disabled has no cache to close, and an empty one stands for it
unfoldable pub close_manager : Manager → Heap → Manager × Heap
close_manager m h =
    let (cache, h') = DataKeyCache.close m.data_key_cache h in
    (record m { data_key_cache = cache; key_cache = [] }, h')

abbrev empty_cache : DataKeyCache
empty_cache = record { cache = []; ttl = 0; stopped = false }

validated : Manager → Result Error KeyInfo × Manager → Result Error Manager
validated m (err e, m') = err (validate_default_failed e)
validated m (ok info, m') = ok m'

-- `New`; `load` reads the AWS configuration of a region, and is `none` where that fails
unfoldable pub new_manager : (Bytes → Option Client) → Option Config → ℕ → Result Error Manager
unfolding validate_key is_empty validated
new_manager load none now = err config_nil
new_manager load (some cfg) now =
    if not cfg.enabled
    then ok
        (record { client = none; config = some cfg; key_cache = []; data_key_cache = empty_cache })
    else elim (load cfg.region) [
      | none ↦ err load_config_failed
      | some client ↦
          let m : Manager = record {
            client = some client;
            config = some cfg;
            key_cache = [];
            data_key_cache = new_data_key_cache cfg.data_key_cache_ttl;
          } in
          if cfg.validate_keys && not (is_empty cfg.default_key_id)
          then validated m (validate_key cfg.default_key_id now m)
          else ok m
    ]

-- the key and the encryption context that `GetEncryptionHeaders` settles on
unfoldable pub chosen_key : Config → Option BucketKmsConfig → Bytes × Dict Bytes
chosen_key cfg none = (cfg.default_key_id, cfg.encryption_context)
chosen_key cfg (some b) =
    if is_empty b.key_id then (cfg.default_key_id, cfg.encryption_context) else (
      b.key_id,
      if b.override_default || not (is_empty_dict b.encryption_context)
          then b.encryption_context
          else cfg.encryption_context,
    )

abbrev pub algorithm_header : Bytes
algorithm_header = lit "x-amz-server-side-encryption"

abbrev pub key_id_header : Bytes
key_id_header = lit "x-amz-server-side-encryption-aws-kms-key-id"

abbrev pub context_header : Bytes
context_header = lit "x-amz-server-side-encryption-context"

set_if_filled : Bytes → Bytes → Dict Bytes → Dict Bytes
set_if_filled name value headers = if is_empty value then headers else insert name value headers

headers_for : Bytes → Dict Bytes → Dict Bytes
headers_for key_id context =
    set_if_filled context_header (serialize_encryption_context context)
      (set_if_filled key_id_header key_id (insert algorithm_header (lit "aws:kms") []))

abbrev settled : Option BucketKmsConfig → Bool → Option Config → Option (Dict Bytes)
settled bucket_config enabled none = none
settled bucket_config enabled (some cfg) =
    let (key_id, context) = chosen_key cfg bucket_config in
    if enabled then some (headers_for key_id context) else none

-- `GetEncryptionHeaders`
unfoldable pub get_encryption_headers : Option BucketKmsConfig → Manager → Option (Dict Bytes)
unfolding is_enabled is_empty chosen_key headers_for set_if_filled
get_encryption_headers bucket_config m = settled bucket_config (is_enabled m) m.config

abbrev pub context_part : Bytes → Dict Bytes
context_part c = if is_empty c then [] else (context_header, c) ∷ []

-- The headers of a manager that is enabled, where a key is chosen.
pub get_encryption_headers_lem :
    (m : Manager) (cfg : Config) (b : Option BucketKmsConfig)
    → m.config ≡ some cfg
    → is_enabled m ≡ true
    → is_empty (chosen_key cfg b).0 ≡ false
    → get_encryption_headers b m
      ≡ some (
          (algorithm_header, lit "aws:kms")
          ∷ (key_id_header, (chosen_key cfg b).0)
          ∷ context_part (serialize_encryption_context (chosen_key cfg b).1))
unfolding get_encryption_headers headers_for set_if_filled insert beq
get_encryption_headers_lem m cfg b set on filled =
    ap (λ e. settled b e m.config) on
    ∙ ap (settled b true) set
    ∙ elim (Bool-cases (is_empty (serialize_encryption_context (chosen_key cfg b).1))) [
      | inl none_set ↦ rw (filled, none_set) refl
      | inr some_set ↦ rw (filled, some_set) refl
    ]
