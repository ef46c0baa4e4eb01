-- ===== src/Kms/Examples.antt =====
-- Concrete caches, clients and requests for the theorems about internal/kms, and runs of its code.
use s3proxy_go.Base.{
  ℕ, true, false, Option, none, some, [], ◌∷◌, ◌++◌, Bytes, is_empty, beq, lookup, lit, ok, err,
  ◌≡◌, refl, arith, pos,
}
use s3proxy_go.Kms.DataKeyCache.{
  DataKey, Heap, DataKeyCache, CacheEntry, wipe, get, put, clear, cleanup, close,
  build_data_key_cache_key,
}
use s3proxy_go.Kms.DataKeyCache.Reads.{get-close_or_clear}
use s3proxy_go.Kms.DataKeyCache.Distinct.{get-cleanup}
use s3proxy_go.Kms.DataKeyCache.Secrets.{put-heap, wiped_if, points_to}
use s3proxy_go.Kms.Manager
use s3proxy_go.Kms.Manager.{
  Client, KeyMetadata, GeneratedKey, DecryptedKey, Config, World, KeyInfo, validate_key, is_enabled,
  enabled_client, describe, cached_info, hour, key_info,
}
use s3proxy_go.Kms.Manager.Miss.{IsMiss, cache_of}
use s3proxy_go.Kms.Manager.Sharing.{
  generate_data_key-generate_data_key, cleanup_zeroes_returned_key, build_data_key_cache_key_shift,
}
use s3proxy_go.Kms.Manager.Validation.{IsUsable, AllUsable, validate_key-IsUsable}
use s3proxy_go.Kms.Manager.DataKeys.{generate_data_key}
use s3proxy_go.Kms.Envelope.{Gcm, EncryptedData, encrypt, decrypt, seal_under, is_key_length}
use s3proxy_go.Kms.Envelope.Reuse.{encrypt-encrypt_zero_key}
use s3proxy_go.Kms.Envelope.RoundTrip.{decrypt-encrypt}

abbrev key_bytes : Bytes
key_bytes = 1 ∷ 2 ∷ 3 ∷ 4 ∷ 5 ∷ 6 ∷ 7 ∷ 8 ∷ 9 ∷ 10 ∷ 11 ∷ 12 ∷ 13 ∷ 14 ∷ 15 ∷ 16 ∷ []

abbrev zero_bytes : Bytes
zero_bytes = 0 ∷ 0 ∷ 0 ∷ 0 ∷ 0 ∷ 0 ∷ 0 ∷ 0 ∷ 0 ∷ 0 ∷ 0 ∷ 0 ∷ 0 ∷ 0 ∷ 0 ∷ 0 ∷ []

abbrev blob : Bytes
blob = 7 ∷ 7 ∷ []

abbrev sample_key : DataKey
sample_key = record {
  key_id = lit "k";
  plaintext_key = key_bytes;
  ciphertext_blob = blob;
  encryption_context = [];
  created_at = 0;
}

abbrev heap : Heap
heap p = sample_key

abbrev entry : CacheEntry
entry = record { data_key = some 4; expires_at = 20 }

abbrev one_entry : DataKeyCache
one_entry = record { cache = (lit "k", some entry) ∷ []; ttl = 10; stopped = false }

get-close_or_clear_example :
    (get (lit "k") 15 (close one_entry heap).0 ≡ none)
    × (get (lit "k") 15 (clear one_entry heap).0 ≡ none)
get-close_or_clear_example = get-close_or_clear (lit "k") 15 one_entry heap refl

get-cleanup_example : get (lit "k") 18 (cleanup 15 one_entry heap).0 ≡ get (lit "k") 18 one_entry
unfolding lookup
get-cleanup_example = get-cleanup (lit "k") 15 18 one_entry heap (omega arith) (refl, tt)

put-heap_example :
    (put (lit "k") (some 5) 15 one_entry heap).1 4
    ≡ wiped_if (points_to 4 (lookup (lit "k") one_entry.cache)) (heap 4)
unfolding is_empty
put-heap_example = put-heap (lit "k") 5 15 one_entry heap 4 refl

-- a service whose one key is enabled, and which answers every request
abbrev meta : KeyMetadata
meta = record {
  key_state = lit "Enabled";
  key_id = some (lit "k");
  arn = none;
  description = none;
  key_spec = [];
  key_usage = lit "ENCRYPT_DECRYPT";
}

abbrev generated : GeneratedKey
generated = record { plaintext = key_bytes; ciphertext_blob = blob }

abbrev decrypted : DecryptedKey
decrypted = record { plaintext = key_bytes; key_id = none }

abbrev service : Client
service = record {
  describe_key = λ _ _. ok (some meta);
  generate_data_key = λ _ _ _. ok (some generated);
  decrypt = λ _ _ _. ok (some decrypted);
  get_key_rotation_status = λ _ _. ok true;
  enable_key_rotation = λ _ _. ok tt;
}

abbrev settings : Config
settings = record {
  enabled = true;
  default_key_id = lit "k";
  region = [];
  encryption_context = [];
  data_key_cache_ttl = pos 10;
  validate_keys = false;
}

abbrev manager : Manager.Manager
manager = record {
  client = some service;
  config = some settings;
  key_cache = [];
  data_key_cache = record { cache = []; ttl = 10; stopped = false };
}

abbrev pub world : World
world = record { manager = manager; heap = heap; next = 0 }

-- any function into filled texts serves for the hash
abbrev hash : Bytes → Bytes
hash s = 0 ∷ s

abbrev info : KeyInfo
info = record {
  key_id = lit "k";
  arn = [];
  key_spec = [];
  enabled = true;
  description = [];
  last_validated = 5;
  supports_encrypt = true;
  supports_decrypt = true;
}

validated : (validate_key (lit "k") 5 manager).0 ≡ ok info
unfolding validate_key enabled_client cached_info describe lookup is_empty beq
validated = refl

validate_key-IsUsable_example :
    IsUsable info × AllUsable (validate_key (lit "k") 5 manager).1.key_cache
validate_key-IsUsable_example = validate_key-IsUsable (lit "k") 5 manager info tt validated

no_key_id : (validate_key [] 5 manager).0 ≡ err Manager.empty_key_id
unfolding validate_key enabled_client is_empty
no_key_id = refl

miss : IsMiss hash (lit "k") [] 5 world service generated
unfolding is_empty enabled_client get lookup
miss = record {
  hash_filled = λ s. refl;
  on = refl;
  filled = refl;
  miss = ground arith;
  answer = refl;
  plaintext_filled = refl;
  blob_filled = refl;
}

generate_data_key-generate_data_key_example :
    generate_data_key hash (lit "k") [] 15 (generate_data_key hash (lit "k") [] 5 world).1
    ≡ (ok 0, (generate_data_key hash (lit "k") [] 5 world).1)
unfolding is_empty
generate_data_key-generate_data_key_example =
    generate_data_key-generate_data_key miss (lit "k") [] 15 refl refl (omega arith)

cleanup_zeroes_returned_key_example :
    ((generate_data_key hash (lit "k") [] 5 world).0 ≡ ok 0)
    × ((cleanup 16
            (cache_of (generate_data_key hash (lit "k") [] 5 world).1)
            (generate_data_key hash (lit "k") [] 5 world).1.heap).1
          0
        ≡ wipe ((generate_data_key hash (lit "k") [] 5 world).1.heap 0))
cleanup_zeroes_returned_key_example = cleanup_zeroes_returned_key miss 16 (omega arith)

build_data_key_cache_key_shift_example :
    build_data_key_cache_key hash (lit "k" ++ lit "e") ((lit "y", lit "v") ∷ [])
    ≡ build_data_key_cache_key hash (lit "k") ((lit "e" ++ lit "y", lit "v") ∷ [])
unfolding is_empty
build_data_key_cache_key_shift_example =
    build_data_key_cache_key_shift hash (lit "k") (lit "e") (lit "y") (lit "v") [] refl

pub filled_cons : (x : ℕ) (b : Bytes) → is_empty (x ∷ b) ≡ false
unfolding is_empty
filled_cons x b = refl

-- a cipher that hides nothing: it puts the key's first byte in front
abbrev pub tag : Bytes → ℕ
tag [] = 0
tag (x ∷ key) = x

abbrev pub untag : Bytes → Option Bytes
untag [] = none
untag (x ∷ text) = some text

abbrev pub plain : Gcm
plain = record {
  seal = λ key nonce text. tag key ∷ text;
  open_sealed = λ key nonce text. untag text;
  open-seal = λ key nonce text. refl;
  seal_filled = λ key nonce text. filled_cons (tag key) text;
}

abbrev pub nonce : Bytes
nonce = 1 ∷ 1 ∷ 1 ∷ 1 ∷ 1 ∷ 1 ∷ 1 ∷ 1 ∷ 1 ∷ 1 ∷ 1 ∷ 1 ∷ []

encrypt-encrypt_zero_key_example :
    (encrypt plain hash
      (lit "two")
      (lit "k")
      []
      9
      (some nonce)
      (encrypt plain hash (lit "one") (lit "k") [] 5 (some nonce) world).1).0
    ≡ seal_under plain
        (record {
          key_id = lit "k";
          plaintext_key = zero_bytes;
          ciphertext_blob = blob;
          encryption_context = [];
          created_at = 5;
        })
        (lit "two")
        []
        (some nonce)
unfolding is_empty
encrypt-encrypt_zero_key_example =
    encrypt-encrypt_zero_key plain miss (lit "one") (some nonce) refl (lit "two") (some nonce) 9 tt
      refl (omega arith)

decrypt-encrypt_example :
    (encrypted : EncryptedData) × ((encrypt plain hash
        (lit "one")
        (lit "k")
        []
        5
        (some nonce)
        world).0
      ≡ ok encrypted)
    × (decrypt plain encrypted 9
          (encrypt plain hash (lit "one") (lit "k") [] 5 (some nonce) world).1.manager
        ≡ ok (lit "one"))
unfolding is_empty is_key_length
decrypt-encrypt_example =
    decrypt-encrypt plain miss (lit "one") nonce 9 decrypted tt refl refl refl refl refl
