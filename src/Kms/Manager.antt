-- ===== src/Kms/Manager.antt =====
-- internal/kms/manager.go: `Manager`. The AWS client is a record of functions of the time of the call
-- and the request; one call of a method reads the clock once.
pub mod DataKeys
pub mod Allocation
pub mod Miss
pub mod Validation
pub mod Sharing
use s3proxy_go.Base.{
  ℕ, ◌+◌, ◌-◌, ◌*◌, ◌==◌, ltb, ◌<◌, if◌then◌else◌, ◌&&◌, ◌||◌, not, Bool, true, false, Option, none,
  some, List, [], ◌∷◌, ◌++◌, map, length, Bytes, is_empty, beq, Dict, lookup, insert, delete, ℤ,
  pos, negsuc, String, lit, Result, ok, err, guard, map_err, ◌>>=◌, ◌>>◌,
}
use s3proxy_go.Kms.DataKeyCache
use s3proxy_go.Kms.DataKeyCache.{
  DataKey, Heap, DataKeyCache, write, new_data_key_cache, build_data_key_cache_key,
  serialize_encryption_context, close,
}

pub data Error : Type 0 where
  config_nil load_config_failed not_enabled empty_key_id empty_blob : Error
  describe_failed metadata_nil key_not_enabled no_encryption insufficient_permissions : Error
  generate_failed invalid_response decrypt_failed rotation_failed : Error
  validate_default_failed : Error → Error

-- pointers to strings that may be nil are options
pub record KeyMetadata : Type 0 where
  pub key_state : Bytes
  pub key_id : Option Bytes
  pub arn : Option Bytes
  pub description : Option Bytes
  pub key_spec : Bytes
  pub key_usage : Bytes

pub record GeneratedKey : Type 0 where
  pub plaintext : Bytes
  pub ciphertext_blob : Bytes

pub record DecryptedKey : Type 0 where
  pub plaintext : Bytes
  pub key_id : Option Bytes

-- `kms.Client` of the AWS SDK; `err tt` is an error of the service, `ok none` a nil response
pub record Client : Type 0 where
  pub describe_key : ℕ → Bytes → Result (Unit {0}) (Option KeyMetadata)
  pub generate_data_key : ℕ → Bytes → Dict Bytes → Result (Unit {0}) (Option GeneratedKey)
  pub decrypt : ℕ → Bytes → Dict Bytes → Result (Unit {0}) (Option DecryptedKey)
  pub get_key_rotation_status : ℕ → Bytes → Result (Unit {0}) Bool
  pub enable_key_rotation : ℕ → Bytes → Result (Unit {0}) (Unit {0})

pub record Config : Type 0 where
  pub enabled : Bool
  pub default_key_id : Bytes
  pub region : Bytes
  pub encryption_context : Dict Bytes
  pub data_key_cache_ttl : ℤ
  pub validate_keys : Bool

pub record KeyInfo : Type 0 where
  pub key_id : Bytes
  pub arn : Bytes
  pub key_spec : Bytes
  pub enabled : Bool
  pub description : Bytes
  pub last_validated : ℕ
  pub supports_encrypt : Bool
  pub supports_decrypt : Bool

pub record BucketKmsConfig : Type 0 where
  pub key_id : Bytes
  pub encryption_context : Dict Bytes
  pub override_default : Bool

pub record Manager : Type 0 where
  pub client : Option Client
  pub config : Option Config
  pub key_cache : Dict KeyInfo
  pub data_key_cache : DataKeyCache

-- the manager with the memory that it shares with its callers: `next` is the first free address
pub record World : Type 0 where
  pub manager : Manager
  pub heap : Heap
  pub next : ℕ

enabled_with : Option Config → Option Client → Bool
enabled_with none client = false
enabled_with (some cfg) none = false
enabled_with (some cfg) (some _) = cfg.enabled

-- `IsEnabled`
unfoldable pub is_enabled : Manager → Bool
unfolding enabled_with
is_enabled m = enabled_with m.config m.client

-- the client of a manager that is enabled, or the error that every method returns without one
unfoldable pub enabled_client : Manager → Result Error Client
enabled_client m = elim m.config [
  | none ↦ err not_enabled
  | some cfg ↦ elim m.client [
    | none ↦ err not_enabled
    | some client ↦ if cfg.enabled then ok client else err not_enabled
  ]
]

abbrev pub hour : ℕ
hour = 3600 * 1000000000

abbrev text_or_empty : Option Bytes → Bytes
text_or_empty none = []
text_or_empty (some s) = s

unfoldable pub key_info : ℕ → KeyMetadata → KeyInfo
key_info now meta =
    let usable = beq meta.key_usage (lit "ENCRYPT_DECRYPT") in
    record {
      key_id = text_or_empty meta.key_id;
      arn = text_or_empty meta.arn;
      key_spec = meta.key_spec;
      enabled = beq meta.key_state (lit "Enabled");
      description = text_or_empty meta.description;
      last_validated = now;
      supports_encrypt = usable;
      supports_decrypt = usable;
    }

non_nil {ℓ κ} : {E : Type ℓ} {A : Type κ} → E → Option A → Result E A
non_nil e none = err e
non_nil e (some a) = ok a

-- the part of `ValidateKey` below its cache
unfoldable pub describe : Client → Bytes → ℕ → Result Error KeyInfo
unfolding key_info non_nil
describe client key_id now = do
  response ← map_err (λ _. describe_failed) (client.describe_key now key_id)
  meta ← non_nil metadata_nil response
  let info = key_info now meta
  guard info.enabled key_not_enabled
  guard info.supports_encrypt no_encryption
  _ ← map_err (λ _. insufficient_permissions) (client.generate_data_key now key_id [])
  ok info

-- an entry of the cache counts for an hour
unfoldable pub cached_info : Bytes → ℕ → Manager → Option KeyInfo
cached_info key_id now m = elim (lookup key_id m.key_cache) [
  | none ↦ none
  | some info ↦ if ltb (now - info.last_validated) hour then some info else none
]

remember_info : Bytes → Manager → Result Error KeyInfo → Result Error KeyInfo × Manager
remember_info key_id m (err e) = (err e, m)
remember_info key_id m (ok info) =
    (ok info, record m { key_cache = insert key_id info m.key_cache })

-- `ValidateKey`
unfoldable pub validate_key : Bytes → ℕ → Manager → Result Error KeyInfo × Manager
unfolding is_empty remember_info
validate_key key_id now m = elim (enabled_client m) [
  | err e ↦ (err e, m)
  | ok client ↦ if is_empty key_id then (err empty_key_id, m) else elim (cached_info key_id now m) [
    | some info ↦ (ok info, m)
    | none ↦ remember_info key_id m (describe client key_id now)
  ]
]
