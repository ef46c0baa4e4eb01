-- ===== src/Remote/Buckets.antt =====
-- internal/storage/s3.go: virtual buckets, which stand for a prefix of a real bucket.
pub mod Prefixes
use s3proxy_go.Base.{
  Bool, if◌then◌else◌, not, ◌&&◌, Bytes, lit, Dict, lookup, is_empty, has_prefix, has_suffix, List,
  [], ◌∷◌, ◌++◌, Option, none, some, length, drop,
}

-- internal/config/config.go
pub record BucketConfig : Type 0 where
  pub real_name : Bytes
  pub prefix : Bytes
  pub region : Bytes
  pub endpoint : Bytes
  pub access_key : Bytes
  pub secret_key : Bytes
  pub kms_key_id : Bytes
  pub kms_encryption_context : Dict Bytes

pub record S3StorageConfig : Type 0 where
  pub endpoint : Bytes
  pub region : Bytes
  pub access_key : Bytes
  pub secret_key : Bytes
  pub profile : Bytes
  pub use_path_style : Bool
  pub disable_ssl : Bool
  pub bucket_mapping : Dict Bytes
  pub bucket_configs : Dict BucketConfig

-- the simple mapping of names
unfoldable pub mapped : Dict Bytes → Bytes → Bytes
unfolding lookup
mapped mapping bucket = elim (lookup bucket mapping) [ none ↦ bucket | some real ↦ real ]

unfoldable pub map_bucket : S3StorageConfig → Bytes → Bytes
unfolding lookup is_empty mapped
map_bucket c bucket = elim (lookup bucket c.bucket_configs) [
  | none ↦ mapped c.bucket_mapping bucket
  | some cfg ↦ if is_empty cfg.real_name then mapped c.bucket_mapping bucket else cfg.real_name
]

-- a prefix ends in a slash
unfoldable pub with_slash : Bytes → Bytes
unfolding is_empty has_suffix
with_slash prefix =
    if is_empty prefix
    then []
    else if has_suffix prefix (lit "/")
    then prefix
    else prefix ++ lit "/"

unfoldable pub get_prefix_for_bucket : S3StorageConfig → Bytes → Bytes
unfolding lookup with_slash
get_prefix_for_bucket c bucket = elim (lookup bucket c.bucket_configs) [
  | none ↦ []
  | some cfg ↦ with_slash cfg.prefix
]

-- `strings.TrimPrefix`
unfoldable pub trim_prefix : Bytes → Bytes → Bytes
unfolding has_prefix
trim_prefix s prefix = if has_prefix s prefix then drop (length prefix) s else s

unfoldable pub prefixed : Bytes → Bytes → Bytes
unfolding is_empty has_prefix
prefixed prefix key =
    if is_empty prefix
    then key
    else if has_prefix key (lit "/")
    then prefix ++ drop 1 key
    else prefix ++ key

unfoldable pub add_prefix_to_key : S3StorageConfig → Bytes → Bytes → Bytes
unfolding prefixed
add_prefix_to_key c bucket key = prefixed (get_prefix_for_bucket c bucket) key

unfoldable pub remove_prefix_from_key : S3StorageConfig → Bytes → Bytes → Bytes
unfolding is_empty
remove_prefix_from_key c bucket key =
    let prefix = get_prefix_for_bucket c bucket in
    if is_empty prefix then key else trim_prefix key prefix

-- `GetBucketConfig`; `none` is nil
unfoldable pub get_bucket_config : S3StorageConfig → Bytes → Option BucketConfig
unfolding lookup
get_bucket_config c bucket = lookup bucket c.bucket_configs
