-- ===== src/Remote/Clients.antt =====
-- internal/storage/s3.go: a client of the SDK for each region and endpoint. The client that the SDK makes
-- of its settings is a parameter.
pub mod Shared
pub mod Again
use s3proxy_go.Base.{
  ℕ, Bool, true, false, if◌then◌else◌, not, ◌&&◌, Bytes, beq, lit, Dict, lookup, insert, is_empty,
  List, [], ◌∷◌, ◌++◌, Option, none, some, Result, ok, err, map_err,
}
use s3proxy_go.Remote.Buckets.{BucketConfig, S3StorageConfig}

-- `aws.Config`, as far as it is filled in here; `none` is nil
pub record AwsConfig : Type 0 where
  pub region : Bytes
  pub endpoint : Option Bytes
  pub force_path_style : Bool
  pub max_retries : ℕ
  pub disable_ssl : Option Bool
  pub credentials : Option (Bytes × Bytes)

unfoldable pub client_key : BucketConfig → Bytes
unfolding is_empty
client_key b = if is_empty b.endpoint then b.region else b.endpoint ++ lit "_" ++ b.region

unfoldable pub both : Bytes → Bytes → Option (Bytes × Bytes) → Option (Bytes × Bytes)
unfolding is_empty
both access secret other =
    if not (is_empty access) && not (is_empty secret) then some (access, secret) else other

unfoldable pub aws_config : S3StorageConfig → BucketConfig → AwsConfig
unfolding both is_empty
aws_config c b = record {
  region = b.region;
  endpoint =
      if not (is_empty b.endpoint)
      then some b.endpoint
      else if not (is_empty c.endpoint)
      then some c.endpoint
      else none;
  force_path_style = c.use_path_style;
  max_retries = 3;
  disable_ssl = if c.disable_ssl then some true else none;
  credentials = both b.access_key b.secret_key (both c.access_key c.secret_key none);
}

-- the first configuration, in the order in which the map is gone through, of which this is the real bucket
unfoldable pub config_of_real : Bytes → Dict BucketConfig → Option BucketConfig
unfolding beq
config_of_real bucket [] = none
config_of_real bucket ((name, b) ∷ m) =
    if beq b.real_name bucket then some b else config_of_real bucket m

abbrev or_real : Bytes → Dict BucketConfig → Option BucketConfig → Option BucketConfig
or_real bucket configs none = config_of_real bucket configs
or_real bucket configs (some b) = some b

-- the configuration whose client serves a bucket
unfoldable pub client_config : S3StorageConfig → Bytes → Option BucketConfig
unfolding lookup config_of_real
client_config c bucket = or_real bucket c.bucket_configs (lookup bucket c.bucket_configs)

module _ {Client : Type 0} (new_client : AwsConfig → Result Bytes Client)
    (c : S3StorageConfig) where
  abbrev created : Bytes → Dict Client → Result Bytes Client → Result Bytes Client × Dict Client
  created key clients (ok client) = (ok client, insert key client clients)
  created key clients (err e) = (err e, clients)

  abbrev or_created :
      Bytes → Dict Client → Result Bytes Client → Option Client → Result Bytes Client × Dict Client
  or_created key clients made none = created key clients made
  or_created key clients made (some client) = (ok client, clients)

  unfoldable pub get_or_create_client :
      BucketConfig → Dict Client → Result Bytes Client × Dict Client
  unfolding lookup insert
  get_or_create_client b clients =
      or_created (client_key b) clients
        (map_err (λ e. lit "failed to create AWS session for region " ++ b.region ++ lit ": " ++ e)
          (new_client (aws_config c b)))
        (lookup (client_key b) clients)

  abbrev or_default : Client → Dict Client → Option BucketConfig → Result Bytes Client × Dict Client
  or_default default_client clients none = (ok default_client, clients)
  or_default default_client clients (some b) = get_or_create_client b clients

  -- the client of a bucket; a bucket with no configuration has the default one
  unfoldable pub get_client_for_bucket :
      Client → Bytes → Dict Client → Result Bytes Client × Dict Client
  unfolding get_or_create_client client_config
  get_client_for_bucket default_client bucket clients =
      or_default default_client clients (client_config c bucket)
