-- ===== src/S3/WithKms/Examples.antt =====
-- The theorems on pkg/s3/handler_kms.go at concrete values.
use s3proxy_go.Base.{
  true, false, none, some, [], ◌∷◌, Bytes, Dict, lit, pos, Result, ok, err, ◌≡◌, refl,
}
use s3proxy_go.Storage.Backend.{Reader}
use s3proxy_go.Storage.Memory.{Objects}
use s3proxy_go.Kms.Manager.{Manager, Config, Client}
use s3proxy_go.Kms.Manager.DataKeys.{key_id_header}
use s3proxy_go.Remote.Buckets.{BucketConfig, S3StorageConfig}
use s3proxy_go.Remote.Sdk.{Sdk}
use s3proxy_go.Remote.State.{Setting}
use s3proxy_go.S3.Http.{Request, value_of}
use s3proxy_go.S3.Route.{Method}
use s3proxy_go.S3.KmsRoute.{encrypted_upload, not_allowed, choice_of}

abbrev silent : Client
silent = record {
  describe_key = λ now key_id. err tt;
  generate_data_key = λ now key_id context. err tt;
  decrypt = λ now blob context. err tt;
  get_key_rotation_status = λ now key_id. err tt;
  enable_key_rotation = λ now key_id. err tt;
}

abbrev config : Config
config = record {
  enabled = true;
  default_key_id = lit "default";
  region = lit "eu";
  encryption_context = [];
  data_key_cache_ttl = pos 0;
  validate_keys = false;
}

abbrev manager : Manager
manager = record {
  client = some silent;
  config = some config;
  key_cache = [];
  data_key_cache = record { cache = []; ttl = 0; stopped = false };
}

-- a bucket "v" with a key of its own
abbrev bucket_config : BucketConfig
bucket_config = record {
  real_name = [];
  prefix = [];
  region = lit "eu";
  endpoint = [];
  access_key = [];
  secret_key = [];
  kms_key_id = lit "own";
  kms_encryption_context = [];
}

abbrev storage : S3StorageConfig
storage = record {
  endpoint = [];
  region = lit "eu";
  access_key = [];
  secret_key = [];
  profile = [];
  use_path_style = true;
  disable_ssl = false;
  bucket_mapping = [];
  bucket_configs = (lit "v", bucket_config) ∷ [];
}

abbrev body : Reader
body = record { seekable = true; content = lit "hi"; fails = false }

abbrev request : Dict Bytes → Request
request headers = record {
  method = lit "PUT";
  bucket = lit "v";
  key = lit "k";
  query = [];
  headers = headers;
  host = [];
  content_length = pos 2;
  body = body;
}

abbrev asked : Dict Bytes
asked = (lit "a", lit "b") ∷ (key_id_header, lit "theirs") ∷ []

abbrev quiet : {A : Type 0} → Unit {0} → Result Bytes A × Unit {0}
quiet w = (err (lit "no service"), w)

abbrev no_service : Sdk (Unit {0}) (Unit {0})
no_service = record {
  list_buckets = λ client w. quiet w;
  create_bucket = λ client bucket w. quiet w;
  delete_bucket = λ client bucket w. quiet w;
  head_bucket = λ client bucket w. quiet w;
  list_objects = λ client input w. quiet w;
  get_object = λ client bucket key w. quiet w;
  put_object = λ client input w. quiet w;
  delete_object = λ client bucket key w. quiet w;
  head_object = λ client bucket key w. quiet w;
  get_object_acl = λ client bucket key w. quiet w;
  create_multipart_upload = λ client input w. quiet w;
  upload_part = λ client input w. quiet w;
  complete_multipart_upload = λ client bucket key upload_id parts w. quiet w;
  abort_multipart_upload = λ client bucket key upload_id w. quiet w;
  list_parts = λ client input w. quiet w;
}

abbrev setting : Setting (Unit {0}) (Unit {0})
setting = record {
  config = storage;
  default_client = tt;
  new_client = λ c. ok tt;
  sdk = no_service;
  read_size = 32768;
}

abbrev nothing : Objects
nothing bucket key = none

-- the query of a request that starts an upload in parts has no value, and is not taken for one
start_of_upload : choice_of Method.post (lit "k") ((lit "uploads", []) ∷ []) ≡ not_allowed
unfolding choice_of value_of
start_of_upload = refl

plain_put : choice_of Method.put (lit "k/") [] ≡ encrypted_upload
unfolding choice_of value_of
plain_put = refl
