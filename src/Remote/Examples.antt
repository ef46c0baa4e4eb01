-- ===== src/Remote/Examples.antt =====
-- The theorems on the S3 backend at concrete values.
use s3proxy_go.Base.{
  true, false, Bytes, lit, index, List, [], ◌∷◌, ◌++◌, none, some, Result, ok, err, ◌≡◌, refl,
  arith, pos, has_suffix,
}
use s3proxy_go.Storage.Backend.{Reader, ObjectInfo}
use s3proxy_go.Remote.Buckets.{
  BucketConfig, S3StorageConfig, get_prefix_for_bucket, add_prefix_to_key,
}
use s3proxy_go.Remote.Clients.{AwsConfig, aws_config}
use s3proxy_go.Remote.Decoding.{decoded, trailer, header_end}
use s3proxy_go.Remote.Decoding.Plain.{concat, decoded_plain, decoded_cut}
use s3proxy_go.Remote.Sdk.{Sdk, GetObjectOutput, ListObjectsOutput, SdkObject}
use s3proxy_go.Remote.State.{Setting, S3State}
use s3proxy_go.Remote.Objects.{get_object}
use s3proxy_go.Remote.Parts.{put_object, send_parts}
use s3proxy_go.Remote.Parts.Pieces.{AreParts, send_each, send_parts_lem}

-- one bucket, "v", for what is under "team/" in the bucket "real"
abbrev virtual : BucketConfig
virtual = record {
  real_name = lit "real";
  prefix = lit "team";
  region = lit "eu";
  endpoint = [];
  access_key = lit "A";
  secret_key = lit "S";
  kms_key_id = [];
  kms_encryption_context = [];
}

abbrev settings : S3StorageConfig
settings = record {
  endpoint = [];
  region = lit "eu";
  access_key = [];
  secret_key = [];
  profile = [];
  use_path_style = true;
  disable_ssl = false;
  bucket_mapping = [];
  bucket_configs = (lit "v", virtual) ∷ (lit "w", record virtual { access_key = lit "B" }) ∷ [];
}

-- a service that keeps the content of the object that was put last, in one block
abbrev World : Type 0
World = Bytes

abbrev response : Bytes → GetObjectOutput
response content = record {
  blocks = content ∷ [];
  fails = false;
  content_type = none;
  content_length = none;
  etag = none;
  last_modified = none;
  metadata = [];
  server_side_encryption = none;
  sse_kms_key_id = none;
}

abbrev no_answer : {A : Type 0} → World → Result Bytes A × World
no_answer w = (err (lit "no answer"), w)

abbrev last_object : Sdk AwsConfig World
last_object = record {
  list_buckets = λ client w. no_answer w;
  create_bucket = λ client bucket w. no_answer w;
  delete_bucket = λ client bucket w. no_answer w;
  head_bucket = λ client bucket w. no_answer w;
  list_objects = λ client input w. no_answer w;
  get_object = λ client bucket key w. (ok (response w), w);
  put_object = λ client input w. (ok tt, input.body.content);
  delete_object = λ client bucket key w. no_answer w;
  head_object = λ client bucket key w. no_answer w;
  get_object_acl = λ client bucket key w. no_answer w;
  create_multipart_upload = λ client input w. (ok (some (lit "u")), w);
  upload_part = λ client input w. (ok (some (lit "e")), w ++ input.body);
  complete_multipart_upload = λ client bucket key upload_id parts w. (ok tt, w);
  abort_multipart_upload = λ client bucket key upload_id w. (ok tt, w);
  list_parts = λ client input w. no_answer w;
}

abbrev s3 : Setting AwsConfig World
s3 = record {
  config = settings;
  default_client = aws_config settings virtual;
  new_client = λ c. ok c;
  sdk = last_object;
  read_size = 32768;
}

abbrev info : ObjectInfo
info = record {
  key = lit "k";
  size = pos 1;
  etag = [];
  last_modified = 0;
  storage_class = [];
  content_type = [];
  metadata = [];
}

abbrev start : S3State AwsConfig World
start = record {
  clients = [];
  metadata_cache = record {
    entries = (lit "v/k", record { info = info; expiry = 40 }) ∷ [];
    ttl = 30;
  };
  now = 10;
  world = [];
}

abbrev client : AwsConfig
client = aws_config settings virtual

abbrev hello : Reader
hello = record { seekable = true; content = lit "hello"; fails = false }

decoded_plain_example : decoded 4 (lit "hel" ∷ lit "lo" ∷ []) ≡ lit "hello"
unfolding header_end index has_suffix
decoded_plain_example =
    decoded_plain 4 (lit "hel" ∷ lit "lo" ∷ []) (omega arith) (refl, refl, (refl, refl, tt))

decoded_cut_example : decoded 4 ((lit "hello" ++ trailer) ∷ []) ≡ lit "hell"
unfolding header_end index
decoded_cut_example = decoded_cut 4 (lit "hello") refl

send_parts_lem_example :
    (ps : List Bytes) × (concat ps ≡ lit "hello")
    × AreParts 2 ps
    × (send_parts s3 6 2 client (lit "real") (lit "k") (some (lit "u")) 1 (lit "hello") false
        ≡ send_each s3 client (lit "real") (lit "k") (some (lit "u")) 1 ps)
send_parts_lem_example =
    send_parts_lem s3 client (lit "real") (lit "k") (some (lit "u")) 6 2 1 (lit "hello")
      (omega arith) (omega arith)

abbrev listed : Bytes → SdkObject
listed key = record {
  key = some key;
  size = none;
  etag = none;
  last_modified = none;
  storage_class = none;
}

abbrev page : ListObjectsOutput
page = record {
  is_truncated = none;
  contents = listed (lit "team/a") ∷ listed (lit "other/b") ∷ [];
  next_marker = none;
  common_prefixes = [];
}

slash_is_lost :
    add_prefix_to_key settings (lit "v") (lit "/k") ≡ add_prefix_to_key settings (lit "v") (lit "k")
unfolding add_prefix_to_key get_prefix_for_bucket
slash_is_lost = refl
