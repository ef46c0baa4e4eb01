-- ===== src/Remote/Backend.antt =====
-- internal/storage/s3.go: `S3Backend`, a storage backend over the calls of the SDK.
use s3proxy_go.Base.{ℕ, ◌*◌, []}
use s3proxy_go.Storage.Backend.{Backend}
use s3proxy_go.Remote.State.{Setting, S3State}
use s3proxy_go.Remote.Objects.{
  list_buckets, create_bucket, delete_bucket, bucket_exists, get_object, delete_object, head_object,
  get_object_acl, put_object_acl,
}
use s3proxy_go.Remote.Parts.{
  put_object, initiate_multipart_upload, upload_part, complete_multipart_upload,
  abort_multipart_upload, list_parts,
}
use s3proxy_go.Remote.Listing.{list_objects, list_objects_with_delimiter}

-- the state in which `NewS3Backend` leaves the backend
unfoldable pub new_s3_state : {Client World : Type 0} → ℕ → World → S3State Client World
new_s3_state now world = record {
  clients = [];
  metadata_cache = record { entries = []; ttl = 30 * 1000000000 };
  now = now;
  world = world;
}

unfoldable pub s3_backend :
    {Client World : Type 0} → Setting Client World → Backend (S3State Client World)
s3_backend s3 = record {
  list_buckets = list_buckets s3;
  create_bucket = create_bucket s3;
  delete_bucket = delete_bucket s3;
  bucket_exists = bucket_exists s3;
  list_objects = list_objects s3;
  list_objects_with_delimiter = list_objects_with_delimiter s3;
  get_object = get_object s3;
  put_object = put_object s3;
  delete_object = delete_object s3;
  head_object = head_object s3;
  get_object_acl = get_object_acl s3;
  put_object_acl = put_object_acl s3;
  initiate_multipart_upload = initiate_multipart_upload s3;
  upload_part = upload_part s3;
  complete_multipart_upload = complete_multipart_upload s3;
  abort_multipart_upload = abort_multipart_upload s3;
  list_parts = list_parts s3;
}
