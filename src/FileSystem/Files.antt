-- ===== src/FileSystem/Files.antt =====
-- internal/storage/filesystem.go: `FileSystemBackend`, a storage backend over the disk.
use s3proxy_go.Storage.Backend.{Backend}
use s3proxy_go.FileSystem.Tree.{FilePath}
use s3proxy_go.FileSystem.Disk.{Disk, Host}
use s3proxy_go.FileSystem.Objects.{
  list_buckets, create_bucket, delete_bucket, bucket_exists, get_object, put_object, delete_object,
  head_object, get_object_acl, put_object_acl,
}
use s3proxy_go.FileSystem.Listing.{list_objects, list_objects_with_delimiter}
use s3proxy_go.FileSystem.Uploads.{
  initiate_multipart_upload, upload_part, complete_multipart_upload, abort_multipart_upload,
  list_parts,
}

unfoldable pub file_system : Host → FilePath → Backend Disk
file_system host base = record {
  list_buckets = list_buckets host base;
  create_bucket = create_bucket host base;
  delete_bucket = delete_bucket host base;
  bucket_exists = bucket_exists host base;
  list_objects = list_objects host base;
  list_objects_with_delimiter = list_objects_with_delimiter host base;
  get_object = get_object host base;
  put_object = put_object host base;
  delete_object = delete_object host base;
  head_object = head_object host base;
  get_object_acl = get_object_acl;
  put_object_acl = put_object_acl;
  initiate_multipart_upload = initiate_multipart_upload host base;
  upload_part = upload_part host base;
  complete_multipart_upload = complete_multipart_upload host base;
  abort_multipart_upload = abort_multipart_upload host base;
  list_parts = list_parts host base;
}
