-- ===== src/Storage/Reads.antt =====
-- Backends of internal/storage/backend.go whose reading methods change nothing.
use s3proxy_go.Base.{Bytes, ℤ, ◌≡◌}
use s3proxy_go.Storage.Backend.{Backend}

-- the methods of a backend that read leave its state as it was
pub record ReadsKeep {S : Type 0} (b : Backend S) : Type 0 where
  pub get_object : (bucket key : Bytes) (s : S) → (b.get_object bucket key s).1 ≡ s
  pub head_object : (bucket key : Bytes) (s : S) → (b.head_object bucket key s).1 ≡ s
  pub bucket_exists : (bucket : Bytes) (s : S) → (b.bucket_exists bucket s).1 ≡ s
  pub list_objects_with_delimiter :
      (bucket prefix marker delimiter : Bytes) (n : ℤ) (s : S)
      → (b.list_objects_with_delimiter bucket prefix marker delimiter n s).1 ≡ s
  pub get_object_acl : (bucket key : Bytes) (s : S) → (b.get_object_acl bucket key s).1 ≡ s
  pub list_parts :
      (bucket key upload_id : Bytes) (n marker : ℤ) (s : S)
      → (b.list_parts bucket key upload_id n marker s).1 ≡ s
