-- ===== src/Storage/Backend.antt =====
-- internal/storage/backend.go: `Backend` and its data. A backend is a record of functions over its
-- state; every method returns the new state beside its result, and an error is its message.
use s3proxy_go.Base.{ℕ, Bool, Bytes, Dict, List, Option, ℤ, Result}

pub record BucketInfo : Type 0 where
  pub name : Bytes
  pub creation_date : ℕ

pub record ObjectInfo : Type 0 where
  pub key : Bytes
  pub size : ℤ
  pub etag : Bytes
  pub last_modified : ℕ
  pub storage_class : Bytes
  pub content_type : Bytes
  pub metadata : Dict Bytes

pub record ListObjectsResult : Type 0 where
  pub is_truncated : Bool
  pub contents : List ObjectInfo
  pub next_marker : Bytes
  pub common_prefixes : List Bytes

-- an `io.Reader`: whether it is an `io.Seeker` too, the bytes that it will give, and whether it then
-- fails or ends
pub record Reader : Type 0 where
  pub seekable : Bool
  pub content : Bytes
  pub fails : Bool

pub record Object : Type 0 where
  pub body : Reader
  pub content_type : Bytes
  pub size : ℤ
  pub etag : Bytes
  pub metadata : Dict Bytes
  pub last_modified : ℕ

pub record Owner : Type 0 where
  pub id : Bytes
  pub display_name : Bytes

pub record Grantee : Type 0 where
  pub kind : Bytes
  pub id : Bytes
  pub display_name : Bytes
  pub uri : Bytes

pub record Grant : Type 0 where
  pub grantee : Grantee
  pub permission : Bytes

pub record Acl : Type 0 where
  pub owner : Owner
  pub grants : List Grant

pub record CompletedPart : Type 0 where
  pub part_number : ℤ
  pub etag : Bytes

pub record Part : Type 0 where
  pub part_number : ℤ
  pub etag : Bytes
  pub size : ℤ
  pub last_modified : ℕ

pub record ListPartsResult : Type 0 where
  pub next_part_number_marker : ℤ
  pub is_truncated : Bool
  pub parts : List Part

abbrev pub Action : Type 0 → Type 0 → Type 0
Action S A = S → Result Bytes A × S

pub record Backend (S : Type 0) : Type 0 where
  pub list_buckets : Action S (List BucketInfo)
  pub create_bucket : Bytes → Action S (Unit {0})
  pub delete_bucket : Bytes → Action S (Unit {0})
  pub bucket_exists : Bytes → Action S Bool
  pub list_objects : Bytes → Bytes → Bytes → ℤ → Action S ListObjectsResult
  pub list_objects_with_delimiter : Bytes → Bytes → Bytes → Bytes → ℤ → Action S ListObjectsResult
  pub get_object : Bytes → Bytes → Action S Object
  pub put_object : Bytes → Bytes → Reader → ℤ → Dict Bytes → Action S (Unit {0})
  pub delete_object : Bytes → Bytes → Action S (Unit {0})
  pub head_object : Bytes → Bytes → Action S ObjectInfo
  pub get_object_acl : Bytes → Bytes → Action S Acl
  pub put_object_acl : Bytes → Bytes → Option Acl → Action S (Unit {0})
  pub initiate_multipart_upload : Bytes → Bytes → Dict Bytes → Action S Bytes
  pub upload_part : Bytes → Bytes → Bytes → ℤ → Reader → ℤ → Action S Bytes
  pub complete_multipart_upload : Bytes → Bytes → Bytes → List CompletedPart → Action S (Unit {0})
  pub abort_multipart_upload : Bytes → Bytes → Bytes → Action S (Unit {0})
  pub list_parts : Bytes → Bytes → Bytes → ℤ → ℤ → Action S ListPartsResult
