-- ===== src/Remote/Sdk.antt =====
-- The calls of the AWS SDK that internal/storage/s3.go makes, a parameter: each takes a client, its input
-- and the state of the service, and returns its output or an error, whose text is all that is read of it.
-- An `Option` is a pointer, and `none` is nil.
use s3proxy_go.Base.{ℕ, Bool, Bytes, Dict, List, Option, none, some, ℤ}
use s3proxy_go.Storage.Backend.{Action, Reader}

pub record SdkBucket : Type 0 where
  pub name : Option Bytes
  pub creation_date : Option ℕ

pub record ListObjectsInput : Type 0 where
  pub bucket : Bytes
  pub max_keys : ℤ
  pub prefix : Option Bytes
  pub marker : Option Bytes
  pub delimiter : Option Bytes

pub record SdkObject : Type 0 where
  pub key : Option Bytes
  pub size : Option ℤ
  pub etag : Option Bytes
  pub last_modified : Option ℕ
  pub storage_class : Option Bytes

pub record ListObjectsOutput : Type 0 where
  pub is_truncated : Option Bool
  pub contents : List SdkObject
  pub next_marker : Option Bytes
  pub common_prefixes : List (Option Bytes)

-- the body of a response: what its reads give, and whether they end in an error
pub record GetObjectOutput : Type 0 where
  pub blocks : List Bytes
  pub fails : Bool
  pub content_type : Option Bytes
  pub content_length : Option ℤ
  pub etag : Option Bytes
  pub last_modified : Option ℕ
  pub metadata : Dict (Option Bytes)
  pub server_side_encryption : Option Bytes
  pub sse_kms_key_id : Option Bytes

pub record HeadObjectOutput : Type 0 where
  pub content_length : Option ℤ
  pub etag : Option Bytes
  pub last_modified : Option ℕ
  pub storage_class : Option Bytes
  pub metadata : Dict (Option Bytes)

pub record PutObjectInput : Type 0 where
  pub bucket : Bytes
  pub key : Bytes
  pub body : Reader
  pub content_length : ℤ
  pub metadata : Dict Bytes
  pub server_side_encryption : Option Bytes
  pub sse_kms_key_id : Option Bytes

pub record SdkOwner : Type 0 where
  pub id : Option Bytes
  pub display_name : Option Bytes

pub record SdkGrantee : Type 0 where
  pub kind : Option Bytes
  pub id : Option Bytes
  pub display_name : Option Bytes
  pub uri : Option Bytes

pub record SdkGrant : Type 0 where
  pub grantee : Option SdkGrantee
  pub permission : Option Bytes

pub record GetObjectAclOutput : Type 0 where
  pub owner : SdkOwner
  pub grants : List SdkGrant

pub record CreateMultipartUploadInput : Type 0 where
  pub bucket : Bytes
  pub key : Bytes
  pub metadata : Dict Bytes
  pub server_side_encryption : Option Bytes
  pub sse_kms_key_id : Option Bytes

pub record UploadPartInput : Type 0 where
  pub bucket : Bytes
  pub key : Bytes
  pub upload_id : Option Bytes
  pub part_number : ℤ
  pub body : Bytes
  pub content_length : Option ℤ

pub record SdkCompletedPart : Type 0 where
  pub part_number : ℤ
  pub etag : Option Bytes

pub record SdkPart : Type 0 where
  pub part_number : Option ℤ
  pub etag : Option Bytes
  pub size : Option ℤ
  pub last_modified : Option ℕ

pub record ListPartsInput : Type 0 where
  pub bucket : Bytes
  pub key : Bytes
  pub upload_id : Bytes
  pub max_parts : ℤ
  pub part_number_marker : Option ℤ

pub record ListPartsOutput : Type 0 where
  pub is_truncated : Option Bool
  pub parts : List SdkPart
  pub next_part_number_marker : Option ℤ

pub record Sdk (Client World : Type 0) : Type 0 where
  pub list_buckets : Client → Action World (List SdkBucket)
  pub create_bucket : Client → Bytes → Action World (Unit {0})
  pub delete_bucket : Client → Bytes → Action World (Unit {0})
  pub head_bucket : Client → Bytes → Action World (Unit {0})
  pub list_objects : Client → ListObjectsInput → Action World ListObjectsOutput
  pub get_object : Client → Bytes → Bytes → Action World GetObjectOutput
  pub put_object : Client → PutObjectInput → Action World (Unit {0})
  pub delete_object : Client → Bytes → Bytes → Action World (Unit {0})
  pub head_object : Client → Bytes → Bytes → Action World HeadObjectOutput
  pub get_object_acl : Client → Bytes → Bytes → Action World GetObjectAclOutput
  pub create_multipart_upload : Client → CreateMultipartUploadInput → Action World (Option Bytes)
  pub upload_part : Client → UploadPartInput → Action World (Option Bytes)
  pub complete_multipart_upload :
      Client → Bytes → Bytes → Option Bytes → List SdkCompletedPart → Action World (Unit {0})
  pub abort_multipart_upload : Client → Bytes → Bytes → Option Bytes → Action World (Unit {0})
  pub list_parts : Client → ListPartsInput → Action World ListPartsOutput

-- `aws.StringValue` and its like
abbrev pub value_or : {A : Type 0} → A → Option A → A
value_or d none = d
value_or d (some a) = a
