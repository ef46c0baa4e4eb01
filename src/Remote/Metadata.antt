-- ===== src/Remote/Metadata.antt =====
-- internal/storage/s3.go: what the answers of the service and the metadata of a request are turned into.
use s3proxy_go.Base.{
  ℕ, Bool, false, if◌then◌else◌, Bytes, beq, lit, Dict, lookup, insert, has_prefix, List, [], ◌∷◌,
  Option, none, some, pos,
}
use s3proxy_go.Storage.Backend.{BucketInfo, ObjectInfo, Object, Acl, Grantee, Grant}
use s3proxy_go.Remote.Buckets.{BucketConfig}
use s3proxy_go.Remote.Decoding.{decoded}
use s3proxy_go.Remote.Sdk.{
  SdkBucket, GetObjectOutput, HeadObjectOutput, GetObjectAclOutput, SdkGrant, SdkGrantee, value_or,
}

-- the creation dates of the real buckets
unfoldable pub creation_dates : List SdkBucket → Dict ℕ
unfolding insert
creation_dates [] = []
creation_dates (b ∷ bs) =
    insert (value_or [] b.name) (value_or 0 b.creation_date) (creation_dates bs)

-- the virtual buckets, one for each configuration; one without a real bucket is as old as this moment
unfoldable pub virtual_buckets : ℕ → Dict ℕ → Dict BucketConfig → List BucketInfo
unfolding lookup
virtual_buckets now dates [] = []
virtual_buckets now dates ((name, b) ∷ m) =
    record { name = name; creation_date = value_or now (lookup b.real_name dates) }
    ∷ virtual_buckets now dates m

-- the metadata of a response, without the nil values
unfoldable pub plain_metadata : Dict (Option Bytes) → Dict Bytes
plain_metadata [] = []
plain_metadata ((k, none) ∷ m) = plain_metadata m
plain_metadata ((k, some v) ∷ m) = (k, v) ∷ plain_metadata m

abbrev pub sse_header : Bytes
sse_header = lit "x-amz-server-side-encryption"

abbrev pub sse_key_header : Bytes
sse_key_header = lit "x-amz-server-side-encryption-aws-kms-key-id"

abbrev pub with_kms_key : Option Bytes → Dict Bytes → Dict Bytes
with_kms_key none m = m
with_kms_key (some k) m = insert sse_key_header k m

-- the encryption with KMS, added to the metadata
unfoldable pub add_kms : Option Bytes → Option Bytes → Dict Bytes → Dict Bytes
unfolding beq insert
add_kms none key m = m
add_kms (some sse) key m =
    if beq sse (lit "aws:kms") then with_kms_key key (insert sse_header (lit "aws:kms") m) else m

-- the metadata under the headers of encryption, and the others
unfoldable pub kms_headers : Dict Bytes → Dict Bytes
unfolding has_prefix
kms_headers [] = []
kms_headers ((k, v) ∷ m) = if has_prefix k sse_header then (k, v) ∷ kms_headers m else kms_headers m

unfoldable pub user_metadata : Dict Bytes → Dict Bytes
unfolding has_prefix
user_metadata [] = []
user_metadata ((k, v) ∷ m) =
    if has_prefix k sse_header then user_metadata m else (k, v) ∷ user_metadata m

abbrev kms_only : Option Bytes → Bool
kms_only none = false
kms_only (some v) = beq v (lit "aws:kms")

unfoldable pub wants_kms : Dict Bytes → Bool
unfolding lookup kms_headers beq
wants_kms m = kms_only (lookup sse_header (kms_headers m))

unfoldable pub kms_key : Dict Bytes → Option Bytes
unfolding lookup kms_headers wants_kms
kms_key m = if wants_kms m then lookup sse_key_header (kms_headers m) else none

unfoldable pub grantee_of : Option SdkGrantee → Grantee
grantee_of none = record { kind = []; id = []; display_name = []; uri = [] }
grantee_of (some g) = record {
  kind = value_or [] g.kind;
  id = value_or [] g.id;
  display_name = value_or [] g.display_name;
  uri = value_or [] g.uri;
}

-- a grant as it is told to the client
unfoldable pub grants_of : List SdkGrant → List Grant
unfolding grantee_of
grants_of [] = []
grants_of (g ∷ gs) =
    record { grantee = grantee_of g.grantee; permission = value_or [] g.permission } ∷ grants_of gs

unfoldable pub acl_of : GetObjectAclOutput → Acl
unfolding grants_of
acl_of resp = record {
  owner = record {
    id = value_or [] resp.owner.id;
    display_name = value_or [] resp.owner.display_name;
  };
  grants = grants_of resp.grants;
}

-- the object of a response; its body is read through the decoder
unfoldable pub object_of : ℕ → GetObjectOutput → Object
unfolding plain_metadata add_kms decoded
object_of read_size resp = record {
  body = record { seekable = false; content = decoded read_size resp.blocks; fails = resp.fails };
  content_type = value_or [] resp.content_type;
  size = value_or (pos 0) resp.content_length;
  etag = value_or [] resp.etag;
  last_modified = value_or 0 resp.last_modified;
  metadata = add_kms resp.server_side_encryption resp.sse_kms_key_id (plain_metadata resp.metadata);
}

unfoldable pub info_of_head : Bytes → HeadObjectOutput → ObjectInfo
unfolding plain_metadata
info_of_head key resp = record {
  key = key;
  size = value_or (pos 0) resp.content_length;
  etag = value_or [] resp.etag;
  last_modified = value_or 0 resp.last_modified;
  storage_class = value_or [] resp.storage_class;
  content_type = [];
  metadata = plain_metadata resp.metadata;
}
