-- ===== src/Remote/Objects.antt =====
-- internal/storage/s3.go: buckets and objects.
use s3proxy_go.Base.{
  Bool, true, false, if◌then◌else◌, Bytes, lit, Dict, lookup, contains, List, Option, none, some,
  Result, ok, err, ℤ,
}
use s3proxy_go.Storage.Backend.{Action, Reader, BucketInfo, ObjectInfo, Object, Acl}
use s3proxy_go.Storage.Steps.{◌>>=◌, ◌>>◌, wrap, return}
use s3proxy_go.Remote.MetadataCache.{get, set}
use s3proxy_go.Remote.Sdk.{PutObjectInput}
use s3proxy_go.Remote.State.{
  Setting, S3State, client_for, call, real_bucket, real_key, cache_key, invalidated,
}
use s3proxy_go.Remote.Metadata.{
  creation_dates, virtual_buckets, user_metadata, wants_kms, kms_key, acl_of, object_of,
  info_of_head,
}

-- an error that says "NotFound" is an answer
abbrev existing : Result Bytes (Unit {0}) → Result Bytes Bool
existing (ok u) = ok true
existing (err e) = if contains e (lit "NotFound") then ok false else err e

module _ {Client World : Type 0} (s3 : Setting Client World) where
  abbrev Step : Type 0 → Type 0
  Step A = Action (S3State Client World) A

  unfoldable pub list_buckets : Step (List BucketInfo)
  unfolding call creation_dates virtual_buckets
  list_buckets = do
    found ← wrap (lit "failed to list buckets: ") (call s3 (s3.sdk.list_buckets s3.default_client))
    λ s. (ok (virtual_buckets s.now (creation_dates found) s3.config.bucket_configs), s)

  unfoldable pub create_bucket : Bytes → Step (Unit {0})
  unfolding client_for call
  create_bucket bucket = do
    client ← client_for s3 bucket
    wrap (lit "failed to create bucket: ")
        (call s3 (s3.sdk.create_bucket client (real_bucket s3 bucket)))

  unfoldable pub delete_bucket : Bytes → Step (Unit {0})
  unfolding client_for call
  delete_bucket bucket = do
    client ← client_for s3 bucket
    wrap (lit "failed to delete bucket: ")
        (call s3 (s3.sdk.delete_bucket client (real_bucket s3 bucket)))

  -- a bucket that is not configured is looked for
  unfoldable pub head_bucket : Bytes → Step Bool
  unfolding client_for call contains
  head_bucket bucket = do
    client ← client_for s3 bucket
    let head = call s3 (s3.sdk.head_bucket client (real_bucket s3 bucket))
    λ s. (existing (head s).0, (head s).1)

  unfoldable pub bucket_exists : Bytes → Step Bool
  unfolding head_bucket lookup
  bucket_exists bucket = elim (lookup bucket s3.config.bucket_configs) [
    | some b ↦ return true
    | none ↦ head_bucket bucket
  ]

  unfoldable pub get_object : Bytes → Bytes → Step Object
  unfolding client_for call object_of
  get_object bucket key = do
    client ← client_for s3 bucket
    resp ←
        wrap (lit "failed to get object: ")
          (call s3 (s3.sdk.get_object client (real_bucket s3 bucket) (real_key s3 bucket key)))
    return (object_of s3.read_size resp)

  unfoldable pub put_input : Bytes → Bytes → Reader → ℤ → Dict Bytes → PutObjectInput
  unfolding user_metadata wants_kms kms_key
  put_input bucket key body size metadata = record {
    bucket = real_bucket s3 bucket;
    key = real_key s3 bucket key;
    body = body;
    content_length = size;
    metadata = user_metadata metadata;
    server_side_encryption = if wants_kms metadata then some (lit "aws:kms") else none;
    sse_kms_key_id = kms_key metadata;
  }

  -- an object that is put in one call
  unfoldable pub put_whole : Bytes → Bytes → Reader → ℤ → Dict Bytes → Step (Unit {0})
  unfolding client_for call put_input invalidated
  put_whole bucket key body size metadata = do
    client ← client_for s3 bucket
    wrap (lit "failed to put object: ")
        (call s3 (s3.sdk.put_object client (put_input bucket key body size metadata)))
    invalidated bucket key

  unfoldable pub delete_object : Bytes → Bytes → Step (Unit {0})
  unfolding client_for call invalidated
  delete_object bucket key = do
    client ← client_for s3 bucket
    wrap (lit "failed to delete object: ")
        (call s3 (s3.sdk.delete_object client (real_bucket s3 bucket) (real_key s3 bucket key)))
    invalidated bucket key

  -- the information of an object is kept in the metadata cache
  abbrev remembered : Bytes → ObjectInfo → Step ObjectInfo
  remembered key info s =
      (ok info, record s { metadata_cache = set s.now key info s.metadata_cache })

  unfoldable pub fetch_head : Bytes → Bytes → Step ObjectInfo
  unfolding client_for call info_of_head set cache_key
  fetch_head bucket key = do
    client ← client_for s3 bucket
    resp ←
        wrap (lit "failed to head object: ")
          (call s3 (s3.sdk.head_object client (real_bucket s3 bucket) (real_key s3 bucket key)))
    remembered (cache_key bucket key) (info_of_head key resp)

  abbrev or_fetch : Step ObjectInfo → Option ObjectInfo → Step ObjectInfo
  or_fetch fetch none s = fetch s
  or_fetch fetch (some info) s = (ok info, s)

  unfoldable pub head_object : Bytes → Bytes → Step ObjectInfo
  unfolding get fetch_head cache_key
  head_object bucket key s =
      or_fetch (fetch_head bucket key) (get s.now (cache_key bucket key) s.metadata_cache) s

  unfoldable pub get_object_acl : Bytes → Bytes → Step Acl
  unfolding client_for call acl_of
  get_object_acl bucket key = do
    client ← client_for s3 bucket
    resp ←
        wrap (lit "failed to get object ACL: ")
          (call s3 (s3.sdk.get_object_acl client (real_bucket s3 bucket) (real_key s3 bucket key)))
    return (acl_of resp)

  unfoldable pub put_object_acl : Bytes → Bytes → Option Acl → Step (Unit {0})
  put_object_acl bucket key acl = return tt
