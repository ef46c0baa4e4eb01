-- ===== src/Remote/Listing.antt =====
-- internal/storage/s3.go: `ListObjectsWithDelimiter`, which asks for the keys of the real bucket and tells
-- those of the virtual one.
pub mod Keys
use s3proxy_go.Base.{
  Bool, true, false, if◌then◌else◌, not, ◌&&◌, Bytes, beq, lit, is_empty, has_prefix, has_suffix,
  List, [], ◌∷◌, ◌++◌, Option, none, some, ℤ, pos,
}
use s3proxy_go.Storage.Backend.{Action, ObjectInfo, ListObjectsResult}
use s3proxy_go.Storage.Steps.{◌>>=◌, wrap, return}
use s3proxy_go.Remote.Buckets.{
  S3StorageConfig, get_prefix_for_bucket, add_prefix_to_key, remove_prefix_from_key,
}
use s3proxy_go.Remote.Sdk.{Sdk, SdkObject, ListObjectsInput, ListObjectsOutput, value_or}
use s3proxy_go.Remote.State.{Setting, S3State, client_for, call, real_bucket}

abbrev pub unless_empty : Bytes → Option Bytes
unless_empty [] = none
unless_empty (c ∷ s) = some (c ∷ s)

-- a key of the real bucket that lies outside of the virtual one
unfoldable pub is_outside : Bytes → Bytes → Bool
unfolding is_empty has_prefix
is_outside prefix key = not (is_empty prefix) && not (has_prefix key prefix)

-- a key that stands for a folder, where folders are grouped
unfoldable pub is_folder : Bytes → Bytes → Bool
unfolding beq has_suffix
is_folder delimiter key = beq delimiter (lit "/") && has_suffix key (lit "/")

abbrev entry_of : Bytes → SdkObject → ObjectInfo
entry_of key o = record {
  key = key;
  size = value_or (pos 0) o.size;
  etag = value_or [] o.etag;
  last_modified = value_or 0 o.last_modified;
  storage_class = value_or [] o.storage_class;
  content_type = [];
  metadata = [];
}

module _ (c : S3StorageConfig) (bucket : Bytes) where
  unfoldable pub entries_of : Bytes → List SdkObject → List ObjectInfo
  unfolding is_outside is_folder
  entries_of delimiter [] = []
  entries_of delimiter (o ∷ os) =
      let real = value_or [] o.key in
      let key = remove_prefix_from_key c bucket real in
      if is_outside (get_prefix_for_bucket c bucket) real
      then entries_of delimiter os
      else if is_folder delimiter key
      then entries_of delimiter os
      else entry_of key o ∷ entries_of delimiter os

  unfoldable pub prefixes_of : List (Option Bytes) → List Bytes
  unfolding is_outside
  prefixes_of [] = []
  prefixes_of (p ∷ ps) =
      let real = value_or [] p in
      if is_outside (get_prefix_for_bucket c bucket) real
      then prefixes_of ps
      else remove_prefix_from_key c bucket real ∷ prefixes_of ps

  abbrev marker_of : Option Bytes → Bytes
  marker_of none = []
  marker_of (some m) = remove_prefix_from_key c bucket m

  unfoldable pub result_of : Bytes → ListObjectsOutput → ListObjectsResult
  unfolding entries_of prefixes_of
  result_of delimiter resp = record {
    is_truncated = value_or false resp.is_truncated;
    contents = entries_of delimiter resp.contents;
    next_marker = marker_of resp.next_marker;
    common_prefixes = prefixes_of resp.common_prefixes;
  }

abbrev real_marker : S3StorageConfig → Bytes → Bytes → Option Bytes
real_marker c bucket [] = none
real_marker c bucket (b ∷ marker) = some (add_prefix_to_key c bucket (b ∷ marker))

module _ {Client World : Type 0} (s3 : Setting Client World) where
  unfoldable pub list_objects_with_delimiter :
      Bytes → Bytes → Bytes → Bytes → ℤ → Action (S3State Client World) ListObjectsResult
  unfolding client_for call result_of
  list_objects_with_delimiter bucket prefix marker delimiter max_keys = do
    client ← client_for s3 bucket
    resp ← wrap (lit "failed to list objects: ") (
        call s3 (
          s3.sdk.list_objects client (record {
            bucket = real_bucket s3 bucket;
            max_keys = max_keys;
            prefix = unless_empty (get_prefix_for_bucket s3.config bucket ++ prefix);
            marker = real_marker s3.config bucket marker;
            delimiter = unless_empty delimiter;
          })))
    return (result_of s3.config bucket delimiter resp)

  unfoldable pub list_objects :
      Bytes → Bytes → Bytes → ℤ → Action (S3State Client World) ListObjectsResult
  unfolding list_objects_with_delimiter
  list_objects bucket prefix marker max_keys =
      list_objects_with_delimiter bucket prefix marker [] max_keys
