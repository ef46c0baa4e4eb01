-- ===== src/FileSystem/Listing.antt =====
-- internal/storage/filesystem.go: `ListObjectsWithDelimiter`, the walk through a bucket.
pub mod Complete
pub mod Bounds
use s3proxy_go.Base.{
  ℕ, suc, ◌+◌, Bool, true, false, if◌then◌else◌, not, ◌&&◌, ◌||◌, Bytes, beq, lit, has_prefix,
  has_suffix, index, is_empty, List, [], ◌∷◌, ◌++◌, Option, none, some, Result, ok, err, ℤ, pos,
  leb_ℤ, length, take, drop,
}
use s3proxy_go.Storage.Backend.{Action, ObjectInfo, ListObjectsResult}
use s3proxy_go.FileSystem.Tree.{Node, Errno, FilePath, resolve, walk, bytes_ltb}
use s3proxy_go.FileSystem.Paths.{join, key_of}
use s3proxy_go.FileSystem.Disk.{Disk, Host, is_dir}
use s3proxy_go.FileSystem.Objects.{bucket_path, info_at}

-- what the callback of the walk has gathered; the set of the prefixes seen is the list of them
pub record Listing : Type 0 where
  pub contents : List ObjectInfo
  pub common_prefixes : List Bytes
  pub count : ℕ

abbrev pub no_listing : Listing
no_listing = record { contents = []; common_prefixes = []; count = 0 }

unfoldable pub member : Bytes → List Bytes → Bool
unfolding beq
member x [] = false
member x (y ∷ ys) = beq x y || member x ys

-- `key <= marker`, for a marker that is not empty
unfoldable pub up_to : Bytes → Bytes → Bool
unfolding bytes_ltb is_empty
up_to marker key = not (is_empty marker) && not (bytes_ltb marker key)

abbrev grouped : Bytes → Bytes → Bytes → Option ℕ → Option Bytes
grouped prefix after delimiter none = none
grouped prefix after delimiter (some i) = some (prefix ++ take (i + length delimiter) after)

-- the common prefix of a key that begins with the prefix, if the delimiter stands behind the prefix
unfoldable pub common_prefix : Bytes → Bytes → Bytes → Option Bytes
unfolding index
common_prefix prefix delimiter key =
    let after = drop (length prefix) key in
    if is_empty delimiter then none else grouped prefix after delimiter (index after delimiter)

unfoldable pub add_prefix : Bytes → Listing → Listing
unfolding member
add_prefix p l =
    if member p l.common_prefixes
    then l
    else record l { common_prefixes = l.common_prefixes ++ p ∷ []; count = suc l.count }

unfoldable pub add_object : ObjectInfo → Listing → Listing
add_object info l = record l { contents = l.contents ++ info ∷ []; count = suc l.count }

-- a file that is not a metadata file is listed
unfoldable pub add_file : Bool → Bytes → ObjectInfo → Listing → Listing
unfolding has_suffix add_object
add_file folder key info l =
    if not folder && not (has_suffix key (lit ".meta")) then add_object info l else l

unfoldable pub add_key : Option Bytes → Bool → Bytes → ObjectInfo → Listing → Listing
unfolding add_prefix add_file
add_key (some p) folder key info l = add_prefix p l
add_key none folder key info l = add_file folder key info l

module _ (host : Host) (base : FilePath) where
  -- the callback: the root of the walk is skipped
  unfoldable pub visit :
      Bytes → Bytes → Bytes → Bytes → ℤ → Disk → FilePath × Node → Listing → Listing
  unfolding add_key
  visit bucket prefix marker delimiter max_keys d (p, n) l =
      let key = key_of p in
      if leb_ℤ max_keys (pos l.count)
        || (beq key (lit ".") || (not (has_prefix key prefix) || up_to marker key))
      then l
      else add_key (common_prefix prefix delimiter key) (is_dir n) key
          (info_at host base (join (bucket_path host base bucket) (key ∷ [])) key n d) l

  unfoldable pub visit_all :
      Bytes → Bytes → Bytes → Bytes → ℤ → Disk → List (FilePath × Node) → Listing → Listing
  unfolding visit
  visit_all bucket prefix marker delimiter max_keys d [] l = l
  visit_all bucket prefix marker delimiter max_keys d (pn ∷ more) l =
      visit_all bucket prefix marker delimiter max_keys d more
        (visit bucket prefix marker delimiter max_keys d pn l)

  -- a bucket that is not there has nothing to visit; the callback ignores the error
  abbrev visited : Result Errno Node → List (FilePath × Node)
  visited (ok n) = walk [] n
  visited (err e) = []

  unfoldable pub list_objects_with_delimiter :
      Bytes → Bytes → Bytes → Bytes → ℤ → Action Disk ListObjectsResult
  unfolding visit_all
  list_objects_with_delimiter bucket prefix marker delimiter max_keys d =
      let found = visited (resolve (bucket_path host base bucket) d.root) in
      let l = visit_all bucket prefix marker delimiter max_keys d found no_listing in
      (
        ok (record {
          is_truncated = leb_ℤ max_keys (pos l.count);
          contents = l.contents;
          next_marker = [];
          common_prefixes = l.common_prefixes;
        }),
        d,
      )

  unfoldable pub list_objects : Bytes → Bytes → Bytes → ℤ → Action Disk ListObjectsResult
  unfolding list_objects_with_delimiter
  list_objects bucket prefix marker max_keys =
      list_objects_with_delimiter bucket prefix marker (lit "/") max_keys
