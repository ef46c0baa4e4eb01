-- ===== src/FileSystem/Objects.antt =====
-- internal/storage/filesystem.go: buckets and objects.
pub mod Steps
pub mod Reads
pub mod RoundTrip
pub mod Runs
pub mod Writes
pub mod Deletes
use s3proxy_go.Base.{
  ℕ, Bool, true, false, if◌then◌else◌, Bytes, lit, Dict, lookup, insert, List, [], ◌∷◌, ◌++◌,
  Option, none, some, Result, ok, err, ℤ, pos, length, is_empty, format_hex,
}
use s3proxy_go.Storage.Backend.{
  Action, Reader, BucketInfo, ObjectInfo, Object, Acl, Owner, Grantee, Grant,
}
use s3proxy_go.FileSystem.Tree.{Node, file, folder, Errno, no_entry, FilePath, resolve}
use s3proxy_go.FileSystem.Paths.{join, meta_path, parent}
use s3proxy_go.FileSystem.Disk.{
  Disk, Host, Call, remove, stat, ◌>>=◌, ◌>>◌, wrap, return, is_dir, mod_time, looked, os_mkdir_all,
  os_create, os_write_file, os_remove, os_remove_all, os_stat, os_open, os_read_dir, os_read_file,
  copied,
}

-- the buckets are the folders; the time of a bucket's creation is that of its last change
unfoldable pub buckets_of : List (Bytes × Node) → List BucketInfo
buckets_of [] = []
buckets_of ((name, file t b) ∷ es) = buckets_of es
buckets_of ((name, folder t b) ∷ es) = record { name = name; creation_date = t } ∷ buckets_of es

-- a map as it is read from a metadata file, where there is one
abbrev pub metadata_from : (Bytes → Dict Bytes) → Result Errno Bytes → Dict Bytes
metadata_from unmarshal (ok bytes) = unmarshal bytes
metadata_from unmarshal (err e) = []

-- the text under a key; a key that is missing reads as ""
abbrev pub text_or_empty : Option Bytes → Bytes
text_or_empty none = []
text_or_empty (some v) = v

unfoldable pub content_type_of : Dict Bytes → Bytes
unfolding lookup is_empty
content_type_of metadata =
    let content_type = text_or_empty (lookup (lit "Content-Type") metadata) in
    if is_empty content_type then lit "application/octet-stream" else content_type

unfoldable pub etag_of : Node → Bytes
unfolding format_hex
etag_of n = b'"' ∷ format_hex (mod_time n) ++ b'"' ∷ []

-- a file as it is read behind `os.Open`: reading a folder fails
abbrev pub opened_reader : Node → Reader
opened_reader (file t b) = record { seekable = true; content = b; fails = false }
opened_reader (folder t es) = record { seekable = true; content = []; fails = true }

-- what `os.Remove` reported, to `DeleteObject`
abbrev pub first_removed :
    (Errno → Bytes) → (Disk → Disk) → Disk → Result Errno Node → Result Bytes (Unit {0}) × Disk
first_removed text more d (ok n) = (ok tt, more (record d { root = n }))
first_removed text more d (err no_entry) = (ok tt, d)
first_removed text more d (err e) = (err (text e), more d)

-- a removal whose error is ignored
abbrev pub root_or : Disk → Result Errno Node → Disk
root_or d (ok n) = record d { root = n }
root_or d (err e) = d

abbrev pub exists : (Errno → Bytes) → Result Errno Node → Result Bytes Bool
exists text (ok n) = ok (is_dir n)
exists text (err no_entry) = ok false
exists text (err e) = err (text e)

module _ (host : Host) (base : FilePath) where
  unfoldable pub path_of : Bytes → Bytes → FilePath
  unfolding join
  path_of bucket key = join base (bucket ∷ key ∷ [])

  unfoldable pub bucket_path : Bytes → FilePath
  unfolding join
  bucket_path bucket = join base (bucket ∷ [])

  unfoldable pub node_size : Node → ℕ
  node_size (file t b) = length b
  node_size (folder t es) = host.folder_size (folder t es)

  unfoldable pub list_buckets : Action Disk (List BucketInfo)
  unfolding os_read_dir buckets_of
  list_buckets = do
    entries ← wrap (lit "failed to read base directory: ") (os_read_dir host base)
    return (buckets_of entries)

  unfoldable pub create_bucket : Bytes → Action Disk (Unit {0})
  unfolding os_mkdir_all
  create_bucket bucket = os_mkdir_all host (bucket_path bucket)

  unfoldable pub delete_bucket : Bytes → Action Disk (Unit {0})
  unfolding os_remove_all
  delete_bucket bucket = os_remove_all host (bucket_path bucket)

  unfoldable pub bucket_exists : Bytes → Action Disk Bool
  bucket_exists bucket d =
      let path = bucket_path bucket in
      (exists (host.os_error d.root stat path) (resolve path d.root), d)

  -- the metadata file beside an object
  unfoldable pub load_metadata : FilePath → Disk → Dict Bytes
  unfolding os_read_file
  load_metadata path d = metadata_from host.unmarshal (os_read_file (meta_path path) d)

  unfoldable pub object_at : FilePath → Node → Disk → Object
  unfolding load_metadata content_type_of etag_of node_size
  object_at path n d = record {
    body = opened_reader n;
    content_type = content_type_of (load_metadata path d);
    size = pos (node_size n);
    etag = etag_of n;
    metadata = load_metadata path d;
    last_modified = mod_time n;
  }

  unfoldable pub info_at : FilePath → Bytes → Node → Disk → ObjectInfo
  unfolding load_metadata content_type_of etag_of node_size
  info_at path key n d = record {
    key = key;
    size = pos (node_size n);
    etag = etag_of n;
    last_modified = mod_time n;
    storage_class = [];
    content_type = content_type_of (load_metadata path d);
    metadata = load_metadata path d;
  }

  unfoldable pub get_object : Bytes → Bytes → Action Disk Object
  unfolding os_stat os_open object_at
  get_object bucket key = do
    let path = path_of bucket key
    info ← wrap (lit "object not found: ") (os_stat host path)
    opened ← wrap (lit "failed to open object: ") (os_open host path)
    λ d. (ok (object_at path opened d), d)

  -- the metadata file is written only where there is metadata
  unfoldable pub save_metadata : FilePath → Dict Bytes → Action Disk (Unit {0})
  unfolding os_write_file
  save_metadata path [] = return tt
  save_metadata path (kv ∷ metadata) =
      wrap (lit "failed to write metadata file: ")
        (os_write_file host (meta_path path) (host.marshal (kv ∷ metadata)))

  unfoldable pub put_object : Bytes → Bytes → Reader → ℤ → Dict Bytes → Action Disk (Unit {0})
  unfolding os_mkdir_all os_create copied save_metadata
  put_object bucket key reader size metadata = do
    let path = path_of bucket key
    wrap (lit "failed to create object directory: ") (os_mkdir_all host (parent path))
    wrap (lit "failed to create object file: ") (os_create host path)
    wrap (lit "failed to write object data: ") (copied host path reader)
    save_metadata path metadata

  -- the removal of the metadata file, whose error is ignored
  unfoldable pub drop_metadata : FilePath → Disk → Disk
  unfolding os_remove
  drop_metadata path d = root_or d (os_remove host (meta_path path) d)

  unfoldable pub delete_object : Bytes → Bytes → Action Disk (Unit {0})
  unfolding os_remove drop_metadata
  delete_object bucket key d =
      let path = path_of bucket key in
      first_removed (host.os_error d.root remove path) (drop_metadata path) d
        (os_remove host path d)

  unfoldable pub head_object : Bytes → Bytes → Action Disk ObjectInfo
  unfolding os_stat info_at
  head_object bucket key = do
    let path = path_of bucket key
    info ← wrap (lit "object not found: ") (os_stat host path)
    λ d. (ok (info_at path key info d), d)

unfoldable pub get_object_acl : Bytes → Bytes → Action Disk Acl
get_object_acl bucket key =
    let owner : Owner = record { id = lit "filesystem"; display_name = lit "FileSystem" } in
    let grantee : Grantee = record {
      kind = lit "CanonicalUser";
      id = lit "filesystem";
      display_name = lit "FileSystem";
      uri = [];
    } in
    return (record {
      owner = owner;
      grants = record { grantee = grantee; permission = lit "FULL_CONTROL" } ∷ [];
    })

unfoldable pub put_object_acl : Bytes → Bytes → Option Acl → Action Disk (Unit {0})
put_object_acl bucket key acl = return tt
