-- ===== src/FileSystem/Examples.antt =====
-- The theorems on objects of the file system backend at concrete values.
mod Pages
use s3proxy_go.Base.{
  ℕ, Bool, true, false, Bytes, lit, Dict, lookup, split, List, [], ◌∷◌, ◌++◌, Result, ok, err, ◌≡◌,
  ◌≢◌, refl, ap, ℤ, pos, length, ◌+◌, ◌≤◌, ◌↔◌, arith, none, some, map,
}
use s3proxy_go.Storage.Backend.{Object, ObjectInfo, Reader, ListObjectsResult, CompletedPart}
use s3proxy_go.Storage.Reads.{ReadsKeep}
use s3proxy_go.FileSystem.Tree.{
  Node, file, folder, entry, end, find, no_entry, FilePath, resolve, walk, mkdir_all, alter,
  created, appended, written, removed, cleared,
}
use s3proxy_go.FileSystem.Tree.Folders.{under}
use s3proxy_go.FileSystem.Tree.Runs.{last}
use s3proxy_go.FileSystem.Paths.{key_of, meta_path, parent}
use s3proxy_go.FileSystem.Disk.{Disk, Host, Call, stat}
use s3proxy_go.FileSystem.Objects.{
  info_at, path_of, bucket_path, get_object, put_object, delete_object, delete_bucket,
}
use s3proxy_go.FileSystem.Objects.RoundTrip.{
  file_reader, get_object-put_object_files, get_object-put_object_stale,
}
use s3proxy_go.FileSystem.Objects.Writes.{put_object_accepted, put_object_broken}
use s3proxy_go.FileSystem.Objects.Runs.{IsWritable}
use s3proxy_go.FileSystem.Objects.Deletes.{get_object-delete_object, get_object-put_object_other}
use s3proxy_go.FileSystem.Listing.{up_to, common_prefix, list_objects, list_objects_with_delimiter}

-- metadata as texts that end in a zero byte
plain_marshal : Dict Bytes → Bytes
plain_marshal [] = []
plain_marshal ((k, v) ∷ m) = k ++ 0 ∷ v ++ 0 ∷ plain_marshal m

pairs : List Bytes → Dict Bytes
pairs [] = []
pairs (k ∷ []) = []
pairs (k ∷ v ∷ more) = (k, v) ∷ pairs more

plain_unmarshal : Bytes → Dict Bytes
unfolding pairs split
plain_unmarshal b = pairs (split b (0 ∷ []))

unfoldable pub plain_host : Host
unfolding plain_marshal plain_unmarshal
plain_host = record {
  os_error = λ root call path errno. lit "os error";
  folder_size = λ n. 4096;
  marshal = plain_marshal;
  unmarshal = plain_unmarshal;
}

abbrev pub base_dir : FilePath
base_dir = lit "data" ∷ []

abbrev pub with_bucket : Node → Node
with_bucket n = folder 0 (entry (lit "data") (folder 0 (entry (lit "b") n end)) end)

-- a bucket "b" with the objects "a/x" and "a-y"
abbrev pub two_objects : Disk
two_objects = record {
  now = 9;
  root = with_bucket (
      folder 3 (
        entry (lit "a") (folder 3 (entry (lit "x") (file 2 (lit "XX")) end))
          (entry (lit "a-y") (file 3 (lit "Y")) end)));
}

abbrev text_metadata : Dict Bytes
text_metadata = (lit "Content-Type", lit "text/plain") ∷ []

abbrev sending : Bytes → Reader
sending content = record { seekable = false; content = content; fails = false }

-- the disk after a put
abbrev after_put : Bytes → Dict Bytes → Disk → Disk
after_put content metadata d =
    (put_object plain_host base_dir (lit "b") (lit "k") (sending content) (pos (length content))
      metadata d).1

get_object-put_object_files_example :
    (obj : Object) × (get_object plain_host base_dir
        (lit "b")
        (lit "k")
        (after_put (lit "hello") text_metadata two_objects)
      ≡ (ok obj, after_put (lit "hello") text_metadata two_objects))
    × (obj.body ≡ file_reader (lit "hello"))
    × (obj.size ≡ pos (length (lit "hello")))
    × (obj.last_modified ≡ 9)
    × ((k : Bytes) → lookup k obj.metadata ≡ lookup k text_metadata)
unfolding put_object path_of plain_host mkdir_all alter created appended meta_path written
get_object-put_object_files_example =
    get_object-put_object_files plain_host base_dir (lit "b") (lit "k") (sending (lit "hello"))
      (pos 5) text_metadata two_objects (after_put (lit "hello") text_metadata two_objects)
      (λ h. cc) (λ k. refl) refl

get_object-put_object_stale_example :
    (obj : Object) × (get_object plain_host base_dir
        (lit "b")
        (lit "k")
        (after_put (lit "bye") [] (after_put (lit "hello") text_metadata two_objects))
      ≡ (ok obj, after_put (lit "bye") [] (after_put (lit "hello") text_metadata two_objects)))
    × (obj.body ≡ file_reader (lit "bye"))
    × ((k : Bytes) → lookup k obj.metadata ≡ lookup k text_metadata)
unfolding put_object path_of plain_host mkdir_all alter created appended meta_path written
get_object-put_object_stale_example =
    get_object-put_object_stale plain_host base_dir (lit "b") (lit "k") (sending (lit "hello"))
      (sending (lit "bye")) (pos 5) (pos 3) text_metadata two_objects
      (after_put (lit "hello") text_metadata two_objects)
      (after_put (lit "bye") [] (after_put (lit "hello") text_metadata two_objects)) (λ h. cc)
      (λ k. refl) refl refl

bucket-IsWritable : IsWritable (path_of plain_host base_dir (lit "b") (lit "k")) two_objects.root
unfolding path_of
bucket-IsWritable = record {
  time = 3;
  entries =
      entry (lit "a") (folder 3 (entry (lit "x") (file 2 (lit "XX")) end))
        (entry (lit "a-y") (file 3 (lit "Y")) end);
  folder_there = unfold resolve in unfold parent in refl;
  name_free = unfold find in unfold last in tt;
  meta_free = unfold find in unfold last in unfold meta_path in tt;
}

put_object_accepted_example :
    (d' : Disk) × (put_object plain_host base_dir
        (lit "b")
        (lit "k")
        (sending (lit "hello"))
        (pos 5)
        text_metadata
        two_objects
      ≡ (ok tt, d'))
unfolding path_of
put_object_accepted_example =
    put_object_accepted plain_host base_dir (lit "b") (lit "k") (sending (lit "hello")) (pos 5)
      text_metadata two_objects (lit "data") (lit "b" ∷ lit "k" ∷ []) refl bucket-IsWritable refl

abbrev breaking : Reader
breaking = record { seekable = false; content = lit "hel"; fails = true }

put_object_broken_example :
    (message : Bytes) × (d' : Disk) × (obj : Object) × (put_object plain_host base_dir
        (lit "b")
        (lit "k")
        breaking
        (pos 5)
        text_metadata
        two_objects
      ≡ (err message, d'))
    × (get_object plain_host base_dir (lit "b") (lit "k") d' ≡ (ok obj, d'))
    × (obj.body ≡ file_reader (lit "hel"))
unfolding path_of
put_object_broken_example =
    put_object_broken plain_host base_dir (lit "b") (lit "k") breaking (pos 5) text_metadata
      two_objects (lit "data") (lit "b" ∷ lit "k" ∷ []) refl bucket-IsWritable refl

abbrev after_delete : Bytes → Disk → Disk
after_delete key d = (delete_object plain_host base_dir (lit "b") key d).1

get_object-delete_object_example :
    get_object plain_host base_dir (lit "b") (lit "a/x") (after_delete (lit "a/x") two_objects) ≡ (
      err (
          lit "object not found: "
          ++ plain_host.os_error
              (after_delete (lit "a/x") two_objects).root
              stat
              (path_of plain_host base_dir (lit "b") (lit "a/x"))
              no_entry),
      after_delete (lit "a/x") two_objects,
    )
unfolding delete_object path_of plain_host alter removed meta_path
get_object-delete_object_example =
    get_object-delete_object plain_host base_dir (lit "b") (lit "a/x") two_objects
      (after_delete (lit "a/x") two_objects) refl

get_object-put_object_other_example :
    (obj : Object) × (obj' : Object) × (get_object plain_host base_dir
        (lit "b")
        (lit "a/x")
        two_objects
      ≡ (ok obj, two_objects))
    × (get_object plain_host base_dir
          (lit "b")
          (lit "a/x")
          (after_put (lit "hello") text_metadata two_objects)
        ≡ (ok obj', after_put (lit "hello") text_metadata two_objects))
    × (obj'.body ≡ obj.body)
    × (obj'.size ≡ obj.size)
    × (obj'.etag ≡ obj.etag)
    × (obj'.last_modified ≡ obj.last_modified)
unfolding put_object path_of plain_host mkdir_all alter created appended meta_path written resolve
get_object-put_object_other_example =
    get_object-put_object_other plain_host base_dir (lit "b") (lit "k") (lit "b") (lit "a/x")
      (sending (lit "hello")) (pos 5) text_metadata two_objects
      (after_put (lit "hello") text_metadata two_objects) 2 (lit "XX") (λ h. cc) (λ h. cc) refl refl
