-- ===== src/FileSystem/Reads.antt =====
-- The reading methods of the file system backend change nothing, which is what the layers above ask.
use s3proxy_go.Base.{Bytes, Result, ok, err, ◌≡◌, refl, ap, ℤ, ◌⊎◌, inl, inr}
use s3proxy_go.Storage.Reads.{ReadsKeep}
use s3proxy_go.FileSystem.Tree.{FilePath, resolve, entries_of}
use s3proxy_go.FileSystem.Disk.{Disk, Host, os_stat, os_read_dir, chained, children}
use s3proxy_go.FileSystem.Objects.{get_object, head_object, bucket_exists, get_object_acl, path_of}
use s3proxy_go.FileSystem.Objects.Reads.{get_object-found, get_object-missing}
use s3proxy_go.FileSystem.Listing.{list_objects_with_delimiter}
use s3proxy_go.FileSystem.Uploads.{list_parts, upload_dir}
use s3proxy_go.FileSystem.Files.{file_system}

Result-cases : {E A : Type 0} (r : Result E A) → ((a : A) × (r ≡ ok a)) ⊎ ((e : E) × (r ≡ err e))
Result-cases (ok a) = inl (a, refl)
Result-cases (err e) = inr (e, refl)

module _ (host : Host) (base : FilePath) where
  get_object_keeps : (bucket key : Bytes) (d : Disk) → (get_object host base bucket key d).1 ≡ d
  get_object_keeps bucket key d =
      elim (Result-cases (resolve (path_of host base bucket key) d.root)) [
        | inl (n, there) ↦ ap (λ x. x.1) (get_object-found host base bucket key d n there)
        | inr (e, gone) ↦ ap (λ x. x.1) (get_object-missing host base bucket key d e gone)
      ]

  head_object_keeps : (bucket key : Bytes) (d : Disk) → (head_object host base bucket key d).1 ≡ d
  unfolding head_object os_stat
  head_object_keeps bucket key d =
      elim (Result-cases (resolve (path_of host base bucket key) d.root)) [
        | inl (n, there) ↦ simp there
        | inr (e, gone) ↦ simp gone
      ]

  list_parts_keeps :
      (bucket key upload_id : Bytes) (n marker : ℤ) (d : Disk)
      → (list_parts host base bucket key upload_id n marker d).1 ≡ d
  unfolding list_parts os_read_dir
  list_parts_keeps bucket key upload_id n marker d =
      elim (Result-cases (
        chained (λ es. ok (entries_of es))
          (chained children (resolve (upload_dir host base bucket upload_id) d.root)))) [
            | inl (es, there) ↦ simp there
            | inr (e, gone) ↦ simp gone
          ]

-- Every reading method of the file system backend leaves the disk as it was: `GetObject`,
-- `HeadObject`, `BucketExists`, `ListObjectsWithDelimiter`, `GetObjectACL` and `ListParts`.
file_system-ReadsKeep : (host : Host) (base : FilePath) → ReadsKeep (file_system host base)
unfolding file_system bucket_exists list_objects_with_delimiter get_object_acl
file_system-ReadsKeep host base = record {
  get_object = get_object_keeps host base;
  head_object = head_object_keeps host base;
  bucket_exists = λ bucket d. refl;
  list_objects_with_delimiter = λ bucket prefix marker delimiter n d. refl;
  get_object_acl = λ bucket key d. refl;
  list_parts = list_parts_keeps host base;
}
