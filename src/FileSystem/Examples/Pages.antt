-- ===== src/FileSystem/Examples/Pages.antt =====
-- Listings and uploads of the file system backend at concrete values.
use s3proxy_go.Base.{
  true, false, Bytes, lit, List, [], ◌∷◌, ◌++◌, Result, ok, err, ◌≡◌, refl, ℤ, pos, length, ◌+◌,
  ◌≤◌, ◌↔◌,
}
use s3proxy_go.Storage.Backend.{
  Object, ObjectInfo, ListObjectsResult, CompletedPart, Part, ListPartsResult,
}
use s3proxy_go.FileSystem.Tree.{
  file, folder, entry, end, resolve, walk, mkdir_all, alter, created, appended, cleared, entries_of,
}
use s3proxy_go.FileSystem.Tree.Folders.{under}
use s3proxy_go.FileSystem.Paths.{key_of, parent}
use s3proxy_go.FileSystem.Disk.{Disk}
use s3proxy_go.FileSystem.Objects.{info_at, path_of, bucket_path, get_object, delete_bucket}
use s3proxy_go.FileSystem.Objects.RoundTrip.{file_reader}
use s3proxy_go.FileSystem.Listing.{up_to, common_prefix, list_objects_with_delimiter}
use s3proxy_go.FileSystem.Listing.Complete.{shown, list_objects_with_delimiter-shown}
use s3proxy_go.FileSystem.Listing.Bounds.{AllBegin, AllDiffer, list_objects_with_delimiter_bounds}
use s3proxy_go.FileSystem.Uploads.{
  complete_multipart_upload, abort_multipart_upload, upload_dir, part_path, list_parts,
}
use s3proxy_go.FileSystem.Uploads.Complete.{get_object-complete_multipart_upload_files}
use s3proxy_go.FileSystem.Uploads.Abort.{abort_multipart_upload-delete_bucket}
use s3proxy_go.FileSystem.Examples.{plain_host, base_dir, with_bucket, two_objects}

-- the objects of one page
keys_of : List ObjectInfo → List Bytes
keys_of [] = []
keys_of (o ∷ os) = o.key ∷ keys_of os

page : Result Bytes ListObjectsResult → List Bytes
unfolding keys_of
page (ok r) = keys_of r.contents
page (err e) = []

-- The first page of one object ends at "a/x"; the page behind it has nothing, and "a-y" is on none.
first_page :
    page (list_objects_with_delimiter plain_host base_dir (lit "b") [] [] [] (pos 1) two_objects).0
    ≡ lit "a/x" ∷ []
unfolding list_objects_with_delimiter bucket_path page resolve walk up_to common_prefix key_of
    info_at
first_page = refl

second_page :
    page
      (list_objects_with_delimiter plain_host base_dir
        (lit "b")
        []
        (lit "a/x")
        []
        (pos 1)
        two_objects).0
    ≡ []
unfolding list_objects_with_delimiter bucket_path page resolve walk up_to common_prefix key_of
    info_at
second_page = refl

list_objects_with_delimiter-shown_example :
    (result : ListObjectsResult) × (rest : List ObjectInfo) × (list_objects_with_delimiter
        plain_host base_dir
        (lit "b")
        (lit "a")
        []
        (lit "/")
        (pos 7)
        two_objects
      ≡ (ok result, two_objects))
    × (shown plain_host base_dir (lit "b") (lit "a") [] (lit "/") (pos 7) two_objects (
          walk [] (
            folder 3 (
              entry
                (lit "a")
                (folder 3 (entry (lit "x") (file 2 (lit "XX")) end))
                (entry (lit "a-y") (file 3 (lit "Y")) end))))
        ≡ result.contents ++ rest)
    × (result.is_truncated ≡ false → rest ≡ [])
unfolding bucket_path resolve
list_objects_with_delimiter-shown_example =
    list_objects_with_delimiter-shown plain_host base_dir (lit "b") (lit "a") [] (lit "/") (pos 7)
      two_objects
      (folder 3 (
        entry (lit "a") (folder 3 (entry (lit "x") (file 2 (lit "XX")) end))
          (entry (lit "a-y") (file 3 (lit "Y")) end)))
      refl

list_objects_with_delimiter_bounds_example :
    (result : ListObjectsResult) × (list_objects_with_delimiter plain_host base_dir
        (lit "b")
        []
        []
        (lit "/")
        (pos 2)
        two_objects
      ≡ (ok result, two_objects))
    × (length result.contents + length result.common_prefixes ≤ 2)
    × AllBegin [] result.common_prefixes
    × AllDiffer result.common_prefixes
    × ((result.is_truncated ≡ true) ↔ (length result.contents + length result.common_prefixes ≡ 2))
list_objects_with_delimiter_bounds_example =
    list_objects_with_delimiter_bounds plain_host base_dir (lit "b") [] [] (lit "/") 2 two_objects

-- a bucket with an upload "u" of the parts 1 and 2
abbrev upload : Disk
upload = record {
  now = 9;
  root = with_bucket (
      folder 3 (
        entry (lit ".uploads")
          (folder 3 (
            entry (lit "u")
              (folder 3 (
                entry (lit "part-1") (file 2 (lit "he"))
                  (entry (lit "part-2") (file 3 (lit "llo")) end)))
              end))
          end));
}

abbrev both_parts : List CompletedPart
both_parts =
    record { part_number = pos 1; etag = [] } ∷ record { part_number = pos 2; etag = [] } ∷ []

abbrev whole_object : Disk
whole_object =
    (complete_multipart_upload plain_host base_dir (lit "b") (lit "k") (lit "u") both_parts
      upload).1

get_object-complete_multipart_upload_files_example :
    (obj : Object) × (get_object plain_host base_dir (lit "b") (lit "k") whole_object
      ≡ (ok obj, whole_object))
    × (obj.body ≡ file_reader (lit "hello"))
unfolding complete_multipart_upload path_of upload_dir part_path plain_host mkdir_all alter created
    appended cleared resolve parent under
get_object-complete_multipart_upload_files_example =
    get_object-complete_multipart_upload_files plain_host base_dir (lit "b") (lit "k") (lit "u")
      both_parts (lit "he" ∷ lit "llo" ∷ []) upload whole_object
      (((2, refl), λ h. cc, ((3, refl), λ h. cc, tt))) refl refl

abort_multipart_upload-delete_bucket_example :
    abort_multipart_upload plain_host base_dir (lit "b") (lit "k") (lit "..") two_objects
    ≡ delete_bucket plain_host base_dir (lit "b") two_objects
abort_multipart_upload-delete_bucket_example =
    abort_multipart_upload-delete_bucket plain_host base_dir (lit "b") (lit "k") two_objects

-- an upload of the parts 1, 2 and 10, whose files stand in the order 1, 10, 2
abbrev ten_parts : Disk
ten_parts = record {
  now = 9;
  root = with_bucket (
      folder 3 (
        entry (lit ".uploads")
          (folder 3 (
            entry (lit "u")
              (folder 3 (
                entry (lit "part-1") (file 2 [])
                  (entry (lit "part-10") (file 2 []) (entry (lit "part-2") (file 2 []) end))))
              end))
          end));
}

numbers : List Part → List ℤ
numbers [] = []
numbers (p ∷ ps) = p.part_number ∷ numbers ps

part_page : Result Bytes ListPartsResult → List ℤ
unfolding numbers
part_page (ok r) = numbers r.parts
part_page (err e) = []

-- Behind a page of two parts, the part 2 is on no page.
first_parts :
    part_page
      (list_parts plain_host base_dir (lit "b") (lit "k") (lit "u") (pos 2) (pos 0) ten_parts).0
    ≡ pos 1 ∷ pos 10 ∷ []
unfolding list_parts upload_dir part_page resolve entries_of
first_parts = refl

later_parts :
    part_page
      (list_parts plain_host base_dir (lit "b") (lit "k") (lit "u") (pos 2) (pos 10) ten_parts).0
    ≡ []
unfolding list_parts upload_dir part_page resolve entries_of
later_parts = refl
