-- ===== src/FileSystem/Uploads/Abort.antt =====
-- `AbortMultipartUpload` of the file system backend: the upload ID of the request becomes part of a
-- path with no check.
use s3proxy_go.Base.{Bytes, ◌≡◌, refl, ap, [], ◌∷◌, ◌++◌, lit, split}
use s3proxy_go.FileSystem.Tree.{FilePath}
use s3proxy_go.FileSystem.Paths.{parent, join, descend_all}
use s3proxy_go.FileSystem.Disk.{Disk, Host, os_remove_all}
use s3proxy_go.FileSystem.Objects.{bucket_path, delete_bucket}
use s3proxy_go.FileSystem.Uploads.{upload_dir, abort_multipart_upload}

parent-append : (p : FilePath) (c : Bytes) → parent (p ++ c ∷ []) ≡ p
unfolding parent
parent-append [] c = refl
parent-append (d ∷ []) c = refl
parent-append (d ∷ e ∷ p) c = ap (◌∷◌ d) (parent-append (e ∷ p) c)

upload_dir_parent :
    (host : Host) (base : FilePath) (bucket : Bytes)
    → upload_dir host base bucket (lit "..") ≡ bucket_path host base bucket
unfolding upload_dir bucket_path join
upload_dir_parent host base bucket =
    parent-append (descend_all base (split bucket (lit "/"))) (lit ".uploads")

-- Aborting the upload with the ID ".." deletes the bucket with all that is in it, for every bucket and
-- every key, whether there is such an upload or not: it is `DeleteBucket`.
pub abort_multipart_upload-delete_bucket :
    (host : Host) (base : FilePath) (bucket key : Bytes) (d : Disk)
    → abort_multipart_upload host base bucket key (lit "..") d ≡ delete_bucket host base bucket d
unfolding abort_multipart_upload delete_bucket
abort_multipart_upload-delete_bucket host base bucket key d =
    ap (λ p. os_remove_all host p d) (upload_dir_parent host base bucket)
