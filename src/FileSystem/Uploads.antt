-- ===== src/FileSystem/Uploads.antt =====
-- internal/storage/filesystem.go: multipart uploads, whose parts are files in a folder of the bucket.
pub mod Complete
pub mod Abort
use s3proxy_go.Base.{
  ℕ, suc, Bool, true, false, if◌then◌else◌, ◌==◌, ◌||◌, ◌&&◌, Bytes, lit, Dict, has_prefix, drop,
  List, [], ◌∷◌, ◌++◌, Option, none, some, Result, ok, err, ℤ, pos, negsuc, leb_ℤ, ltb_ℤ, length,
  format_nat, format_int, parse_int, is_digit,
}
use s3proxy_go.Storage.Backend.{Action, Reader, CompletedPart, Part, ListPartsResult}
use s3proxy_go.FileSystem.Tree.{Node, file, folder, FilePath}
use s3proxy_go.FileSystem.Paths.{join, parent}
use s3proxy_go.FileSystem.Disk.{
  Disk, Host, ◌>>=◌, ◌>>◌, wrap, return, mod_time, os_mkdir_all, os_create, os_open, os_read_dir,
  os_remove_all, copied,
}
use s3proxy_go.FileSystem.Objects.{path_of, opened_reader, node_size}

unfoldable pub part_name : ℤ → Bytes
unfolding format_int
part_name n = lit "part-" ++ format_int n

unfoldable pub part_etag : ℤ → Bytes
unfolding format_int
part_etag n = b'"' ∷ format_int n ++ b'"' ∷ []

-- `fmt.Sscanf(name, "part-%d", &n)`: blanks, a sign and digits are read, and the rest is left
unfoldable pub leading_digits : Bytes → Bytes
leading_digits [] = []
leading_digits (c ∷ s) = if is_digit c then c ∷ leading_digits s else []

unfoldable pub signed_digits : Bytes → Bytes
unfolding leading_digits
signed_digits [] = []
signed_digits (c ∷ s) =
    if c == b'-' || c == b'+' then c ∷ leading_digits s else leading_digits (c ∷ s)

unfoldable pub skip_blanks : Bytes → Bytes
skip_blanks [] = []
skip_blanks (c ∷ s) = if c == b' ' then skip_blanks s else c ∷ s

unfoldable pub scan_part : Bytes → Option ℤ
unfolding has_prefix signed_digits skip_blanks parse_int
scan_part name =
    if has_prefix name (lit "part-")
    then parse_int (signed_digits (skip_blanks (drop 5 name)))
    else none

-- the number of a part that is listed: one above the marker
abbrev above : ℤ → Option ℤ → Option ℤ
above marker none = none
above marker (some n) = if ltb_ℤ marker n then some n else none

module _ (host : Host) (base : FilePath) where
  unfoldable pub upload_dir : Bytes → Bytes → FilePath
  unfolding join
  upload_dir bucket upload_id = join base (bucket ∷ lit ".uploads" ∷ upload_id ∷ [])

  unfoldable pub part_path : Bytes → Bytes → ℤ → FilePath
  unfolding join part_name
  part_path bucket upload_id n = join (upload_dir bucket upload_id) (part_name n ∷ [])

  -- the metadata is not kept
  unfoldable pub initiate_multipart_upload : Bytes → Bytes → Dict Bytes → Action Disk Bytes
  unfolding os_mkdir_all format_nat
  initiate_multipart_upload bucket key metadata d =
      let upload_id = key ++ b'-' ∷ format_nat d.now in
      (do
        wrap (lit "failed to create upload directory: ")
            (os_mkdir_all host (upload_dir bucket upload_id))
        return upload_id)
        d

  unfoldable pub upload_part : Bytes → Bytes → Bytes → ℤ → Reader → ℤ → Action Disk Bytes
  unfolding os_create copied part_etag
  upload_part bucket key upload_id n reader size = do
    let path = part_path bucket upload_id n
    wrap (lit "failed to create part file: ") (os_create host path)
    wrap (lit "failed to write part data: ") (copied host path reader)
    return (part_etag n)

  -- one turn of the loop
  unfoldable pub add_part : Bytes → Bytes → FilePath → ℤ → Action Disk (Unit {0})
  unfolding os_open copied format_int
  add_part bucket upload_id path n = do
    part ←
        wrap (lit "failed to open part " ++ format_int n ++ lit ": ")
          (os_open host (part_path bucket upload_id n))
    wrap (lit "failed to copy part " ++ format_int n ++ lit ": ")
        (copied host path (opened_reader part))

  unfoldable pub add_parts : Bytes → Bytes → FilePath → List CompletedPart → Action Disk (Unit {0})
  unfolding add_part
  add_parts bucket upload_id path [] = return tt
  add_parts bucket upload_id path (part ∷ parts) = do
    add_part bucket upload_id path part.part_number
    add_parts bucket upload_id path parts

  -- the error of the clean-up is ignored
  unfoldable pub clean_up : FilePath → Action Disk (Unit {0})
  unfolding os_remove_all
  clean_up dir d = (ok tt, (os_remove_all host dir d).1)

  unfoldable pub complete_multipart_upload :
      Bytes → Bytes → Bytes → List CompletedPart → Action Disk (Unit {0})
  unfolding os_mkdir_all os_create add_parts clean_up
  complete_multipart_upload bucket key upload_id parts = do
    let path = path_of host base bucket key
    wrap (lit "failed to create object directory: ") (os_mkdir_all host (parent path))
    wrap (lit "failed to create object file: ") (os_create host path)
    add_parts bucket upload_id path parts
    clean_up (upload_dir bucket upload_id)

  unfoldable pub abort_multipart_upload : Bytes → Bytes → Bytes → Action Disk (Unit {0})
  unfolding os_remove_all
  abort_multipart_upload bucket key upload_id = os_remove_all host (upload_dir bucket upload_id)

  abbrev part_of : Node → ℤ → Part
  part_of n number = record {
    part_number = number;
    etag = part_etag number;
    size = pos (node_size host base n);
    last_modified = mod_time n;
  }

  abbrev kept : Node → Option ℤ → List Part → List Part
  kept n none rest = rest
  kept n (some number) rest = part_of n number ∷ rest

  abbrev one_more : ℕ → Option ℤ → ℕ
  one_more count none = count
  one_more count (some number) = suc count

  -- the loop over the files of an upload, in the order of their names
  unfoldable pub gather_parts : ℤ → ℤ → ℕ → List (Bytes × Node) → List Part
  unfolding scan_part part_etag
  gather_parts max_parts marker count [] = []
  gather_parts max_parts marker count ((name, n) ∷ es) =
      let number = above marker (scan_part name) in
      let rest = gather_parts max_parts marker (one_more count number) es in
      if leb_ℤ max_parts (pos count) then [] else kept n number rest

  unfoldable pub list_parts : Bytes → Bytes → Bytes → ℤ → ℤ → Action Disk ListPartsResult
  unfolding os_read_dir gather_parts
  list_parts bucket key upload_id max_parts marker = do
    entries ←
        wrap (lit "failed to read upload directory: ")
          (os_read_dir host (upload_dir bucket upload_id))
    let parts = gather_parts max_parts marker 0 entries
    return (record {
      next_part_number_marker = pos 0;
      is_truncated = leb_ℤ max_parts (pos (length parts));
      parts = parts;
    })
