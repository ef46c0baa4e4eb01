-- ===== src/Encryption/Metadata.antt =====
-- internal/storage/encrypted.go: the metadata of encrypted objects.
use s3proxy_go.Base.{
  if◌then◌else◌, Option, none, some, [], ◌∷◌, Bytes, is_empty, lit, Dict, insert, delete, ℤ,
  parse_int,
}
use s3proxy_go.Storage.Backend.{ObjectInfo}
use s3proxy_go.Encryption.{field, algorithm_name, key_id_name, dek_name, nonce_name, size_name}

abbrev pub marker_name : Bytes
marker_name = lit "x-amz-server-side-encryption"

-- `cleanMetadata`
unfoldable pub clean_metadata : Dict Bytes → Dict Bytes
clean_metadata m =
    delete size_name
      (delete nonce_name (delete dek_name (delete key_id_name (delete algorithm_name m))))

-- `validateEncryptionMetadata`; which of the missing names it reports is the map's choice
unfoldable pub validate_encryption_metadata : Dict Bytes → Option Bytes
unfolding is_empty field
validate_encryption_metadata m =
    if is_empty (field algorithm_name m)
    then some (lit "missing algorithm metadata")
    else if is_empty (field dek_name m)
    then some (lit "missing DEK metadata")
    else if is_empty (field nonce_name m)
    then some (lit "missing nonce metadata")
    else none

-- `getOriginalSize`
unfoldable pub get_original_size : Dict Bytes → ℤ → ℤ
unfolding is_empty field
get_original_size m current =
    if is_empty (field size_name m)
    then current
    else elim (parse_int (field size_name m)) [ none ↦ current | some n ↦ n ]

-- the loop that merges the encryption's metadata
unfoldable pub merge : Dict Bytes → Dict Bytes → Dict Bytes
merge m [] = m
merge m ((k, v) ∷ more) = merge (insert k v m) more

-- the metadata that a client sees
unfoldable pub shown : Dict Bytes → Dict Bytes
unfolding field is_empty
shown m =
    if is_empty (field algorithm_name m)
    then clean_metadata m
    else insert marker_name (lit "AES256") (clean_metadata m)

unfoldable pub size_shown : Dict Bytes → ℤ → ℤ
unfolding field is_empty
size_shown m size = if is_empty (field algorithm_name m) then size else get_original_size m size

-- `processListItem`, and the end of `HeadObject`
unfoldable pub process_list_item : ObjectInfo → ObjectInfo
unfolding shown size_shown
process_list_item item = record item {
  size = size_shown item.metadata item.size;
  metadata = shown item.metadata;
}
