-- ===== src/Encryption/Backend.antt =====
-- internal/storage/encrypted.go: `EncryptedBackend`.
pub mod Sealing
pub mod RoundTrip
pub mod Plaintext
use s3proxy_go.Base.{
  ℕ, suc, ◌+◌, ◌==◌, if◌then◌else◌, ◌&&◌, ◌||◌, not, Bool, true, false, Option, none, some, List,
  [], ◌∷◌, map, Bytes, is_empty, lit, length, Dict, lookup, insert, delete, ℤ, pos, parse_int,
  Result, ok, err, ◌≡◌,
}
use s3proxy_go.Storage.Backend
use s3proxy_go.Storage.Backend.{
  Reader, Object, ObjectInfo, ListObjectsResult, CompletedPart, Action,
}
use s3proxy_go.Kms.Envelope.{Gcm}
use s3proxy_go.Encryption.{
  KeyProvider, Codec, encrypt, manager_decrypt, field, read_all, algorithm_name, key_id_name,
  dek_name, nonce_name, size_name,
}
use s3proxy_go.Encryption.Metadata.{
  marker_name, clean_metadata, validate_encryption_metadata, get_original_size, merge, shown,
  size_shown, process_list_item,
}

pub record MultipartUploadInfo : Type 0 where
  pub bucket : Bytes
  pub key : Bytes
  pub original_metadata : Dict Bytes

-- the state of the wrapped backend, that of the key provider, the number of nonces drawn, and the
-- uploads in progress
pub record Encrypted (K S : Type 0) : Type 0 where
  pub backend : S
  pub keys : K
  pub drawn : ℕ
  pub multipart_uploads : Dict MultipartUploadInfo

module _ (gcm : Gcm) (codec : Codec) {K S : Type 0} (keys : KeyProvider K)
    (backend : Backend.Backend S) (enabled : Bool) (random : ℕ → Option Bytes) where
  -- a method of the wrapped backend
  wrapped : {A : Type 0} → Action S A → Action (Encrypted K S) A
  wrapped f e = let (result, s) = f e.backend in (result, record e { backend = s })

  with_body : Object → Result Bytes Reader → Result Bytes Object
  unfolding shown size_shown
  with_body obj (err message) = err (lit "failed to decrypt object")
  with_body obj (ok body) = ok (record obj {
    body = body;
    size = size_shown obj.metadata obj.size;
    metadata = shown obj.metadata;
  })

  checked_object : K → Object → Option Bytes → Result Bytes Object
  unfolding with_body is_empty field
  checked_object k obj problem =
      elim (if is_empty (field algorithm_name obj.metadata) then none else problem) [
        | some message ↦ err message
        | none ↦ with_body obj (manager_decrypt gcm codec keys enabled obj.body obj.metadata k)
      ]

  opened_object : K → Result Bytes Object → Result Bytes Object
  unfolding checked_object
  opened_object k (err message) = err message
  opened_object k (ok obj) = checked_object k obj (validate_encryption_metadata obj.metadata)

  -- `GetObject`
  unfoldable pub get_object : Bytes → Bytes → Action (Encrypted K S) Object
  unfolding opened_object
  get_object bucket key e =
      let (result, s) = backend.get_object bucket key e.backend in
      (opened_object e.keys result, record e { backend = s })

  store_sealed :
      Bytes
      → Bytes
      → Dict Bytes
      → Bytes
      → Dict Bytes
      → Option Bytes
      → Action (Encrypted K S) (Unit {0})
  unfolding wrapped
  store_sealed bucket key metadata content sealing (some message) e =
      (err (lit "encryption failed"), e)
  store_sealed bucket key metadata content sealing none e =
      wrapped
        (backend.put_object bucket key
          (record { seekable = true; content = content; fails = false }) (pos (length content))
          (insert marker_name (lit "AES256") (merge metadata sealing)))
        e

  store :
      Bytes
      → Bytes
      → Dict Bytes
      → Result Bytes (Bytes × Dict Bytes)
      → Action (Encrypted K S) (Unit {0})
  unfolding store_sealed
  store bucket key metadata (err message) e = (err (lit "failed to encrypt object"), e)
  store bucket key metadata (ok (content, sealing)) e =
      store_sealed bucket key metadata content sealing (validate_encryption_metadata sealing) e

  -- the state after `encrypt`, which used up a nonce
  after_encrypt : K → Encrypted K S → Encrypted K S
  after_encrypt k e = record e { keys = k; drawn = suc e.drawn }

  -- `PutObject`; encryption covers every bucket where it is enabled
  unfoldable pub put_object :
      Bytes → Bytes → Reader → ℤ → Dict Bytes → Action (Encrypted K S) (Unit {0})
  unfolding wrapped store after_encrypt
  put_object bucket key reader size metadata e =
      if enabled
      then (let (result, k) = encrypt gcm codec keys reader size (random e.drawn) e.keys in
          store bucket key metadata result (after_encrypt k e))
      else wrapped (backend.put_object bucket key reader size metadata) e

  started :
      MultipartUploadInfo
      → Result Bytes Bytes × S
      → Encrypted K S
      → Result Bytes Bytes × Encrypted K S
  started info (err message, s) e = (err message, record e { backend = s })
  started info (ok id, s) e =
      (ok id, record e { backend = s; multipart_uploads = insert id info e.multipart_uploads })

  -- `InitiateMultipartUpload`
  unfoldable pub initiate_multipart_upload :
      Bytes → Bytes → Dict Bytes → Action (Encrypted K S) Bytes
  unfolding wrapped started
  initiate_multipart_upload bucket key metadata e =
      if enabled
      then started (record { bucket = bucket; key = key; original_metadata = metadata })
          (backend.initiate_multipart_upload bucket key metadata e.backend) e
      else wrapped (backend.initiate_multipart_upload bucket key metadata) e

  replaced :
      Bytes → Result Bytes (Unit {0}) × S → Encrypted K S → Result Bytes (Unit {0}) × Encrypted K S
  replaced id (err message, s) e =
      (err (lit "failed to store encrypted object"), record e { backend = s })
  replaced id (ok u, s) e =
      (ok tt, record e { backend = s; multipart_uploads = delete id e.multipart_uploads })

  replace_object :
      Bytes
      → Bytes
      → Bytes
      → Dict Bytes
      → Result Bytes (Bytes × Dict Bytes)
      → Action (Encrypted K S) (Unit {0})
  unfolding replaced
  replace_object bucket key id metadata (err message) e =
      (err (lit "failed to encrypt completed object"), e)
  replace_object bucket key id metadata (ok (content, sealing)) e =
      replaced id
        (backend.put_object bucket key
          (record { seekable = true; content = content; fails = false }) (pos (length content))
          (insert marker_name (lit "AES256") (merge metadata sealing)) e.backend)
        e

  encrypt_completed :
      Bytes → Bytes → Bytes → Dict Bytes → Option Bytes → Action (Encrypted K S) (Unit {0})
  unfolding replace_object after_encrypt
  encrypt_completed bucket key id metadata none e = (err (lit "failed to read completed object"), e)
  encrypt_completed bucket key id metadata (some content) e =
      let reader : Reader = record { seekable = true; content = content; fails = false } in
      let (result, k) =
        encrypt gcm codec keys reader (pos (length content)) (random e.drawn) e.keys in
      replace_object bucket key id metadata result (after_encrypt k e)

  fetched :
      Bytes → Bytes → Bytes → Dict Bytes → Result Bytes Object → Action (Encrypted K S) (Unit {0})
  unfolding encrypt_completed
  fetched bucket key id original (err message) e =
      (err (lit "failed to get completed object for encryption"), e)
  fetched bucket key id original (ok obj) e =
      encrypt_completed bucket key id (merge (merge [] original) obj.metadata) (read_all obj.body) e

  completed :
      Bytes
      → Bytes
      → Bytes
      → Dict Bytes
      → Result Bytes (Unit {0}) × S
      → Encrypted K S
      → Result Bytes (Unit {0}) × Encrypted K S
  unfolding fetched
  completed bucket key id original (err message, s) e = (err message, record e { backend = s })
  completed bucket key id original (ok u, s) e =
      let (result, s') = backend.get_object bucket key s in
      fetched bucket key id original result (record e { backend = s' })

  complete_known :
      Bytes
      → Bytes
      → Bytes
      → List CompletedPart
      → Option MultipartUploadInfo
      → Action (Encrypted K S) (Unit {0})
  unfolding wrapped completed
  complete_known bucket key id parts none e =
      wrapped (backend.complete_multipart_upload bucket key id parts) e
  complete_known bucket key id parts (some info) e =
      completed bucket key id info.original_metadata
        (backend.complete_multipart_upload bucket key id parts e.backend) e

  -- `CompleteMultipartUpload`
  unfoldable pub complete_multipart_upload :
      Bytes → Bytes → Bytes → List CompletedPart → Action (Encrypted K S) (Unit {0})
  unfolding wrapped complete_known
  complete_multipart_upload bucket key id parts e =
      if enabled
      then complete_known bucket key id parts (lookup id e.multipart_uploads) e
      else wrapped (backend.complete_multipart_upload bucket key id parts) e

  -- `AbortMultipartUpload`
  unfoldable pub abort_multipart_upload : Bytes → Bytes → Bytes → Action (Encrypted K S) (Unit {0})
  unfolding wrapped
  abort_multipart_upload bucket key id e =
      wrapped (backend.abort_multipart_upload bucket key id)
        (record e { multipart_uploads = delete id e.multipart_uploads })

  head_of : Result Bytes ObjectInfo → Result Bytes ObjectInfo
  head_of (err message) = err message
  head_of (ok info) = ok (process_list_item info)

  -- `HeadObject`
  unfoldable pub head_object : Bytes → Bytes → Action (Encrypted K S) ObjectInfo
  unfolding wrapped head_of
  head_object bucket key e =
      let (result, e') = wrapped (backend.head_object bucket key) e in (head_of result, e')

  listing_of : Result Bytes ListObjectsResult → Result Bytes ListObjectsResult
  listing_of (err message) = err message
  listing_of (ok listing) =
      ok (record listing { contents = map process_list_item listing.contents })

  -- `EncryptedBackend` as a backend
  unfoldable pub encrypted_backend : Backend.Backend (Encrypted K S)
  unfolding wrapped listing_of
  encrypted_backend = record {
    list_buckets = wrapped backend.list_buckets;
    create_bucket = λ bucket. wrapped (backend.create_bucket bucket);
    delete_bucket = λ bucket. wrapped (backend.delete_bucket bucket);
    bucket_exists = λ bucket. wrapped (backend.bucket_exists bucket);
    list_objects = λ bucket prefix marker n e.
        let (result, e') = wrapped (backend.list_objects bucket prefix marker n) e in
        (listing_of result, e');
    list_objects_with_delimiter = λ bucket prefix marker delimiter n e.
        let (result, e') =
          wrapped (backend.list_objects_with_delimiter bucket prefix marker delimiter n) e in
        (listing_of result, e');
    get_object = get_object;
    put_object = put_object;
    delete_object = λ bucket key. wrapped (backend.delete_object bucket key);
    head_object = head_object;
    get_object_acl = λ bucket key. wrapped (backend.get_object_acl bucket key);
    put_object_acl = λ bucket key acl. wrapped (backend.put_object_acl bucket key acl);
    initiate_multipart_upload = initiate_multipart_upload;
    upload_part =
        λ bucket key id n reader size. wrapped (backend.upload_part bucket key id n reader size);
    complete_multipart_upload = complete_multipart_upload;
    abort_multipart_upload = abort_multipart_upload;
    list_parts = λ bucket key id n marker. wrapped (backend.list_parts bucket key id n marker);
  }
