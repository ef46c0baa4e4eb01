-- ===== src/FileSystem/Objects/RoundTrip.antt =====
-- Objects of the file system backend that are written and read back.
use s3proxy_go.Base.{
  ℕ, Bytes, Dict, lookup, ok, ◌≡◌, ◌≢◌, refl, sym, ap, [], ◌∙◌, length, ℤ, pos, false, true,
}
use s3proxy_go.Storage.Backend.{Object, Reader}
use s3proxy_go.FileSystem.Tree.{file, FilePath, resolve}
use s3proxy_go.FileSystem.Tree.Frames.{resolve-alter_other}
use s3proxy_go.FileSystem.Paths.{meta_path}
use s3proxy_go.FileSystem.Disk.{Disk, Host}
use s3proxy_go.FileSystem.Objects.{path_of, get_object, put_object, object_at, node_size}
use s3proxy_go.FileSystem.Objects.Steps.{
  put_object-file, put_object-elsewhere, resolve-written, written-SparesFolders,
}
use s3proxy_go.FileSystem.Objects.Reads.{
  get_object-found, load_metadata-found, save_metadata-some, save_metadata-none, meta_path-ne,
}

-- a reader of a file with that content
abbrev pub file_reader : Bytes → Reader
file_reader content = record { seekable = true; content = content; fails = false }

-- JSON gives back what these metadata have under every key
abbrev pub Codes : Host → Dict Bytes → Type 0
Codes host metadata =
    (k : Bytes) → lookup k (host.unmarshal (host.marshal metadata)) ≡ lookup k metadata

module _ (host : Host) (base : FilePath) (bucket key : Bytes) where
  -- what a read gives where there is a file, and a metadata file beside it
  read-file :
      (d : Disk) (t u : ℕ) (content bytes : Bytes)
      → resolve (path_of host base bucket key) d.root ≡ ok (file t content)
      → resolve (meta_path (path_of host base bucket key)) d.root ≡ ok (file u bytes)
      → (obj : Object) × (get_object host base bucket key d ≡ (ok obj, d))
        × (obj.body ≡ file_reader content)
        × (obj.size ≡ pos (length content))
        × (obj.last_modified ≡ t)
        × (obj.metadata ≡ host.unmarshal bytes)
  unfolding object_at node_size
  read-file d t u content bytes there beside = (
    object_at host base (path_of host base bucket key) (file t content) d,
    get_object-found host base bucket key d (file t content) there,
    refl,
    refl,
    refl,
    load_metadata-found host base (path_of host base bucket key) d u bytes beside,
  )

  -- the object and its metadata file, after both were written
  put-files :
      (reader : Reader) (size : ℤ) (metadata : Dict Bytes) (d d' : Disk)
      → metadata ≢ []
      → put_object host base bucket key reader size metadata d ≡ (ok tt, d')
      → (resolve (path_of host base bucket key) d'.root ≡ ok (file d.now reader.content))
        × (resolve (meta_path (path_of host base bucket key)) d'.root
            ≡ ok (file d.now (host.marshal metadata)))
  put-files reader size metadata d d' filled put =
      let path = path_of host base bucket key in
      let (n, there, sound, saves) =
        put_object-file host base bucket key reader size metadata d d' put in
      let (n', writes, eq) = save_metadata-some host base path metadata _ d' filled saves in
      (
        ap (λ (s : Disk). resolve path s.root) eq
            ∙ resolve-alter_other d.now _ (written-SparesFolders d.now _) (meta_path path) path n n'
                d.now reader.content (λ same. meta_path-ne path (sym same)) writes there,
        ap (λ (s : Disk). resolve (meta_path path) s.root) eq
            ∙ resolve-written d.now _ (meta_path path) n n' writes,
      )

  -- An object that was put with metadata, at least one key of it, is read back, where JSON gives the
  -- metadata back: its body has the bytes that the reader gave, its size is their number, its time is
  -- that of the put, and its metadata have the same value under every key.
  pub get_object-put_object_files :
      (reader : Reader) (size : ℤ) (metadata : Dict Bytes) (d d' : Disk)
      → metadata ≢ []
      → Codes host metadata
      → put_object host base bucket key reader size metadata d ≡ (ok tt, d')
      → (obj : Object) × (get_object host base bucket key d' ≡ (ok obj, d'))
        × (obj.body ≡ file_reader reader.content)
        × (obj.size ≡ pos (length reader.content))
        × (obj.last_modified ≡ d.now)
        × ((k : Bytes) → lookup k obj.metadata ≡ lookup k metadata)
  get_object-put_object_files reader size metadata d d' filled codes put =
      let (there, beside) = put-files reader size metadata d d' filled put in
      let (obj, got, body, sized, timed, meta) = read-file d' d.now d.now _ _ there beside in
      (obj, got, body, sized, timed, λ k. ap (lookup k) meta ∙ codes k)

  -- An object that is put with metadata and then put again with none keeps the metadata of the first
  -- put, where JSON gives them back: a read answers the bytes of the second put with the first one's
  -- metadata under every key.
  pub get_object-put_object_stale :
      (reader again : Reader) (size size' : ℤ) (metadata : Dict Bytes) (d d1 d2 : Disk)
      → metadata ≢ []
      → Codes host metadata
      → put_object host base bucket key reader size metadata d ≡ (ok tt, d1)
      → put_object host base bucket key again size' [] d1 ≡ (ok tt, d2)
      → (obj : Object) × (get_object host base bucket key d2 ≡ (ok obj, d2))
        × (obj.body ≡ file_reader again.content)
        × ((k : Bytes) → lookup k obj.metadata ≡ lookup k metadata)
  get_object-put_object_stale reader again size size' metadata d d1 d2 filled codes put put' =
      let path = path_of host base bucket key in
      let (there, beside) = put-files reader size metadata d d1 filled put in
      let (n, now_there, sound, saves) =
        put_object-file host base bucket key again size' [] d1 d2 put' in
      let (m, still, saves') =
        put_object-elsewhere host base bucket key again size' [] d1 d2 (meta_path path) d.now _ put'
          (meta_path-ne path) beside in
      let e = save_metadata-none host base path _ d2 saves in
      let e' = save_metadata-none host base path _ d2 saves' in
      let (obj, got, body, sized, timed, meta) =
        read-file d2 d1.now d.now again.content (host.marshal metadata)
          (ap (λ (s : Disk). resolve path s.root) e ∙ now_there)
          (ap (λ (s : Disk). resolve (meta_path path) s.root) e' ∙ still) in
      (obj, got, body, λ k. ap (lookup k) meta ∙ codes k)
