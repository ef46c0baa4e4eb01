-- ===== src/FileSystem/Objects/Reads.antt =====
-- `GetObject` from what stands at the paths of an object and of its metadata file.
use s3proxy_go.Base.{
  ℕ, Bytes, Dict, Result, ok, err, ◌≡◌, ◌≢◌, refl, ap, arith, [], ◌∷◌, ◌++◌, drop, length,
  length-append, lit,
}
use s3proxy_go.FileSystem.Tree.{Node, file, Errno, FilePath, resolve, alter, written}
use s3proxy_go.FileSystem.Paths.{meta_path}
use s3proxy_go.FileSystem.Disk.{
  Disk, Host, os_stat, os_open, os_read_file, os_write_file, stat, wrapped, committed,
}
use s3proxy_go.FileSystem.Objects.{path_of, get_object, object_at, load_metadata, save_metadata}

longer : (c : Bytes) → c ≢ c ++ lit ".meta"
longer c h = omega (arith, ap length h, length-append c (lit ".meta"))

-- the metadata file is another file than the object
pub meta_path-ne : (p : FilePath) → p ≢ meta_path p
unfolding meta_path
meta_path-ne [] h = cc
meta_path-ne (c ∷ []) h = longer c cc
meta_path-ne (c ∷ d ∷ p) h = meta_path-ne (d ∷ p) (ap (drop 1) h)

module _ (host : Host) (base : FilePath) where
  pub get_object-found :
      (bucket key : Bytes) (d : Disk) (n : Node)
      → resolve (path_of host base bucket key) d.root ≡ ok n
      → get_object host base bucket key d
        ≡ (ok (object_at host base (path_of host base bucket key) n d), d)
  unfolding get_object os_stat os_open
  get_object-found bucket key d n there = simp there

  pub get_object-missing :
      (bucket key : Bytes) (d : Disk) (e : Errno)
      → resolve (path_of host base bucket key) d.root ≡ err e
      → get_object host base bucket key d ≡ (
        err (
            lit "object not found: " ++ host.os_error d.root stat (path_of host base bucket key) e),
        d,
      )
  unfolding get_object os_stat
  get_object-missing bucket key d e gone = rw gone refl

  pub load_metadata-found :
      (p : FilePath) (d : Disk) (t : ℕ) (b : Bytes)
      → resolve (meta_path p) d.root ≡ ok (file t b)
      → load_metadata host base p d ≡ host.unmarshal b
  unfolding load_metadata os_read_file
  load_metadata-found p d t b there = rw there refl

  pub load_metadata-missing :
      (p : FilePath) (d : Disk) (e : Errno)
      → resolve (meta_path p) d.root ≡ err e
      → load_metadata host base p d ≡ []
  unfolding load_metadata os_read_file
  load_metadata-missing p d e gone = rw gone refl

  saved :
      (context : Bytes) (text : Errno → Bytes) (d : Disk) (r : Result Errno Node) (d' : Disk)
      → ◌≡◌ {A = Result Bytes (Unit {0}) × Disk}
          (wrapped context (committed text d r).0, (committed text d r).1)
          (ok tt, d')
      → (n : Node) × (r ≡ ok n) × (d' ≡ record d { root = n })
  saved context text d (ok n) d' h = (n, refl, cc)
  saved context text d (err e) d' h = cc

  -- the metadata file is written
  pub save_metadata-some :
      (p : FilePath) (metadata : Dict Bytes) (d d' : Disk)
      → metadata ≢ []
      → save_metadata host base p metadata d ≡ (ok tt, d')
      → (n : Node) × (alter d.now (written d.now (host.marshal metadata)) (meta_path p) d.root
          ≡ ok n)
        × (d' ≡ record d { root = n })
  unfolding save_metadata os_write_file
  save_metadata-some p [] d d' filled h = absurd (filled refl)
  save_metadata-some p (kv ∷ metadata) d d' filled h =
      saved (lit "failed to write metadata file: ") _ d _ d' h

  pub save_metadata-none :
      (p : FilePath) (d d' : Disk) → save_metadata host base p [] d ≡ (ok tt, d') → d' ≡ d
  unfolding save_metadata
  save_metadata-none p d d' h = cc
