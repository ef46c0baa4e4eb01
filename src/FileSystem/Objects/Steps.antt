-- ===== src/FileSystem/Objects/Steps.antt =====
-- The steps of `PutObject` where it succeeds, and what `GetObject` answers from the tree.
use s3proxy_go.Base.{ℕ, false, Bytes, Dict, ok, ◌≡◌, ◌≢◌, [], ◌++◌, ℤ, none, some, lit, Option}
use s3proxy_go.Storage.Backend.{Reader}
use s3proxy_go.FileSystem.Tree.{
  Node, file, folder, FilePath, alter, appended, created, written, removed, resolve, mkdir_all,
  entered,
}
use s3proxy_go.FileSystem.Tree.Frames.{SparesFolders, resolve-alter_self, resolve-alter_other}
use s3proxy_go.FileSystem.Tree.Folders.{resolve-mkdir_all}
use s3proxy_go.FileSystem.Paths.{parent}
use s3proxy_go.FileSystem.Disk.{◌>>◌, Disk, Host, copied, os_create, wrap}
use s3proxy_go.FileSystem.Disk.Steps.{mkdir_all-ok, create-ok, copied-ok}
use s3proxy_go.FileSystem.Objects.{path_of, put_object, save_metadata}

pub created-SparesFolders : (now : ℕ) → SparesFolders (created now)
unfolding created
created-SparesFolders now t c n es o h = cc

pub appended-SparesFolders : (now : ℕ) (b : Bytes) → SparesFolders (appended now b)
unfolding appended
appended-SparesFolders now b t c n es o h = cc

pub written-SparesFolders : (now : ℕ) (b : Bytes) → SparesFolders (written now b)
unfolding written
written-SparesFolders now b t c n es o h = cc

pub removed-SparesFolders : SparesFolders removed
unfolding removed
removed-SparesFolders t c n es o h = cc

-- after `os.Create` there is an empty file
pub resolve-created :
    (now : ℕ) (p : FilePath) (n n' : Node)
    → alter now (created now) p n ≡ ok n'
    → resolve p n' ≡ ok (file now [])
unfolding created
resolve-created now p n n' changed = finish (resolve-alter_self now (created now) p n n' changed)
  where
    finish :
        (before : Option Node) × (after : Option Node) × (created now before ≡ ok after)
          × (resolve p n ≡ entered ok before)
          × (resolve p n' ≡ entered ok after)
        → resolve p n' ≡ ok (file now [])
    finish (none, after, edited, was, is) = cc
    finish (some (file t b), after, edited, was, is) = cc
    finish (some (folder t es), after, edited, was, is) = cc

pub resolve-written :
    (now : ℕ) (b : Bytes) (p : FilePath) (n n' : Node)
    → alter now (written now b) p n ≡ ok n'
    → resolve p n' ≡ ok (file now b)
unfolding written
resolve-written now b p n n' changed =
    finish (resolve-alter_self now (written now b) p n n' changed)
  where
    finish :
        (before : Option Node) × (after : Option Node) × (written now b before ≡ ok after)
          × (resolve p n ≡ entered ok before)
          × (resolve p n' ≡ entered ok after)
        → resolve p n' ≡ ok (file now b)
    finish (none, after, edited, was, is) = cc
    finish (some (file t a), after, edited, was, is) = cc
    finish (some (folder t es), after, edited, was, is) = cc

-- bytes are written behind those of the file
pub resolve-appended :
    (now : ℕ) (more : Bytes) (p : FilePath) (n n' : Node) (t : ℕ) (b : Bytes)
    → alter now (appended now more) p n ≡ ok n'
    → resolve p n ≡ ok (file t b)
    → resolve p n' ≡ ok (file now (b ++ more))
unfolding appended
resolve-appended now more p n n' t b changed there =
    finish (resolve-alter_self now (appended now more) p n n' changed)
  where
    finish :
        (before : Option Node) × (after : Option Node) × (appended now more before ≡ ok after)
          × (resolve p n ≡ entered ok before)
          × (resolve p n' ≡ entered ok after)
        → resolve p n' ≡ ok (file now (b ++ more))
    finish (none, after, edited, was, is) = cc
    finish (some (file u a), after, edited, was, is) = cc (there, was)
    finish (some (folder u es), after, edited, was, is) = cc

module _ (host : Host) (base : FilePath) where
  pub put_object-steps :
      (bucket key : Bytes) (reader : Reader) (size : ℤ) (metadata : Dict Bytes) (d d' : Disk)
      → put_object host base bucket key reader size metadata d ≡ (ok tt, d')
      → (n1 : Node) × (n2 : Node) × (n3 : Node) × (mkdir_all d.now
            (parent (path_of host base bucket key))
            d.root
          ≡ ok n1)
        × (alter d.now (created d.now) (path_of host base bucket key) n1 ≡ ok n2)
        × (alter d.now (appended d.now reader.content) (path_of host base bucket key) n2 ≡ ok n3)
        × (reader.fails ≡ false)
        × (save_metadata host base (path_of host base bucket key) metadata (record d { root = n3 })
            ≡ (ok tt, d'))
  unfolding put_object
  put_object-steps bucket key reader size metadata d d' h =
      let path = path_of host base bucket key in
      let save = save_metadata host base path metadata in
      let wrote = lit "failed to write object data: " in
      let copies = wrap wrote (copied host path reader) >> save in
      let opens = lit "failed to create object file: " in
      let makes = lit "failed to create object directory: " in
      let (n1, made, rest1) =
        mkdir_all-ok host makes (parent path) (wrap opens (os_create host path) >> copies) d tt d'
          h in
      let (n2, opened, rest2) =
        create-ok host opens path copies (record d { root = n1 }) tt d' rest1 in
      let (n3, copied, sound, rest3) =
        copied-ok host wrote path save (record d { root = n2 }) tt d' reader rest2 in
      (n1, n2, n3, made, opened, copied, sound, rest3)

  -- the object's file once it is written, before its metadata
  pub put_object-file :
      (bucket key : Bytes) (reader : Reader) (size : ℤ) (metadata : Dict Bytes) (d d' : Disk)
      → put_object host base bucket key reader size metadata d ≡ (ok tt, d')
      → (n : Node) × (resolve (path_of host base bucket key) n ≡ ok (file d.now reader.content))
        × (reader.fails ≡ false)
        × (save_metadata host base (path_of host base bucket key) metadata (record d { root = n })
            ≡ (ok tt, d'))
  put_object-file bucket key reader size metadata d d' h =
      let path = path_of host base bucket key in
      let (n1, n2, n3, made, opened, copies, sound, rest) =
        put_object-steps bucket key reader size metadata d d' h in
      (
        n3,
        resolve-appended d.now reader.content path n2 n3 d.now [] copies
            (resolve-created d.now path n1 n2 opened),
        sound,
        rest,
      )

  -- a file elsewhere stays until the metadata is written
  pub put_object-elsewhere :
      (bucket key : Bytes) (reader : Reader) (size : ℤ) (metadata : Dict Bytes) (d d' : Disk)
      (q : FilePath) (t : ℕ) (b : Bytes)
      → put_object host base bucket key reader size metadata d ≡ (ok tt, d')
      → path_of host base bucket key ≢ q
      → resolve q d.root ≡ ok (file t b)
      → (n : Node) × (resolve q n ≡ ok (file t b))
        × (save_metadata host base (path_of host base bucket key) metadata (record d { root = n })
            ≡ (ok tt, d'))
  put_object-elsewhere bucket key reader size metadata d d' q t b h apart there =
      let path = path_of host base bucket key in
      let (n1, n2, n3, made, opened, copies, sound, rest) =
        put_object-steps bucket key reader size metadata d d' h in
      let kept1 = resolve-mkdir_all d.now (parent path) q d.root n1 t b made there in
      let kept2 =
        resolve-alter_other d.now (created d.now) (created-SparesFolders d.now) path q n1 n2 t b
          apart opened kept1 in
      (
        n3,
        resolve-alter_other d.now (appended d.now reader.content)
            (appended-SparesFolders d.now reader.content) path q n2 n3 t b apart copies kept2,
        rest,
      )
