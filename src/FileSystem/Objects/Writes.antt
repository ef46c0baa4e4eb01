-- ===== src/FileSystem/Objects/Writes.antt =====
-- When `PutObject` of the file system backend succeeds, and what it leaves where the reader fails.
use s3proxy_go.Base.{
  ℕ, Bool, true, false, Bytes, Dict, ok, err, ◌≡◌, refl, sym, ap, [], ◌∷◌, ◌++◌, ◌∙◌, lit, ℤ, subst,
}
use s3proxy_go.Storage.Backend.{Action, Object, Reader}
use s3proxy_go.FileSystem.Tree.{
  Node, file, folder, Entries, FilePath, resolve, alter, appended, created, find, mkdir_all,
}
use s3proxy_go.FileSystem.Tree.Runs.{last}
use s3proxy_go.FileSystem.Paths.{parent, meta_path}
use s3proxy_go.FileSystem.Disk.{
  Disk, Host, os_mkdir_all, os_create, copied, ended, os_append, os_write_file, wrap, ◌>>◌,
}
use s3proxy_go.FileSystem.Objects.{path_of, get_object, put_object, object_at, save_metadata}
use s3proxy_go.FileSystem.Objects.Reads.{get_object-found}
use s3proxy_go.FileSystem.Objects.RoundTrip.{file_reader}
use s3proxy_go.FileSystem.Objects.Runs.{IsFree, IsWritable, file-runs, meta-runs}

sound-run :
    (context : Bytes) (fails : Bool) (k : Action Disk (Unit {0})) (d : Disk)
    → fails ≡ false
    → (wrap context (ended fails) >> k) d ≡ k d
sound-run context true k d h = cc
sound-run context false k d h = refl

broken-run :
    (context : Bytes) (fails : Bool) (k : Action Disk (Unit {0})) (d : Disk)
    → fails ≡ true
    → (wrap context (ended fails) >> k) d ≡ (err (context ++ lit "read failed"), d)
broken-run context true k d h = refl
broken-run context false k d h = cc

save_metadata-runs :
    (host : Host) (base : FilePath) (d : Disk) (c : Bytes) (p : FilePath) (n : Node) (u : ℕ)
    (es : Entries) (meta : Dict Bytes)
    → resolve (parent (c ∷ p)) n ≡ ok (folder u es)
    → IsFree (find (last (meta_path (c ∷ p))) es)
    → (d' : Disk) × (save_metadata host base (c ∷ p) meta (record d { root = n }) ≡ (ok tt, d'))
unfolding save_metadata os_write_file
save_metadata-runs host base d c p n u es [] at free = (record d { root = n }, refl)
save_metadata-runs host base d c p n u es (kv ∷ meta) at free =
    let (n', writes) = meta-runs d.now (host.marshal (kv ∷ meta)) c p n u es at free in
    (record d { root = n' }, simp writes)

module _ (host : Host) (base : FilePath) (bucket key : Bytes) (reader : Reader) (size : ℤ)
    (metadata : Dict Bytes) (d : Disk) where
  -- where the file can be written, the rest is up to the reader and the metadata file
  put_object-run :
      (n1 n2 n3 : Node)
      → mkdir_all d.now (parent (path_of host base bucket key)) d.root ≡ ok n1
      → alter d.now (created d.now) (path_of host base bucket key) n1 ≡ ok n2
      → alter d.now (appended d.now reader.content) (path_of host base bucket key) n2 ≡ ok n3
      → put_object host base bucket key reader size metadata d
        ≡ (wrap (lit "failed to write object data: ") (ended reader.fails)
              >> save_metadata host base (path_of host base bucket key) metadata)
            (record d { root = n3 })
  unfolding put_object os_mkdir_all os_create copied os_append
  put_object-run n1 n2 n3 e1 e2 e3 = simp (e1, e2, e3)

  -- `PutObject` succeeds where the reader does not fail and the file can be written.
  pub put_object_accepted :
      (c : Bytes) (p : FilePath)
      → path_of host base bucket key ≡ c ∷ p
      → IsWritable (c ∷ p) d.root
      → reader.fails ≡ false
      → (d' : Disk) × (put_object host base bucket key reader size metadata d ≡ (ok tt, d'))
  put_object_accepted c p named w sound =
      let (n1, n2, n3, u, es, made, creates, appends, at, is, free) =
        file-runs d.now c p d.root reader.content w in
      let wrote = lit "failed to write object data: " in
      let run =
        put_object-run n1 n2 n3
          (subst (λ q. mkdir_all d.now (parent q) d.root ≡ ok n1) (sym named) made)
          (subst (λ q. alter d.now (created d.now) q n1 ≡ ok n2) (sym named) creates)
          (subst (λ q. alter d.now (appended d.now reader.content) q n2 ≡ ok n3) (sym named)
            appends) in
      let (d', saves) = save_metadata-runs host base d c p n3 u es metadata at free in
      (
        d',
        run
            ∙ sound-run wrote reader.fails
                (save_metadata host base (path_of host base bucket key) metadata)
                (record d { root = n3 }) sound
            ∙ subst (λ q. save_metadata host base q metadata (record d { root = n3 }) ≡ (ok tt, d'))
                (sym named) saves,
      )

  -- `PutObject` with a reader that fails reports an error, where the file can be written, and leaves
  -- under the key the bytes that the reader gave before it failed: a read answers them as the object,
  -- whatever was there before.
  pub put_object_broken :
      (c : Bytes) (p : FilePath)
      → path_of host base bucket key ≡ c ∷ p
      → IsWritable (c ∷ p) d.root
      → reader.fails ≡ true
      → (message : Bytes) × (d' : Disk) × (obj : Object) × (put_object host base bucket key reader
            size metadata d
          ≡ (err message, d'))
        × (get_object host base bucket key d' ≡ (ok obj, d'))
        × (obj.body ≡ file_reader reader.content)
  unfolding object_at
  put_object_broken c p named w broken =
      let (n1, n2, n3, u, es, made, creates, appends, at, is, free) =
        file-runs d.now c p d.root reader.content w in
      let wrote = lit "failed to write object data: " in
      let run =
        put_object-run n1 n2 n3
          (subst (λ q. mkdir_all d.now (parent q) d.root ≡ ok n1) (sym named) made)
          (subst (λ q. alter d.now (created d.now) q n1 ≡ ok n2) (sym named) creates)
          (subst (λ q. alter d.now (appended d.now reader.content) q n2 ≡ ok n3) (sym named)
            appends) in
      (
        wrote ++ lit "read failed",
        record d { root = n3 },
        object_at host base (path_of host base bucket key) (file d.now reader.content)
            (record d { root = n3 }),
        run
            ∙ broken-run wrote reader.fails
                (save_metadata host base (path_of host base bucket key) metadata)
                (record d { root = n3 }) broken,
        get_object-found host base bucket key (record d { root = n3 }) (file d.now reader.content)
            (ap (λ q. resolve q n3) named ∙ is),
        refl,
      )
