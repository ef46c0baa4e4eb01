-- ===== src/FileSystem/Objects/Deletes.antt =====
-- Objects of the file system backend that are deleted, and what a put leaves of the other objects.
use s3proxy_go.Base.{
  ℕ, Bytes, Dict, Option, none, some, inl, inr, Option-cases, Result, ok, err, ◌≡◌, ◌≢◌, refl, sym,
  ap, [], ◌∷◌, ◌++◌, ◌∙◌, lit, ℤ,
}
use s3proxy_go.Storage.Backend.{Object, Reader}
use s3proxy_go.FileSystem.Tree.{
  Node, file, folder, Entries, end, entry, Errno, no_entry, not_empty, not_a_directory,
  is_a_directory, FilePath, resolve, alter, removed, entered, then_place, put_back, find,
}
use s3proxy_go.FileSystem.Tree.Inside.{enter-eq, enter-none}
use s3proxy_go.FileSystem.Tree.Frames.{
  resolve-alter_self, resolve-alter_missing, resolve-alter_other,
}
use s3proxy_go.FileSystem.Paths.{meta_path}
use s3proxy_go.FileSystem.Disk.{Disk, Host, stat, remove, os_remove}
use s3proxy_go.FileSystem.Objects.{
  path_of, get_object, delete_object, put_object, object_at, drop_metadata, first_removed, root_or,
  save_metadata,
}
use s3proxy_go.FileSystem.Objects.Steps.{put_object-elsewhere, written-SparesFolders}
use s3proxy_go.FileSystem.Objects.Reads.{
  get_object-found, get_object-missing, save_metadata-some, save_metadata-none,
}

removed-takes : (o o' : Option Node) → removed o ≡ ok o' → o' ≡ none
unfolding removed
removed-takes none o' h = cc
removed-takes (some (file t b)) o' h = cc
removed-takes (some (folder t end)) o' h = cc
removed-takes (some (folder t (entry c n es))) o' h = cc

resolve-removed :
    (now : ℕ) (p : FilePath) (n n' : Node)
    → alter now removed p n ≡ ok n'
    → resolve p n' ≡ err no_entry
resolve-removed now p n n' changed =
    let (before, after, edited, was, is) = resolve-alter_self now removed p n n' changed in
    is ∙ ap (entered ok) (removed-takes before after edited)

removed-some : (m : Node) → removed (some m) ≢ err no_entry
unfolding removed
removed-some (file t b) h = cc
removed-some (folder t end) h = cc
removed-some (folder t (entry c n es)) h = cc

then_place-err :
    (f : Option Node → Node) (r : Result Errno (Option Node)) (e : Errno)
    → then_place f r ≡ err e
    → r ≡ err e
then_place-err f (ok o) e h = cc
then_place-err f (err i) e h = cc

put_back-err :
    (t : ℕ) (c : Bytes) (es : Entries) (r : Result Errno Node) (e : Errno)
    → put_back t c es r ≡ err e
    → r ≡ err e
put_back-err t c es (ok n) e h = cc
put_back-err t c es (err i) e h = cc

-- a removal that reports a missing entry found none
alter-missing :
    (now : ℕ) (p : FilePath) (n : Node)
    → alter now removed p n ≡ err no_entry
    → resolve p n ≡ err no_entry
unfolding alter
alter-missing now [] n h = cc
alter-missing now (c ∷ p) (file t b) h = cc
alter-missing now (c ∷ []) (folder t es) h = elim (Option-cases (find c es)) [
  | inl gone ↦ enter-none [] c t es gone
  | inr (m, found) ↦
      absurd (
        removed-some m (sym (ap removed found) ∙ then_place-err _ (removed (find c es)) no_entry h))
]
alter-missing now (c ∷ d ∷ p) (folder t es) h = elim (Option-cases (find c es)) [
  | inl gone ↦ enter-none (d ∷ p) c t es gone
  | inr (m, found) ↦
      enter-eq (d ∷ p) c t es m found
      ∙ alter-missing now (d ∷ p) m
          (put_back-err t c es (alter now removed (d ∷ p) m) no_entry (rw found at h))
]

module _ (host : Host) (base : FilePath) (bucket key : Bytes) where
  missing-drop_metadata :
      (p q : FilePath) (d : Disk)
      → resolve q d.root ≡ err no_entry
      → resolve q (drop_metadata host base p d).root ≡ err no_entry
  unfolding drop_metadata os_remove
  missing-drop_metadata p q d gone = kept (alter d.now removed (meta_path p) d.root) refl
    where
      kept :
          (r : Result Errno Node)
          → alter d.now removed (meta_path p) d.root ≡ r
          → resolve q (root_or d r).root ≡ err no_entry
      kept (ok n) h =
          resolve-alter_missing d.now removed removed-takes (meta_path p) q d.root n h gone
      kept (err e) h = gone

  gone-first_removed :
      (text : Errno → Bytes) (d d' : Disk) (r : Result Errno Node)
      → alter d.now removed (path_of host base bucket key) d.root ≡ r
      → first_removed text (drop_metadata host base (path_of host base bucket key)) d r
        ≡ (ok tt, d')
      → resolve (path_of host base bucket key) d'.root ≡ err no_entry
  gone-first_removed text d d' (ok n) e h =
      ap (λ (s : Disk). resolve (path_of host base bucket key) s.root) (sym (ap (λ x. x.1) h))
      ∙ missing-drop_metadata (path_of host base bucket key) _ (record d { root = n })
          (resolve-removed d.now _ d.root n e)
  gone-first_removed text d d' (err no_entry) e h =
      ap (λ (s : Disk). resolve (path_of host base bucket key) s.root) (sym (ap (λ x. x.1) h))
      ∙ alter-missing d.now _ d.root e
  gone-first_removed text d d' (err not_a_directory) e h = cc
  gone-first_removed text d d' (err is_a_directory) e h = cc
  gone-first_removed text d d' (err not_empty) e h = cc

  -- After `DeleteObject` has succeeded, also where there was no object, a read of the key reports that
  -- nothing is there.
  pub get_object-delete_object :
      (d d' : Disk)
      → delete_object host base bucket key d ≡ (ok tt, d')
      → get_object host base bucket key d' ≡ (
        err (
            lit "object not found: "
            ++ host.os_error d'.root stat (path_of host base bucket key) no_entry),
        d',
      )
  unfolding delete_object os_remove
  get_object-delete_object d d' deleted = get_object-missing host base bucket key d' no_entry (
      gone-first_removed (host.os_error d.root remove (path_of host base bucket key)) d d' _ refl
        deleted)

module _ (host : Host) (base : FilePath) where
  -- `PutObject` leaves the files of the other keys as they are: a read of a key whose path is neither
  -- that of the object nor that of its metadata file gives the same body, size, entity tag and time
  -- as before. (The metadata of the other key may be another where its metadata file is the object.)
  pub get_object-put_object_other :
      (bucket key bucket' key' : Bytes) (reader : Reader) (size : ℤ) (metadata : Dict Bytes)
      (d d' : Disk) (t : ℕ) (content : Bytes)
      → path_of host base bucket key ≢ path_of host base bucket' key'
      → meta_path (path_of host base bucket key) ≢ path_of host base bucket' key'
      → resolve (path_of host base bucket' key') d.root ≡ ok (file t content)
      → put_object host base bucket key reader size metadata d ≡ (ok tt, d')
      → (obj : Object) × (obj' : Object) × (get_object host base bucket' key' d ≡ (ok obj, d))
        × (get_object host base bucket' key' d' ≡ (ok obj', d'))
        × (obj'.body ≡ obj.body)
        × (obj'.size ≡ obj.size)
        × (obj'.etag ≡ obj.etag)
        × (obj'.last_modified ≡ obj.last_modified)
  unfolding object_at
  get_object-put_object_other bucket key bucket' key' reader size metadata d d' t content apart
        apart' there put =
      let q = path_of host base bucket' key' in
      let (n, still, saves) =
        put_object-elsewhere host base bucket key reader size metadata d d' q t content put apart
          there in
      let is = after metadata n d' saves still in
      (
        object_at host base q (file t content) d,
        object_at host base q (file t content) d',
        get_object-found host base bucket' key' d (file t content) there,
        get_object-found host base bucket' key' d' (file t content) is,
        refl,
        refl,
        refl,
        refl,
      )
    where
      after :
          (metadata : Dict Bytes) (n : Node) (d' : Disk)
          → save_metadata host base (path_of host base bucket key) metadata (record d { root = n })
            ≡ (ok tt, d')
          → resolve (path_of host base bucket' key') n ≡ ok (file t content)
          → resolve (path_of host base bucket' key') d'.root ≡ ok (file t content)
      after [] n d' saves still =
          ap (λ (s : Disk). resolve (path_of host base bucket' key') s.root)
            (save_metadata-none host base _ _ d' saves)
          ∙ still
      after (kv ∷ metadata) n d' saves still =
          let (n', writes, eq) =
            save_metadata-some host base (path_of host base bucket key) (kv ∷ metadata)
              (record d { root = n }) d' (λ h. cc) saves in
          ap (λ (s : Disk). resolve (path_of host base bucket' key') s.root) eq
          ∙ resolve-alter_other d.now _ (written-SparesFolders d.now _)
              (meta_path (path_of host base bucket key)) (path_of host base bucket' key') n n' t
              content apart' writes still
