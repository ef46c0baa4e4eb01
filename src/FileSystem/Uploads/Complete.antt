-- ===== src/FileSystem/Uploads/Complete.antt =====
-- `CompleteMultipartUpload` of the file system backend.
use s3proxy_go.Base.{
  ℕ, Bytes, List, Result, ok, err, ◌≡◌, ◌≢◌, refl, sym, ap, [], ◌∷◌, ◌++◌, ◌∙◌, lit, ℤ, false,
  format_int, subst,
}
use mathlib.Core.List.{append_assoc, append-nil}
use s3proxy_go.Storage.Backend.{Action, Object, CompletedPart}
use s3proxy_go.FileSystem.Tree.{
  Node, file, Errno, no_entry, not_a_directory, is_a_directory, not_empty, FilePath, resolve, alter,
  appended, created, cleared, unless_missing,
}
use s3proxy_go.FileSystem.Tree.Frames.{resolve-alter_other}
use s3proxy_go.FileSystem.Tree.Folders.{resolve-mkdir_all, resolve-alter_apart, under}
use s3proxy_go.FileSystem.Paths.{parent}
use s3proxy_go.FileSystem.Disk.{
  Disk, Host, ◌>>=◌, ◌>>◌, and_then, wrap, committed, os_open, os_create, os_remove_all, copied,
}
use s3proxy_go.FileSystem.Disk.Steps.{mkdir_all-ok, create-ok, copied-ok, open-ok}
use s3proxy_go.FileSystem.Objects.{path_of, get_object, object_at, opened_reader}
use s3proxy_go.FileSystem.Objects.Steps.{
  resolve-created, resolve-appended, created-SparesFolders, appended-SparesFolders,
}
use s3proxy_go.FileSystem.Objects.Reads.{get_object-found}
use s3proxy_go.FileSystem.Objects.RoundTrip.{file_reader}
use s3proxy_go.FileSystem.Uploads.{
  part_path, upload_dir, add_part, add_parts, clean_up, complete_multipart_upload,
}

and_then_assoc :
    {A B C : Type 0} (r : Result Bytes A × Disk) (f : A → Action Disk B) (g : B → Action Disk C)
    → and_then g (and_then f r) ≡ and_then (λ a. f a >>= g) r
and_then_assoc (ok a, d) f g = refl
and_then_assoc (err e, d) f g = refl

abbrev pub concat : List Bytes → Bytes
concat [] = []
concat (b ∷ bs) = b ++ concat bs

module _ (host : Host) (base : FilePath) (bucket upload_id : Bytes) (path : FilePath) where
  -- every part has its file, with that content, and none of them is the object's file
  abbrev pub HasParts : List CompletedPart → List Bytes → Node → Type 0
  HasParts [] [] n = Unit
  HasParts [] (b ∷ bs) n = ⊥
  HasParts (part ∷ parts) [] n = ⊥
  HasParts (part ∷ parts) (b ∷ bs) n =
      ((t : ℕ) × (resolve (part_path host base bucket upload_id part.part_number) n
          ≡ ok (file t b)))
      × (path ≢ part_path host base bucket upload_id part.part_number)
      × HasParts parts bs n

  -- a change that leaves the other files leaves the parts
  HasParts-kept :
      (parts : List CompletedPart) (bs : List Bytes) (n n' : Node)
      → ((q : FilePath) (t : ℕ) (b : Bytes)
          → path ≢ q
          → resolve q n ≡ ok (file t b)
          → resolve q n' ≡ ok (file t b))
      → HasParts parts bs n
      → HasParts parts bs n'
  HasParts-kept [] [] n n' keeps h = tt
  HasParts-kept [] (b ∷ bs) n n' keeps h = absurd h
  HasParts-kept (part ∷ parts) [] n n' keeps h = absurd h
  HasParts-kept (part ∷ parts) (b ∷ bs) n n' keeps ((t, there), apart, more) =
      ((t, keeps _ t b apart there), apart, HasParts-kept parts bs n n' keeps more)

  -- one turn of the loop appends the content of its part
  add_part-ok :
      (n : ℤ) (t : ℕ) (b : Bytes) (k : Action Disk (Unit {0})) (d d' : Disk)
      → resolve (part_path host base bucket upload_id n) d.root ≡ ok (file t b)
      → (add_part host base bucket upload_id path n >> k) d ≡ (ok tt, d')
      → (m : Node) × (alter d.now (appended d.now b) path d.root ≡ ok m)
        × (k (record d { root = m }) ≡ (ok tt, d'))
  unfolding add_part
  add_part-ok n t b k d d' there h =
      let opens = lit "failed to open part " ++ format_int n ++ lit ": " in
      let copies = lit "failed to copy part " ++ format_int n ++ lit ": " in
      let copy : Node → Action Disk (Unit {0}) =
        λ part. wrap copies (copied host path (opened_reader part)) in
      let (part, found, rest) =
        open-ok host opens (part_path host base bucket upload_id n) (λ part. copy part >> k) d tt d'
          (sym (
              and_then_assoc (wrap opens (os_open host (part_path host base bucket upload_id n)) d)
                copy (λ _. k))
            ∙ h) in
      let same : part ≡ file t b = cc (found, there) in
      let (m, appends, sound, done) =
        copied-ok host copies path k d tt d' (opened_reader (file t b))
          (subst (λ x. (copy x >> k) d ≡ (ok tt, d')) same rest) in
      (m, appends, done)

  -- the loop appends the contents of the parts, in the order of the list
  add_parts-ok :
      (parts : List CompletedPart) (bs : List Bytes) (k : Action Disk (Unit {0})) (d d' : Disk)
      (t : ℕ) (b : Bytes)
      → HasParts parts bs d.root
      → resolve path d.root ≡ ok (file t b)
      → (add_parts host base bucket upload_id path parts >> k) d ≡ (ok tt, d')
      → (n : Node) × (u : ℕ) × (resolve path n ≡ ok (file u (b ++ concat bs)))
        × (k (record d { root = n }) ≡ (ok tt, d'))
  unfolding add_parts
  add_parts-ok [] [] k d d' t b has is h =
      (d.root, t, is ∙ ap (λ x. ok (file t x)) (sym (append-nil b)), h)
  add_parts-ok [] (c ∷ bs) k d d' t b has is h = absurd has
  add_parts-ok (part ∷ parts) [] k d d' t b has is h = absurd has
  add_parts-ok (part ∷ parts) (c ∷ bs) k d d' t b ((v, there), apart, more) is h =
      let rest = add_parts host base bucket upload_id path parts in
      let (m, appends, next) = add_part-ok part.part_number v c (rest >> k) d d' there (
        sym (
          and_then_assoc (add_part host base bucket upload_id path part.part_number d) (λ _. rest)
            (λ _. k))
        ∙ h) in
      let keeps =
        λ (q : FilePath) (t : ℕ) (a : Bytes) (apart : path ≢ q)
            (there : resolve q d.root ≡ ok (file t a)).
          resolve-alter_other d.now (appended d.now c) (appended-SparesFolders d.now c) path q
            d.root m t a apart appends there in
      let (n, u, is', done) =
        add_parts-ok parts bs k (record d { root = m }) d' d.now (b ++ c)
          (HasParts-kept parts bs d.root m keeps more)
          (resolve-appended d.now c path d.root m t b appends is) next in
      (n, u, is' ∙ ap (λ x. ok (file u x)) (append_assoc b c (concat bs)), done)

cleaned :
    (text : Errno → Bytes) (now : ℕ) (dir q : FilePath) (d : Disk) (t : ℕ) (b : Bytes)
    → under dir q ≡ false
    → resolve q d.root ≡ ok (file t b)
    → resolve q (committed text d (unless_missing d.root (alter now cleared dir d.root))).1.root
      ≡ ok (file t b)
cleaned text now dir q d t b apart is = kept (alter now cleared dir d.root) refl
  where
    kept :
        (r : Result Errno Node)
        → alter now cleared dir d.root ≡ r
        → resolve q (committed text d (unless_missing d.root r)).1.root ≡ ok (file t b)
    kept (ok n) h = resolve-alter_apart now cleared dir q d.root n t b apart h is
    kept (err no_entry) h = is
    kept (err not_a_directory) h = is
    kept (err is_a_directory) h = is
    kept (err not_empty) h = is

-- When `CompleteMultipartUpload` succeeds, a read of the key answers the contents of the parts, one
-- behind the other in the order of the request, whatever their numbers: where each part that the
-- request names has a file with that content, none of these is the object's own file, and the object
-- does not lie in the folder of the upload.
pub get_object-complete_multipart_upload_files :
    (host : Host) (base : FilePath) (bucket key upload_id : Bytes) (parts : List CompletedPart)
    (contents : List Bytes) (d d' : Disk)
    → HasParts host base bucket upload_id (path_of host base bucket key) parts contents d.root
    → under (upload_dir host base bucket upload_id) (path_of host base bucket key) ≡ false
    → complete_multipart_upload host base bucket key upload_id parts d ≡ (ok tt, d')
    → (obj : Object) × (get_object host base bucket key d' ≡ (ok obj, d'))
      × (obj.body ≡ file_reader (concat contents))
unfolding complete_multipart_upload clean_up object_at os_remove_all
get_object-complete_multipart_upload_files host base bucket key upload_id parts contents d d' has
      outside done =
    let path = path_of host base bucket key in
    let clean = clean_up host base (upload_dir host base bucket upload_id) in
    let adds = add_parts host base bucket upload_id path parts >> clean in
    let makes = lit "failed to create object directory: " in
    let opens = lit "failed to create object file: " in
    let (n1, made, rest1) =
      mkdir_all-ok host makes (parent path) (wrap opens (os_create host path) >> adds) d tt d'
        done in
    let (n2, creates, rest2) =
      create-ok host opens path adds (record d { root = n1 }) tt d' rest1 in
    let elsewhere =
      λ (q : FilePath) (t : ℕ) (b : Bytes) (apart : path ≢ q)
          (there : resolve q d.root ≡ ok (file t b)).
        resolve-alter_other d.now (created d.now) (created-SparesFolders d.now) path q n1 n2 t b
          apart creates (resolve-mkdir_all d.now (parent path) q d.root n1 t b made there) in
    let (n3, u, is, cleans) =
      add_parts-ok host base bucket upload_id path parts contents clean (record d { root = n2 }) d'
        d.now []
        (HasParts-kept host base bucket upload_id path parts contents d.root n2 elsewhere has)
        (resolve-created d.now path n1 n2 creates) rest2 in
    let there =
      ap (λ (s : Disk). resolve path s.root) (sym (ap (λ x. x.1) cleans))
      ∙ cleaned _ d.now (upload_dir host base bucket upload_id) path (record d { root = n3 }) u
          (concat contents) outside is in
    (
      object_at host base path (file u (concat contents)) d',
      get_object-found host base bucket key d' (file u (concat contents)) there,
      refl,
    )
