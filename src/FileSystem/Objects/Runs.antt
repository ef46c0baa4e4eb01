-- ===== src/FileSystem/Objects/Runs.antt =====
-- The files of an object are written where their folder is there and their names are free.
use s3proxy_go.Base.{
  ℕ, Bytes, beq, Option, none, some, ok, ◌≡◌, refl, sym, ap, [], ◌∷◌, ◌++◌, ◌∙◌, lit, if◌then◌else◌,
  beq_refl, subst, inl, inr, Bool-cases,
}
use s3proxy_go.FileSystem.Tree.{
  Node, file, folder, Entries, FilePath, resolve, alter, appended, created, written, find,
  mkdir_all, entered,
}
use s3proxy_go.FileSystem.Tree.Runs.{
  last, parent-meta_path, alter-runs, mkdir_all-runs, resolve-last,
}
use s3proxy_go.FileSystem.Paths.{parent, meta_path}

-- a file can be written under a name that is new or that of a file
abbrev pub IsFree : Option Node → Type 0
IsFree none = Unit
IsFree (some (file t b)) = Unit
IsFree (some (folder t es)) = ⊥

-- the folder of a path is there, and the path and that of its metadata file are not folders
pub record IsWritable (p : FilePath) (n : Node) : Type 0 where
  pub time : ℕ
  pub entries : Entries
  pub folder_there : resolve (parent p) n ≡ ok (folder time entries)
  pub name_free : IsFree (find (last p) entries)
  pub meta_free : IsFree (find (last (meta_path p)) entries)

created-IsFree : (now : ℕ) (o : Option Node) → IsFree o → created now o ≡ ok (some (file now []))
unfolding created
created-IsFree now none h = refl
created-IsFree now (some (file t b)) h = refl
created-IsFree now (some (folder t es)) h = absurd h

written-IsFree :
    (now : ℕ) (b : Bytes) (o : Option Node) → IsFree o → written now b o ≡ ok (some (file now b))
unfolding written
written-IsFree now b none h = refl
written-IsFree now b (some (file t a)) h = refl
written-IsFree now b (some (folder t es)) h = absurd h

still-IsFree :
    (c k : Bytes) (t : ℕ) (b : Bytes) (o : Option Node)
    → IsFree o
    → IsFree (if beq c k then some (file t b) else o)
still-IsFree c k t b o free = elim (Bool-cases (beq c k)) [ inl h ↦ rw h tt | inr h ↦ rw h free ]

holds_self :
    (c : Bytes) (es es' : Entries) (m : Node)
    → ((k : Bytes) → find k es' ≡ (if beq c k then some m else find k es))
    → find c es' ≡ some m
holds_self c es es' m holds = rw (holds c) (rw (beq_refl c) refl)

module _ (now : ℕ) (c : Bytes) (p : FilePath) (n : Node) (content : Bytes) where
  -- the file is created and filled
  pub file-runs :
      (w : IsWritable (c ∷ p) n)
      → (n1 : Node) × (n2 : Node) × (n3 : Node) × (u : ℕ) × (es : Entries) × (mkdir_all now
            (parent (c ∷ p))
            n
          ≡ ok n1)
        × (alter now (created now) (c ∷ p) n1 ≡ ok n2)
        × (alter now (appended now content) (c ∷ p) n2 ≡ ok n3)
        × (resolve (parent (c ∷ p)) n3 ≡ ok (folder u es))
        × (resolve (c ∷ p) n3 ≡ ok (file now content))
        × IsFree (find (last (meta_path (c ∷ p))) es)
  unfolding appended
  file-runs w =
      let (n1, made, at1) = mkdir_all-runs now (parent (c ∷ p)) n w.time w.entries w.folder_there in
      let (n2, u2, es2, creates, at2, holds2) =
        alter-runs now (created now) c p n1 w.time w.entries (file now []) at1
          (created-IsFree now (find (last (c ∷ p)) w.entries) w.name_free) in
      let there = holds_self (last (c ∷ p)) w.entries es2 (file now []) holds2 in
      let (n3, u3, es3, appends, at3, holds3) =
        alter-runs now (appended now content) c p n2 u2 es2 (file now content) at2
          (ap (appended now content) there) in
      let is = holds_self (last (c ∷ p)) es2 es3 (file now content) holds3 in
      let k = last (meta_path (c ∷ p)) in
      (
        n1,
        n2,
        n3,
        u3,
        es3,
        made,
        creates,
        appends,
        at3,
        resolve-last c p n3 u3 es3 at3 ∙ ap (entered ok) is,
        subst IsFree (sym (holds3 k)) (
            still-IsFree _ k now content (find k es2) (
              subst IsFree (sym (holds2 k))
                (still-IsFree _ k now [] (find k w.entries) w.meta_free))),
      )

meta-cons : (c : Bytes) (p : FilePath) → (e : Bytes) × (r : FilePath) × (meta_path (c ∷ p) ≡ e ∷ r)
unfolding meta_path
meta-cons c [] = (c ++ lit ".meta", [], refl)
meta-cons c (d ∷ p) = (c, meta_path (d ∷ p), refl)

-- the metadata file is written where it can be
pub meta-runs :
    (now : ℕ) (b : Bytes) (c : Bytes) (p : FilePath) (n : Node) (u : ℕ) (es : Entries)
    → resolve (parent (c ∷ p)) n ≡ ok (folder u es)
    → IsFree (find (last (meta_path (c ∷ p))) es)
    → (n' : Node) × (alter now (written now b) (meta_path (c ∷ p)) n ≡ ok n')
meta-runs now b c p n u es at free =
    let (e, r, eq) = meta-cons c p in
    let (n', v, es', altered, is, holds) =
      alter-runs now (written now b) e r n u es (file now b)
        (subst (λ q. resolve (parent q) n ≡ ok (folder u es)) eq
          (ap (λ q. resolve q n) (parent-meta_path c p) ∙ at))
        (subst (λ q. written now b (find (last q) es) ≡ ok (some (file now b))) eq
          (written-IsFree now b (find (last (meta_path (c ∷ p))) es) free)) in
    (n', subst (λ q. alter now (written now b) q n ≡ ok n') (sym eq) altered)
