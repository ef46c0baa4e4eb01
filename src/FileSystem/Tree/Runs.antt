-- ===== src/FileSystem/Tree/Runs.antt =====
-- A change succeeds where the folder of its path is there and the edit takes what the folder has.
use s3proxy_go.Base.{
  ℕ, if◌then◌else◌, Bytes, beq, beq_refl, Option, none, some, ok, ◌≡◌, refl, sym, ap, inl, inr,
  Option-cases, [], ◌∷◌, ◌++◌, ◌∙◌, lit,
}
use s3proxy_go.FileSystem.Tree.{
  Node, file, folder, Entries, FilePath, find, set, resolve, alter, Edit, mkdir_all, placed,
  entered,
}
use s3proxy_go.FileSystem.Tree.Names.{find-set}
use s3proxy_go.FileSystem.Tree.Inside.{enter-eq, enter-none, enter_other}
use s3proxy_go.FileSystem.Paths.{parent, meta_path}

-- the last name of a path
unfoldable pub last : FilePath → Bytes
last [] = []
last (c ∷ []) = c
last (c ∷ d ∷ p) = last (d ∷ p)

pub parent-meta_path : (c : Bytes) (p : FilePath) → parent (meta_path (c ∷ p)) ≡ parent (c ∷ p)
unfolding parent meta_path
parent-meta_path c [] = refl
parent-meta_path c (d ∷ []) = refl
parent-meta_path c (d ∷ e ∷ p) = ap (◌∷◌ c) (parent-meta_path d (e ∷ p))

pub last-meta_path :
    (c : Bytes) (p : FilePath) → last (meta_path (c ∷ p)) ≡ last (c ∷ p) ++ lit ".meta"
unfolding last meta_path
last-meta_path c [] = refl
last-meta_path c (d ∷ []) = refl
last-meta_path c (d ∷ e ∷ p) = last-meta_path d (e ∷ p)

here : (n k : Node) → resolve [] n ≡ ok k → n ≡ k
unfolding resolve
here n k h = cc

-- a path through a folder leads through one of its entries
pub through :
    (c : Bytes) (q : FilePath) (n k : Node)
    → resolve (c ∷ q) n ≡ ok k
    → (t : ℕ) × (es : Entries) × (m : Node) × (n ≡ folder t es)
      × (find c es ≡ some m)
      × (resolve q m ≡ ok k)
unfolding resolve
through c q (file t b) k h = cc
through c q (folder t es) k h = elim (Option-cases (find c es)) [
  | inl gone ↦ absurd (cc (h, enter-none q c t es gone))
  | inr (m, found) ↦ (t, es, m, refl, found, sym (enter-eq q c t es m found) ∙ h)
]

-- what a folder holds after one of its entries was written
find-placed :
    (now t : ℕ) (c : Bytes) (es : Entries) (old : Option Node) (n : Node)
    → (u : ℕ) × (placed now t c es old (some n) ≡ folder u (set c n es))
find-placed now t c es (some m) n = (t, refl)
find-placed now t c es none n = (now, refl)

base-runs :
    (now : ℕ) (edit : Edit) (c : Bytes) (n : Node) (t : ℕ) (es : Entries) (m : Node)
    → n ≡ folder t es
    → edit (find c es) ≡ ok (some m)
    → (u : ℕ) × (alter now edit (c ∷ []) n ≡ ok (folder u (set c m es)))
unfolding alter
base-runs now edit c n t es m eq edited =
    let (u, put) = find-placed now t c es (find c es) m in (u, rw eq (rw edited (ap ok put)))

deep-runs :
    (now : ℕ) (edit : Edit) (c d : Bytes) (p : FilePath) (n k k' : Node) (u : ℕ) (fs : Entries)
    → n ≡ folder u fs
    → find c fs ≡ some k
    → alter now edit (d ∷ p) k ≡ ok k'
    → alter now edit (c ∷ d ∷ p) n ≡ ok (folder u (set c k' fs))
unfolding alter
deep-runs now edit c d p n k k' u fs eq found altered = rw eq (rw found (rw altered refl))

made-runs :
    (now : ℕ) (c : Bytes) (p : FilePath) (n k k' : Node) (u : ℕ) (fs : Entries)
    → n ≡ folder u fs
    → find c fs ≡ some k
    → mkdir_all now p k ≡ ok k'
    → mkdir_all now (c ∷ p) n ≡ ok (folder u (set c k' fs))
unfolding mkdir_all
made-runs now c p n k k' u fs eq found done = rw eq (rw found (rw done refl))

set_self :
    (c : Bytes) (q : FilePath) (u : ℕ) (fs : Entries) (k' r : Node)
    → resolve q k' ≡ ok r
    → resolve (c ∷ q) (folder u (set c k' fs)) ≡ ok r
set_self c q u fs k' r is = enter_other q c u fs c k' ∙ rw (beq_refl c) is

-- The run of a change that leaves something, and the folder of its path then.
pub alter-runs :
    (now : ℕ) (edit : Edit) (c : Bytes) (p : FilePath) (n : Node) (t : ℕ) (es : Entries) (m : Node)
    → resolve (parent (c ∷ p)) n ≡ ok (folder t es)
    → edit (find (last (c ∷ p)) es) ≡ ok (some m)
    → (n' : Node) × (u : ℕ) × (es' : Entries) × (alter now edit (c ∷ p) n ≡ ok n')
      × (resolve (parent (c ∷ p)) n' ≡ ok (folder u es'))
      × ((k : Bytes) → find k es' ≡ (if beq (last (c ∷ p)) k then some m else find k es))
unfolding parent last
alter-runs now edit c [] n t es m at edited =
    let (u, done) = base-runs now edit c n t es m (here n (folder t es) at) edited in
    (folder u (set c m es), u, set c m es, done, unfold resolve in refl, λ k. find-set c k m es)
alter-runs now edit c (d ∷ p) n t es m at edited =
    let (u, fs, k, eq, found, inside) = through c (parent (d ∷ p)) n (folder t es) at in
    let (k', v, es', altered, is, holds) = alter-runs now edit d p k t es m inside edited in
    (
      folder u (set c k' fs),
      v,
      es',
      deep-runs now edit c d p n k k' u fs eq found altered,
      set_self c (parent (d ∷ p)) u fs k' (folder v es') is,
      holds,
    )

-- making the folders of a path that are there
pub mkdir_all-runs :
    (now : ℕ) (p : FilePath) (n : Node) (t : ℕ) (es : Entries)
    → resolve p n ≡ ok (folder t es)
    → (n' : Node) × (mkdir_all now p n ≡ ok n') × (resolve p n' ≡ ok (folder t es))
mkdir_all-runs now [] n t es at =
    let eq = here n (folder t es) at in
    (folder t es, rw eq (unfold mkdir_all in refl), unfold resolve in refl)
mkdir_all-runs now (c ∷ p) n t es at =
    let (u, fs, k, eq, found, inside) = through c p n (folder t es) at in
    let (k', done, is) = mkdir_all-runs now p k t es inside in
    (
      folder u (set c k' fs),
      made-runs now c p n k k' u fs eq found done,
      set_self c p u fs k' (folder t es) is,
    )

-- what stands at a path is an entry of its folder
pub resolve-last :
    (c : Bytes) (p : FilePath) (n : Node) (t : ℕ) (es : Entries)
    → resolve (parent (c ∷ p)) n ≡ ok (folder t es)
    → resolve (c ∷ p) n ≡ entered ok (find (last (c ∷ p)) es)
unfolding parent last
resolve-last c [] n t es at = rw (here n (folder t es) at) (unfold resolve in refl)
resolve-last c (d ∷ p) n t es at =
    let (u, fs, k, eq, found, inside) = through c (parent (d ∷ p)) n (folder t es) at in
    ap (resolve (c ∷ d ∷ p)) eq ∙ enter-eq (d ∷ p) c u fs k found ∙ resolve-last d p k t es inside
