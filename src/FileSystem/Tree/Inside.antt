-- ===== src/FileSystem/Tree/Inside.antt =====
-- Paths through a folder, before and after one of its entries has changed.
use s3proxy_go.Base.{
  ℕ, true, false, if◌then◌else◌, Bytes, beq, beq→eq, beq_refl, Option, none, some, Result, ok, err,
  ◌≡◌, refl, sym, ap, inl, inr, Bool-cases, Option-cases, ◌∷◌, ◌∙◌,
}
use s3proxy_go.FileSystem.Tree.{
  Node, file, folder, Entries, end, entry, Errno, no_entry, FilePath, find, set, resolve, placed,
  then_place, put_back, entered,
}
use s3proxy_go.FileSystem.Tree.Names.{find-set, find-unset}

-- the tree after a change, where the changed name is and where another is
pub find-placed_other :
    (now t : ℕ) (c e : Bytes) (es : Entries) (old new : Option Node) (p : FilePath)
    → beq c e ≡ false
    → resolve (e ∷ p) (placed now t c es old new) ≡ entered (resolve p) (find e es)
unfolding resolve
find-placed_other now t c e es (some m) (some n) p h = rw (find-set c e n es) (rw h refl)
find-placed_other now t c e es none (some n) p h = rw (find-set c e n es) (rw h refl)
find-placed_other now t c e es (some m) none p h = rw (find-unset c e es) (rw h refl)
find-placed_other now t c e es none none p h = refl

pub resolve-placed_self :
    (now t : ℕ) (c : Bytes) (es : Entries) (new : Option Node) (p : FilePath)
    → resolve (c ∷ p) (placed now t c es (find c es) new) ≡ entered (resolve p) new
unfolding resolve
resolve-placed_self now t c es (some n) p = elim (Option-cases (find c es)) [
  | inl e ↦ rw e (rw (find-set c c n es) (rw (beq_refl c) refl))
  | inr (m, e) ↦ rw e (rw (find-set c c n es) (rw (beq_refl c) refl))
]
resolve-placed_self now t c es none p = elim (Option-cases (find c es)) [
  | inl e ↦ rw e (rw e refl)
  | inr (m, e) ↦ rw e (rw (find-unset c c es) (rw (beq_refl c) refl))
]

-- a change that succeeds deep inside a folder
pub put_back-ok :
    (t : ℕ) (c : Bytes) (es : Entries) (r : Result Errno Node) (n' : Node)
    → put_back t c es r ≡ ok n'
    → (m' : Node) × (r ≡ ok m') × (n' ≡ folder t (set c m' es))
put_back-ok t c es (ok m) n' h = (m, refl, cc)
put_back-ok t c es (err e) n' h = cc

pub then_place-ok :
    (f : Option Node → Node) (r : Result Errno (Option Node)) (n' : Node)
    → then_place f r ≡ ok n'
    → (o : Option Node) × (r ≡ ok o) × (n' ≡ f o)
then_place-ok f (ok o) n' h = (o, refl, cc)
then_place-ok f (err e) n' h = cc

-- a folder with something below it
pub resolve-filled :
    (c : Bytes) (p : FilePath) (m n : Node)
    → resolve (c ∷ p) m ≡ ok n
    → (t : ℕ) × (e : Bytes) × (k : Node) × (es : Entries) × (m ≡ folder t (entry e k es))
unfolding resolve find
resolve-filled c p (file t b) n h = cc
resolve-filled c p (folder t end) n h = cc
resolve-filled c p (folder t (entry e k es)) n h = (t, e, k, es, refl)

pub enter-eq :
    (q : FilePath) (e : Bytes) (t : ℕ) (es : Entries) (m : Node)
    → find e es ≡ some m
    → resolve (e ∷ q) (folder t es) ≡ resolve q m
unfolding resolve
enter-eq q e t es m found = rw found refl

pub enter-none :
    (q : FilePath) (e : Bytes) (t : ℕ) (es : Entries)
    → find e es ≡ none
    → resolve (e ∷ q) (folder t es) ≡ err no_entry
unfolding resolve
enter-none q e t es gone = rw gone refl

pub enter_other :
    (q : FilePath) (e : Bytes) (t : ℕ) (es : Entries) (k : Bytes) (m : Node)
    → resolve (e ∷ q) (folder t (set k m es))
      ≡ (if beq k e then resolve q m else resolve (e ∷ q) (folder t es))
unfolding resolve
enter_other q e t es k m = elim (Bool-cases (beq k e)) [
  | inl h ↦ rw (find-set k e m es) (rw h refl)
  | inr h ↦ rw (find-set k e m es) (rw h refl)
]

-- a path that leads somewhere through the name `e`, which is `c`
pub enter-ok :
    (c e : Bytes) (q : FilePath) (t : ℕ) (es : Entries) (n : Node)
    → beq c e ≡ true
    → resolve (e ∷ q) (folder t es) ≡ ok n
    → (m : Node) × (find c es ≡ some m) × (resolve q m ≡ ok n)
enter-ok c e q t es n h before =
    let same : find c es ≡ find e es = ap (λ k. find k es) (beq→eq c e h) in
    elim (Option-cases (find e es)) [
      | inl gone ↦ absurd (cc (before, enter-none q e t es gone))
      | inr (m, found) ↦ (m, same ∙ found, sym (enter-eq q e t es m found) ∙ before)
    ]
