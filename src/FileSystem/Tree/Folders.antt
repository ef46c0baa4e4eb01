-- ===== src/FileSystem/Tree/Folders.antt =====
-- `os.MkdirAll` and `os.RemoveAll`: what they leave as it is.
use s3proxy_go.Base.{
  ℕ, Bool, true, false, ◌&&◌, Bytes, beq, beq→eq, none, some, ok, ◌≡◌, refl, sym, ap, arith, inl,
  inr, Bool-cases, Option-cases, [], ◌∷◌, ◌∙◌,
}
use s3proxy_go.FileSystem.Tree.{
  Node, file, folder, Entries, FilePath, find, set, resolve, alter, Edit, mkdir_all, fresh,
}
use s3proxy_go.FileSystem.Tree.Inside.{enter-ok, enter-eq, enter_other, put_back-ok}
use s3proxy_go.FileSystem.Tree.Frames.{here-change, deep-change}

-- the path `q` is at or below `p`
unfoldable pub under : FilePath → FilePath → Bool
unfolding beq
under [] q = true
under (c ∷ p) [] = false
under (c ∷ p) (e ∷ q) = beq c e && under p q

enter_time :
    (q : FilePath) (e : Bytes) (t u : ℕ) (es : Entries)
    → resolve (e ∷ q) (folder t es) ≡ resolve (e ∷ q) (folder u es)
unfolding resolve
enter_time q e t u es = refl

made-new :
    (now : ℕ) (c : Bytes) (p : FilePath) (t : ℕ) (es : Entries) (n' : Node)
    → mkdir_all now (c ∷ p) (folder t es) ≡ ok n'
    → find c es ≡ none
    → n' ≡ folder now (set c (fresh now p) es)
unfolding mkdir_all
made-new now c p t es n' done gone = let h = rw gone at done in cc h

made-old :
    (now : ℕ) (c : Bytes) (p : FilePath) (t : ℕ) (es : Entries) (n' m : Node)
    → mkdir_all now (c ∷ p) (folder t es) ≡ ok n'
    → find c es ≡ some m
    → (m' : Node) × (mkdir_all now p m ≡ ok m') × (n' ≡ folder t (set c m' es))
unfolding mkdir_all
made-old now c p t es n' m done found = put_back-ok t c es (mkdir_all now p m) n' (rw found at done)

-- Making folders leaves the files as they are.
pub resolve-mkdir_all :
    (now : ℕ) (p q : FilePath) (n n' : Node) (u : ℕ) (b : Bytes)
    → mkdir_all now p n ≡ ok n'
    → resolve q n ≡ ok (file u b)
    → resolve q n' ≡ ok (file u b)
unfolding mkdir_all
resolve-mkdir_all now [] q (file t a) n' u b done before = cc
resolve-mkdir_all now [] q (folder t es) n' u b done before = cc
resolve-mkdir_all now (c ∷ p) q (file t a) n' u b done before = cc
resolve-mkdir_all now (c ∷ p) [] (folder t es) n' u b done before = unfold resolve in cc
resolve-mkdir_all now (c ∷ p) (e ∷ q) (folder t es) n' u b done before =
    elim (Bool-cases (beq c e)) [
      | inl h ↦
          let (m, found, inside) = enter-ok c e q t es (file u b) h before in
          let (m', more, eq) = made-old now c p t es n' m done found in
          ap (resolve (e ∷ q)) eq
          ∙ enter_other q e t es c m'
          ∙ rw h (resolve-mkdir_all now p q m m' u b more inside)
      | inr h ↦ elim (Option-cases (find c es)) [
        | inl gone ↦
            ap (resolve (e ∷ q)) (made-new now c p t es n' done gone)
            ∙ enter_other q e now es c (fresh now p)
            ∙ rw h (enter_time q e now t es ∙ before)
        | inr (m, found) ↦
            let (m', more, eq) = made-old now c p t es n' m done found in
            ap (resolve (e ∷ q)) eq ∙ enter_other q e t es c m' ∙ rw h before
      ]
    ]

-- A change leaves everything that is not at or below its path, the folders' times and entries aside.
pub resolve-alter_apart :
    (now : ℕ) (edit : Edit) (p q : FilePath) (n n' : Node) (u : ℕ) (b : Bytes)
    → under p q ≡ false
    → alter now edit p n ≡ ok n'
    → resolve q n ≡ ok (file u b)
    → resolve q n' ≡ ok (file u b)
unfolding under
resolve-alter_apart now edit [] q n n' u b apart changed before = cc
resolve-alter_apart now edit (c ∷ p) q (file t a) n' u b apart changed before = unfold alter in cc
resolve-alter_apart now edit (c ∷ p) [] (folder t es) n' u b apart changed before =
    unfold resolve in cc
resolve-alter_apart now edit (c ∷ []) (e ∷ q) (folder t es) n' u b apart changed before =
    let (o, edited, self, other) = here-change now edit c t es n' changed in
    other e q (ground (arith, apart)) ∙ before
resolve-alter_apart now edit (c ∷ d ∷ p) (e ∷ q) (folder t es) n' u b apart changed before =
    let (m, m', found, altered, self, other) = deep-change now edit c d p t es n' changed in
    elim (Bool-cases (beq c e)) [
      | inr h ↦ other e q h ∙ before
      | inl h ↦
          let same = beq→eq c e h in
          ap (λ k. resolve (k ∷ q) n') (sym same)
          ∙ self q
          ∙ resolve-alter_apart now edit (d ∷ p) q m m' u b (ground (arith, apart, h)) altered
              (sym (enter-eq q e t es m (ap (λ k. find k es) (sym same) ∙ found)) ∙ before)
    ]
