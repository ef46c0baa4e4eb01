-- ===== src/FileSystem/Tree/Frames.antt =====
-- What a change at one path leaves of the rest of the tree.
use s3proxy_go.Base.{
  ℕ, false, Bytes, beq, beq→eq, beq_refl, Option, none, some, ok, err, ◌≡◌, ◌≢◌, refl, sym, ap, ap₂,
  inl, inr, Bool-cases, Option-cases, [], ◌∷◌, ◌∙◌,
}
use s3proxy_go.FileSystem.Tree.{
  Node, file, folder, Entries, entry, no_entry, FilePath, find, resolve, alter, Edit, entered,
}
use s3proxy_go.FileSystem.Tree.Inside.{
  find-placed_other, resolve-placed_self, put_back-ok, then_place-ok, resolve-filled, enter-eq,
  enter_other, enter-ok,
}

-- an edit that a folder with something in it refuses
abbrev pub SparesFolders : Edit → Type 0
SparesFolders edit =
    (t : ℕ) (c : Bytes) (n : Node) (es : Entries) (o : Option Node)
    → edit (some (folder t (entry c n es))) ≢ ok o

module _ (now : ℕ) (edit : Edit) where
  -- a change of an entry of a folder, and what is found in the folder then
  pub here-change :
      (c : Bytes) (t : ℕ) (es : Entries) (n' : Node)
      → alter now edit (c ∷ []) (folder t es) ≡ ok n'
      → (o : Option Node) × (edit (find c es) ≡ ok o)
        × ((q : FilePath) → resolve (c ∷ q) n' ≡ entered (resolve q) o)
        × ((e : Bytes) (q : FilePath)
            → beq c e ≡ false
            → resolve (e ∷ q) n' ≡ resolve (e ∷ q) (folder t es))
  unfolding alter resolve
  here-change c t es n' changed =
      let (o, edited, eq) = then_place-ok _ _ n' changed in
      (
        o,
        edited,
        λ q. ap (resolve (c ∷ q)) eq ∙ resolve-placed_self now t c es o q,
        λ e q h. ap (resolve (e ∷ q)) eq ∙ find-placed_other now t c e es (find c es) o q h,
      )

  -- a change further down
  pub deep-change :
      (c d : Bytes) (p : FilePath) (t : ℕ) (es : Entries) (n' : Node)
      → alter now edit (c ∷ d ∷ p) (folder t es) ≡ ok n'
      → (m : Node) × (m' : Node) × (find c es ≡ some m)
        × (alter now edit (d ∷ p) m ≡ ok m')
        × ((q : FilePath) → resolve (c ∷ q) n' ≡ resolve q m')
        × ((e : Bytes) (q : FilePath)
            → beq c e ≡ false
            → resolve (e ∷ q) n' ≡ resolve (e ∷ q) (folder t es))
  unfolding alter
  deep-change c d p t es n' changed = elim (Option-cases (find c es)) [
    | inl gone ↦ absurd (cc (gone, changed))
    | inr (m, found) ↦
        let (m', altered, eq) =
          put_back-ok t c es (alter now edit (d ∷ p) m) n' (rw found at changed) in
        (
          m,
          m',
          found,
          altered,
          λ q. ap (resolve (c ∷ q)) eq ∙ enter_other q c t es c m' ∙ rw (beq_refl c) refl,
          λ e q h. ap (resolve (e ∷ q)) eq ∙ enter_other q e t es c m' ∙ rw h refl,
        )
  ]

  -- After the change there is what the edit made of what was there.
  pub resolve-alter_self :
      (p : FilePath) (n n' : Node)
      → alter now edit p n ≡ ok n'
      → (before : Option Node) × (after : Option Node) × (edit before ≡ ok after)
        × (resolve p n ≡ entered ok before)
        × (resolve p n' ≡ entered ok after)
  unfolding resolve alter
  resolve-alter_self [] n n' changed = cc
  resolve-alter_self (c ∷ p) (file t b) n' changed = cc
  resolve-alter_self (c ∷ []) (folder t es) n' changed =
      let (o, edited, self, other) = here-change c t es n' changed in
      (find c es, o, edited, refl, self [])
  resolve-alter_self (c ∷ d ∷ p) (folder t es) n' changed =
      let (m, m', found, altered, self, other) = deep-change c d p t es n' changed in
      let (before, after, edited, was, is) = resolve-alter_self (d ∷ p) m m' altered in
      (before, after, edited, enter-eq (d ∷ p) c t es m found ∙ was, self (d ∷ p) ∙ is)

  -- the path of a file does not lead through a folder that was changed
  below-change :
      SparesFolders edit
      → (q : FilePath) (o : Option Node) (m n : Node) → edit (some m) ≡ ok o
      → resolve q m ≡ ok n
      → q ≡ []
  below-change spares [] o m n edited before = refl
  below-change spares (d ∷ q) o m n edited before =
      let (u, e, k, fs, eq) = resolve-filled d q m n before in
      absurd (spares u e k fs o (ap (λ x. edit (some x)) (sym eq) ∙ edited))

  -- A change leaves the files at the other paths as they are, if it spares folders.
  pub resolve-alter_other :
      SparesFolders edit
      → (p q : FilePath) (n n' : Node) (u : ℕ) (b : Bytes) → p ≢ q
      → alter now edit p n ≡ ok n'
      → resolve q n ≡ ok (file u b)
      → resolve q n' ≡ ok (file u b)
  unfolding resolve alter
  resolve-alter_other spares [] q n n' u b apart changed before = cc
  resolve-alter_other spares (c ∷ p) q (file t a) n' u b apart changed before = cc
  resolve-alter_other spares (c ∷ p) [] (folder t es) n' u b apart changed before = cc
  resolve-alter_other spares (c ∷ []) (e ∷ q) (folder t es) n' u b apart changed before =
      let (o, edited, self, other) = here-change c t es n' changed in
      elim (Bool-cases (beq c e)) [
        | inr h ↦ other e q h ∙ before
        | inl h ↦
            let (m, found, inside) = enter-ok c e q t es (file u b) h before in
            absurd (
              apart (
                ap₂ ◌∷◌ (beq→eq c e h)
                  (sym (below-change spares q o m (file u b) (rw found at edited) inside))))
      ]
  resolve-alter_other spares (c ∷ d ∷ p) (e ∷ q) (folder t es) n' u b apart changed before =
      let (m, m', found, altered, self, other) = deep-change c d p t es n' changed in
      elim (Bool-cases (beq c e)) [
        | inr h ↦ other e q h ∙ before
        | inl h ↦
            let same = beq→eq c e h in
            ap (λ k. resolve (k ∷ q) n') (sym same)
            ∙ self q
            ∙ resolve-alter_other spares (d ∷ p) q m m' u b (λ eq. apart (ap₂ ◌∷◌ same eq)) altered
                (sym (enter-eq q e t es m (ap (λ k. find k es) (sym same) ∙ found)) ∙ before)
      ]

  -- A change that makes nothing leaves what is missing missing.
  pub resolve-alter_missing :
      ((o o' : Option Node) → edit o ≡ ok o' → o' ≡ none)
      → (p q : FilePath) (n n' : Node) → alter now edit p n ≡ ok n'
      → resolve q n ≡ err no_entry
      → resolve q n' ≡ err no_entry
  unfolding resolve alter
  resolve-alter_missing takes [] q n n' changed before = cc
  resolve-alter_missing takes (c ∷ p) q (file t a) n' changed before = cc
  resolve-alter_missing takes (c ∷ p) [] (folder t es) n' changed before = cc
  resolve-alter_missing takes (c ∷ []) (e ∷ q) (folder t es) n' changed before =
      let (o, edited, self, other) = here-change c t es n' changed in
      elim (Bool-cases (beq c e)) [
        | inr h ↦ other e q h ∙ before
        | inl h ↦
            ap (λ k. resolve (k ∷ q) n') (sym (beq→eq c e h))
            ∙ self q
            ∙ ap (entered (resolve q)) (takes (find c es) o edited)
      ]
  resolve-alter_missing takes (c ∷ d ∷ p) (e ∷ q) (folder t es) n' changed before =
      let (m, m', found, altered, self, other) = deep-change c d p t es n' changed in
      elim (Bool-cases (beq c e)) [
        | inr h ↦ other e q h ∙ before
        | inl h ↦
            let same = beq→eq c e h in
            ap (λ k. resolve (k ∷ q) n') (sym same)
            ∙ self q
            ∙ resolve-alter_missing takes (d ∷ p) q m m' altered
                (sym (enter-eq q e t es m (ap (λ k. find k es) (sym same) ∙ found)) ∙ before)
      ]
