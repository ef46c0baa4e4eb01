-- ===== src/ObjectCache/Queue.antt =====
-- `TwoQueueCache` of the library golang-lru, which internal/cache/cache.go builds on: a bounded map that
-- may drop any entry when one is added. `contents` is what it holds, which a read does not change.
use s3proxy_go.Base.{
  ℕ, ltb, if◌then◌else◌, ◌&&◌, ◌||◌, ◌⊎◌, ◌≡◌, Bool, false, Option, none, some, List, [], ◌∷◌,
  Bytes, beq, has_prefix, length,
}

abbrev pub has_key : Bytes → List Bytes → Bool
has_key j [] = false
has_key j (k ∷ ks) = beq k j || has_key j ks

pub record TwoQueue (Q V : Type 0) : Type 0 where
  pub new : ℕ → Option Q
  pub get : Bytes → Q → Option V × Q
  pub add : Bytes → V → Q → Q
  pub remove : Bytes → Q → Q
  pub keys : Q → List Bytes
  pub contents : Q → Bytes → Option V
  pub get_result : (k : Bytes) (q : Q) → (get k q).0 ≡ contents q k
  pub contents-get : (k j : Bytes) (q : Q) → contents (get k q).1 j ≡ contents q j
  pub contents-add_self : (k : Bytes) (v : V) (q : Q) → contents (add k v q) k ≡ some v
  pub contents-add_ne :
      (k j : Bytes) (v : V) (q : Q)
      → beq k j ≡ false
      → (contents (add k v q) j ≡ contents q j) ⊎ (contents (add k v q) j ≡ none)
  pub contents-remove :
      (k j : Bytes) (q : Q) → contents (remove k q) j ≡ (if beq k j then none else contents q j)
  pub contents-keys : (q : Q) (j : Bytes) → has_key j (keys q) ≡ false → contents q j ≡ none

-- the loop of `InvalidateBucket`
unfoldable pub remove_all : {Q V : Type 0} → TwoQueue Q V → Bytes → List Bytes → Q → Q
remove_all t prefix [] q = q
remove_all t prefix (k ∷ ks) q =
    remove_all t prefix ks
      (if ltb (length prefix) (length k) && has_prefix k prefix then t.remove k q else q)
