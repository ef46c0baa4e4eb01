-- ===== src/ObjectCache/Coherence.antt =====
-- When the hot cache of internal/cache/cache.go agrees with the backend.
use s3proxy_go.Base.{
  ℕ, ◌==◌, if◌then◌else◌, false, Option, none, some, [], ◌∷◌, Bytes, beq, beq→eq, Result, ok, err,
  ◌≡◌, ◌⊎◌, inl, inr, ◌∙◌, refl, sym, ap, arith, Bool-cases,
}
use s3proxy_go.Storage.Backend.{Backend, Object}
use s3proxy_go.ObjectCache.Queue.{TwoQueue}
use s3proxy_go.ObjectCache.{CachedObject, cache_key, object_of, reader_of}
use s3proxy_go.ObjectCache.Caching.{is_cacheable, read_full}

-- a bucket's name
abbrev pub NoSlash : Bytes → Type 0
NoSlash [] = Unit
NoSlash (c ∷ s) = ((c == b'/') ≡ false) × NoSlash s

-- Two pairs of a bucket, with no slash in its name, and a key have the same cache key only if they are the same.
pub cache_key-injective :
    (b b' k k' : Bytes)
    → NoSlash b
    → NoSlash b'
    → cache_key b k ≡ cache_key b' k'
    → (b ≡ b') × (k ≡ k')
unfolding cache_key
cache_key-injective [] [] k k' n n' e = (refl, cc)
cache_key-injective [] (c ∷ b') k k' n n' e = absurd (ground arith)
cache_key-injective (c ∷ b) [] k k' n n' e = absurd (ground arith)
cache_key-injective (c ∷ b) (d ∷ b') k k' n n' e =
    let (p, q) = cache_key-injective b b' k k' n.1 n'.1 (cc) in (cc, q)

-- what a read through the cache gives for what the backend returns: an object that is read into memory
-- has a body that is exactly as long as its size says, and can be read to its end
unfoldable pub in_memory : Object → Option Bytes → Object
in_memory obj none = obj
in_memory obj (some content) = record obj { body = reader_of content }

unfoldable pub canonical : ℕ → Result Bytes Object → Result Bytes Object
unfolding in_memory
canonical limit (err message) = err message
canonical limit (ok obj) =
    if is_cacheable limit obj then ok (in_memory obj (read_full obj)) else ok obj

module _ {H S : Type 0} (hot : TwoQueue H CachedObject) (backend : Backend S) where
  -- every object in the hot cache is what a read of the backend would give now
  pub record IsCoherent (limit : ℕ) (h : H) (s : S) : Type 0 where
    pub at :
        (bucket key : Bytes) (e : CachedObject)
        → NoSlash bucket
        → hot.contents h (cache_key bucket key) ≡ some e
        → canonical limit (backend.get_object bucket key s).0 ≡ ok (object_of e)

  -- `h'` holds what `h` holds, but for entries that it lacks
  pub record Shrinks (h h' : H) : Type 0 where
    pub at : (j : Bytes) → (hot.contents h' j ≡ hot.contents h j) ⊎ (hot.contents h' j ≡ none)

  pub IsCoherent-Shrinks :
      (limit : ℕ) (h h' : H) (s : S) → IsCoherent limit h s → Shrinks h h' → IsCoherent limit h' s
  IsCoherent-Shrinks limit h h' s c k = record {
    at = λ bucket key e n held. elim (k.at (cache_key bucket key)) [
      | inl same ↦ c.at bucket key e n (sym same ∙ held)
      | inr gone ↦ absurd (ground (arith, gone, held))
    ];
  }

  pub Shrinks-remove : (j : Bytes) (h : H) → Shrinks h (hot.remove j h)
  Shrinks-remove j h = record {
    at = λ i. elim (Bool-cases (beq j i)) [
      | inl e ↦ inr (rw (hot.contents-remove j i h, e) refl)
      | inr e ↦ inl (rw (hot.contents-remove j i h, e) refl)
    ];
  }

  pub IsCoherent-remove :
      (limit : ℕ) (h : H) (s : S) (j : Bytes)
      → IsCoherent limit h s
      → IsCoherent limit (hot.remove j h) s
  IsCoherent-remove limit h s j c =
      IsCoherent-Shrinks limit h (hot.remove j h) s c (Shrinks-remove j h)

  pub IsCoherent-add :
      (limit : ℕ) (h : H) (s : S) (bucket key : Bytes) (e : CachedObject)
      → NoSlash bucket
      → canonical limit (backend.get_object bucket key s).0 ≡ ok (object_of e)
      → IsCoherent limit h s
      → IsCoherent limit (hot.add (cache_key bucket key) e h) s
  IsCoherent-add limit h s bucket key e n now c = record {
    at = λ b k e' n' held. elim (Bool-cases (beq (cache_key bucket key) (cache_key b k))) [
      | inl q ↦
          let j = beq→eq (cache_key bucket key) (cache_key b k) q in
          let (same_bucket, same_key) = cache_key-injective bucket b key k n n' j in
          let added = hot.contents-add_self (cache_key bucket key) e h in cc
      | inr q ↦ elim (hot.contents-add_ne (cache_key bucket key) (cache_key b k) e h q) [
        | inl same ↦ c.at b k e' n' (sym same ∙ held)
        | inr gone ↦ absurd (ground (arith, gone, held))
      ]
    ];
  }

  -- the backend's objects that are cached did not change
  pub IsCoherent-unchanged :
      (limit : ℕ) (h : H) (s s' : S)
      → ((bucket key : Bytes) (e : CachedObject)
          → hot.contents h (cache_key bucket key) ≡ some e
          → (backend.get_object bucket key s').0 ≡ (backend.get_object bucket key s).0)
      → IsCoherent limit h s
      → IsCoherent limit h s'
  IsCoherent-unchanged limit h s s' same c = record {
    at = λ b k e n held. ap (canonical limit) (same b k e held) ∙ c.at b k e n held;
  }
