-- ===== src/Auth/Signatures.antt =====
-- What `AWSV2Provider` of internal/auth/provider.go accepts.
use s3proxy_go.Base.{
  ℕ, zero, suc, ◌+◌, ◌==◌, true, false, Option, none, some, [], ◌∷◌, ◌++◌, Bytes, is_empty, beq→eq,
  beq_refl, has_prefix, index, cut, drop, take, length, take-append, lit, ok, ◌≡◌, ◌↔◌, refl, sym,
  ap, ap₂, ◌∙◌, arith, Option-cases, inl, inr,
}
use s3proxy_go.Auth.{Request, Credentials, header, v2_signature, v2_parts, authenticate_v2}

-- a text without a colon
abbrev pub NoColon : Bytes → Type 0
NoColon [] = Unit
NoColon (c ∷ s) = ((c == b':') ≡ false) × NoColon s

index-NoColon : (a s : Bytes) → NoColon a → index (a ++ b':' ∷ s) (lit ":") ≡ some (length a)
unfolding index has_prefix
index-NoColon [] s n = refl
index-NoColon (c ∷ a) s n = rw (n.0, index-NoColon a s n.1) refl

drop_colon : (a s : Bytes) → drop (suc (length a)) (a ++ b':' ∷ s) ≡ s
drop_colon [] s = refl
drop_colon (c ∷ a) s = drop_colon a s

cut_at :
    (s : Bytes) (i : ℕ)
    → index s (lit ":") ≡ some i
    → cut s (lit ":") ≡ some (take i s, drop (suc i) s)
unfolding cut
cut_at s i h = let next : i + 1 ≡ suc i = omega arith in rw (cut, h, next) refl

cut-NoColon : (a s : Bytes) → NoColon a → cut (a ++ b':' ∷ s) (lit ":") ≡ some (a, s)
cut-NoColon a s n =
    cut_at (a ++ b':' ∷ s) (length a) (index-NoColon a s n)
    ∙ ap₂ (λ x y. some (x, y)) (take-append a (b':' ∷ s)) (drop_colon a s)

index-colon :
    (s : Bytes) (i : ℕ) → index s (lit ":") ≡ some i → s ≡ take i s ++ b':' ∷ drop (suc i) s
unfolding index has_prefix
index-colon [] i h = absurd (ground arith)
index-colon (c ∷ s) zero h = ap (λ d. d ∷ s) (ground (arith, h))
index-colon (c ∷ s) (suc j) h = ap (◌∷◌ c) (index-colon s j (ground (arith, h)))

cut-none : (s : Bytes) → index s (lit ":") ≡ none → cut s (lit ":") ≡ none
unfolding cut
cut-none s h = rw (cut, h) refl

first-some :
    {A B : Type 0} → (x : A × B) (a : A) (b : B) → some x ≡ some (a, b) → (x.0 ≡ a) × (x.1 ≡ b)
first-some (x, y) a b h = (cc, cc)

cut-whole : (s a b : Bytes) → cut s (lit ":") ≡ some (a, b) → s ≡ a ++ b':' ∷ b
cut-whole s a b h = elim (Option-cases (index s (lit ":"))) [
  | inl none_found ↦ absurd (ground (arith, cut-none s none_found, h))
  | inr (i, found) ↦
      let both = first-some (take i s, drop (suc i) s) a b (sym (cut_at s i found) ∙ h) in
      index-colon s i found ∙ ap₂ (λ x y. x ++ b':' ∷ y) both.0 both.1
]

prefix-whole : (s p : Bytes) → has_prefix s p ≡ true → s ≡ p ++ drop (length p) s
unfolding has_prefix
prefix-whole s [] h = refl
prefix-whole [] (c ∷ p) h = absurd (ground (arith, h))
prefix-whole (d ∷ s) (c ∷ p) h =
    ap₂ (◌∷◌) (ground (arith, h)) (prefix-whole s p (ground (arith, h)))

v2_parts_ok :
    (hmac_hex : Bytes → Bytes → Bytes) (c : Credentials) (r : Request)
    (parts : Option (Bytes × Bytes))
    → v2_parts hmac_hex c r parts ≡ ok tt
    → parts ≡ some (c.identity, v2_signature hmac_hex c r)
unfolding v2_parts
v2_parts_ok hmac_hex c r none h = absurd (ground arith)
v2_parts_ok hmac_hex c r (some (access_key, signature)) h =
    let key : access_key ≡ c.identity = beq→eq access_key c.identity (ground (arith, h)) in
    let same : signature ≡ v2_signature hmac_hex c r =
      beq→eq signature (v2_signature hmac_hex c r) (ground (arith, h)) in
    ap₂ (λ x y. some (x, y)) key same

v2_front :
    (hmac_hex : Bytes → Bytes → Bytes) (c : Credentials) (r : Request)
    → authenticate_v2 hmac_hex c r ≡ ok tt
    → (has_prefix (header (lit "authorization") r) (lit "AWS ") ≡ true)
      × (v2_parts hmac_hex c r (cut (drop 4 (header (lit "authorization") r)) (lit ":")) ≡ ok tt)
unfolding authenticate_v2
v2_front hmac_hex c r h = (ground (arith, h), ground (arith, h))

v2_accepted :
    (hmac_hex : Bytes → Bytes → Bytes) (c : Credentials) (r : Request)
    → authenticate_v2 hmac_hex c r ≡ ok tt
    → header (lit "authorization") r
      ≡ lit "AWS " ++ (c.identity ++ b':' ∷ v2_signature hmac_hex c r)
v2_accepted hmac_hex c r h =
    let authorization = header (lit "authorization") r in
    let front = v2_front hmac_hex c r h in
    prefix-whole authorization (lit "AWS ") front.0
    ∙ ap (◌++◌ (lit "AWS ")) (
        cut-whole (drop 4 authorization) c.identity (v2_signature hmac_hex c r)
          (v2_parts_ok hmac_hex c r _ front.1))

v2_signed :
    (hmac_hex : Bytes → Bytes → Bytes) (c : Credentials) (r : Request)
    → NoColon c.identity
    → header (lit "authorization") r
      ≡ lit "AWS " ++ (c.identity ++ b':' ∷ v2_signature hmac_hex c r)
    → authenticate_v2 hmac_hex c r ≡ ok tt
unfolding authenticate_v2 v2_parts is_empty has_prefix
v2_signed hmac_hex c r plain h =
    rw
      (
        h,
        cut-NoColon c.identity (v2_signature hmac_hex c r) plain,
        beq_refl c.identity,
        beq_refl (v2_signature hmac_hex c r),
      )
      refl

-- With an identity that has no colon, a request is accepted exactly when its authorization header is AWS, a space, the identity, a colon, and the signature of the request.
pub authenticate_v2_accepts :
    (hmac_hex : Bytes → Bytes → Bytes) (c : Credentials) (r : Request)
    → NoColon c.identity
    → (authenticate_v2 hmac_hex c r ≡ ok tt) ↔ (
        header (lit "authorization") r
        ≡ lit "AWS " ++ (c.identity ++ b':' ∷ v2_signature hmac_hex c r))
authenticate_v2_accepts hmac_hex c r plain =
    (v2_accepted hmac_hex c r, v2_signed hmac_hex c r plain)
