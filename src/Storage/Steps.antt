-- ===== src/Storage/Steps.antt =====
-- The methods of the backends of internal/storage as chains of steps over the backend's state, in which
-- an error ends the chain and the state stays as it is then.
use s3proxy_go.Base.{Bytes, ◌++◌, Result, ok, err}
use s3proxy_go.Storage.Backend.{Action}

abbrev pub and_then : {S A B : Type 0} → (A → Action S B) → Result Bytes A × S → Result Bytes B × S
and_then f (ok a, s) = f a s
and_then f (err e, s) = (err e, s)

infixl 5 ◌>>=◌ ◌>>◌
abbrev pub ◌>>=◌ : {S A B : Type 0} → Action S A → (A → Action S B) → Action S B
◌>>=◌ m f s = and_then f (m s)

abbrev pub ◌>>◌ : {S B : Type 0} → Action S (Unit {0}) → Action S B → Action S B
m >> k = m >>= λ _. k

-- `fmt.Errorf("...: %w", err)`
abbrev pub wrapped : {A : Type 0} → Bytes → Result Bytes A → Result Bytes A
wrapped context (ok a) = ok a
wrapped context (err e) = err (context ++ e)

abbrev pub wrap : {S A : Type 0} → Bytes → Action S A → Action S A
wrap context m s = (wrapped context (m s).0, (m s).1)

abbrev pub return : {S A : Type 0} → A → Action S A
return a s = (ok a, s)
