-- ===== src/Encryption/LocalKeys/RoundTrip.antt =====
-- Keys of the local key provider, internal/encryption/keys/local.go, and the objects encrypted with them.
use s3proxy_go.Base.{ℕ, false, Option, some, Bytes, is_empty, length, ◌≡◌}
use s3proxy_go.Storage.Backend
use s3proxy_go.Encryption.{Codec}

-- `rand.Read` fills a buffer of `n` bytes, at every draw
pub record Fills (n : ℕ) (draw : ℕ → Option Bytes) : Type 0 where
  pub filled : (k : ℕ) → (b : Bytes) × (draw k ≡ some b) × (length b ≡ n)

-- no text but the empty one is encoded as the empty text
pub record Encodes (codec : Codec) : Type 0 where
  pub shown : (s : Bytes) → is_empty s ≡ false → is_empty (codec.encode s) ≡ false
