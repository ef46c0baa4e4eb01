-- ===== src/Encryption/Examples.antt =====
-- Concrete keys and objects for the theorems about internal/storage/encrypted.go.
use s3proxy_go.Base.{
  ℕ, zero, suc, if◌then◌else◌, ◌&&◌, false, Option, none, some, [], ◌∷◌, Bytes, is_empty, lit, beq,
  ok, err, ◌≡◌, refl,
}
use s3proxy_go.Storage.Backend.{Reader}
use s3proxy_go.Storage.Memory.{Objects, object}
use s3proxy_go.Kms.Envelope.{Gcm}
use s3proxy_go.Encryption.{KeyProvider, Codec}
use s3proxy_go.Encryption.Backend.{Encrypted, MultipartUploadInfo}

abbrev untagged : Bytes → Option Bytes
untagged [] = none
untagged (c ∷ s) = some s

tagged_filled : (s : Bytes) → is_empty (7 ∷ s) ≡ false
unfolding is_empty
tagged_filled s = refl

abbrev gcm : Gcm
gcm = record {
  seal = λ key nonce text. 7 ∷ text;
  open_sealed = λ key nonce text. untagged text;
  open-seal = λ key nonce text. refl;
  seal_filled = λ key nonce text. tagged_filled text;
}

abbrev codec : Codec
codec = record { encode = λ s. s; decode = λ s. some s; decode-encode = λ s. refl }

abbrev dek : Bytes
dek = lit "a data key of sixteen and more b"

abbrev keys : KeyProvider ℕ
keys = record {
  generate_dek = λ k. (ok (dek, lit "sealed"), suc k);
  decrypt_dek = λ sealed k. ok dek;
  name = lit "local";
}

abbrev no_keys : KeyProvider ℕ
no_keys = record {
  generate_dek = λ k. (err (lit "no entropy"), k);
  decrypt_dek = λ sealed k. err (lit "no key");
  name = lit "local";
}

abbrev nonce : Bytes
nonce = lit "twelve bytes"

abbrev random : ℕ → Option Bytes
random i = some nonce

abbrev nothing : Objects
nothing bucket key = none

abbrev idle : Encrypted ℕ Objects
idle = record { backend = nothing; keys = 0; drawn = 0; multipart_uploads = [] }

abbrev hello : Reader
hello = record { seekable = false; content = lit "hello"; fails = false }

abbrev upload : MultipartUploadInfo
upload = record { bucket = lit "b"; key = lit "k"; original_metadata = [] }

abbrev uploading : Encrypted ℕ Objects
uploading = record idle { multipart_uploads = (lit "u", upload) ∷ [] }

abbrev assembled : Objects
assembled = λ b k. if beq (lit "b") b && beq (lit "k") k then some (object (lit "u")) else none

-- a source of random bytes that are all 0
abbrev zeros : ℕ → Bytes
zeros zero = []
zeros (suc n) = 0 ∷ zeros n

abbrev draw : ℕ → ℕ → Option Bytes
draw n k = some (zeros n)
