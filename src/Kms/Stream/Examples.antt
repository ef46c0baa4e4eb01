-- ===== src/Kms/Stream/Examples.antt =====
-- A concrete stream for the theorem about `StreamEncryptor` of internal/kms/envelope.go.
use s3proxy_go.Base.{
  ℕ, ◌+◌, ◌≤◌, true, none, some, List, [], ◌∷◌, ◌++◌, length, Bytes, lit, ok, ◌≡◌, refl, arith,
}
use s3proxy_go.Kms.Stream.{Writer, StreamEncryptor}
use s3proxy_go.Kms.Stream.Frames.{read_frames, join}
use s3proxy_go.Kms.Stream.Chunks.{Appends}
use s3proxy_go.Kms.Stream.RoundTrip.{write_all, written_and_closed, read_frames-close}
use s3proxy_go.Kms.Examples.{plain, nonce, world}

abbrev buffer : Writer Bytes
buffer = record { write = λ s w. (true, w ++ s); close = none }

abbrev sink : Appends buffer
sink = record { output = λ w. w; write_ok = λ s w. refl; output-write = λ s w. refl }

abbrev fresh : StreamEncryptor Bytes
fresh = record {
  writer = [];
  data_key = 4;
  gcm_key = lit "sixteen byte key";
  chunk_size = 4;
  buffer = [];
  drawn = 0;
}

abbrev nonces : ℕ → Bytes
nonces i = nonce

nonces_twelve : (i : ℕ) → length (nonces i) ≡ 12
nonces_twelve i = refl

one_byte : (key n text : Bytes) → length (plain.seal key n text) ≤ length text + 16
one_byte key n text = omega arith

abbrev texts : List Bytes
texts = lit "ab" ∷ lit "cdefghij" ∷ [] ∷ lit "k" ∷ []

read_frames-close_example :
    let (result, t, w') = written_and_closed plain nonces buffer texts fresh world in
    let out = t.writer in
    ((write_all plain nonces buffer texts fresh).0 ≡ ok tt)
    × (result ≡ ok tt)
    × (read_frames plain fresh.gcm_key (length out + 1) out ≡ some (join texts))
read_frames-close_example =
    read_frames-close plain nonces buffer sink nonces_twelve one_byte texts fresh world refl refl
      refl (omega arith) (omega arith)
