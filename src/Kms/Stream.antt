-- ===== src/Kms/Stream.antt =====
-- internal/kms/envelope.go: `StreamEncryptor`, over an `io.Writer` and a source of random nonces.
pub mod Frames
pub mod Chunks
pub mod Writes
pub mod RoundTrip
mod Examples
use s3proxy_go.Base.{
  ℕ, zero, suc, ◌+◌, ◌*◌, ◌/◌, ◌%◌, ◌^◌, ltb, leb, if◌then◌else◌, not, Bool, true, false, Option,
  none, some, List, [], ◌∷◌, ◌++◌, length, take, drop, Bytes, is_empty, Dict, Result, ok, err,
}
use s3proxy_go.Kms.DataKeyCache.{DataKey}
use s3proxy_go.Kms.Manager
use s3proxy_go.Kms.Manager.{World, is_enabled}
use s3proxy_go.Kms.Manager.DataKeys.{generate_data_key}
use s3proxy_go.Kms.Envelope.{Gcm, zero_key, is_key_length}

-- an `io.Writer`, which may be an `io.Closer` too: whether it succeeded, and its state
pub record Writer (W : Type 0) : Type 0 where
  pub write : Bytes → W → Bool × W
  pub close : Option (W → Bool × W)

pub data StreamError : Type 0 where
  not_enabled empty_key_id cipher_failed nonce_failed chunk_too_large write_failed close_failed :
      StreamError
  data_key_failed : Manager.Error → StreamError

-- `gcm_key` is the key of the cipher, which keeps a copy of the data key; `drawn` counts the nonces
pub record StreamEncryptor (W : Type 0) : Type 0 where
  pub writer : W
  pub data_key : ℕ
  pub gcm_key : Bytes
  pub chunk_size : ℕ
  pub buffer : Bytes
  pub drawn : ℕ

abbrev pub Done : Type 0
Done = Result StreamError (Unit {0})

-- the four bytes of a chunk's length
unfoldable pub header : ℕ → Bytes
header n = n / 2 ^ 24 % 256 ∷ n / 2 ^ 16 % 256 ∷ n / 2 ^ 8 % 256 ∷ n % 256 ∷ []

module _ {W : Type 0} (io : Writer W) where
  -- writes the texts one after the other up to the first that fails
  write_each : List Bytes → W → Bool × W
  write_each [] w = (true, w)
  write_each (s ∷ texts) w =
      let (good, w') = io.write s w in
      let (rest, w'') = write_each texts w' in
      (if good then rest else false, if good then w'' else w')

  written : Bool × W → Done × W
  written (true, w) = (ok tt, w)
  written (false, w) = (err write_failed, w)

  -- `writeChunk`
  unfoldable pub write_chunk : Bytes → Bytes → W → Done × W
  unfolding write_each written header
  write_chunk nonce ciphertext w =
      let n = length nonce + length ciphertext in
      if ltb (16 * 1024 * 1024) n
      then (err chunk_too_large, w)
      else written (write_each (header n ∷ nonce ∷ ciphertext ∷ []) w)

-- goes on with the state, unless there was an error
unfoldable pub then_go : {S : Type 0} → (S → Done × S) → Done × S → Done × S
then_go next (err e, s) = (err e, s)
then_go next (ok u, s) = next s

module _ (gcm : Gcm) (random : ℕ → Option Bytes) {W : Type 0} (io : Writer W) where
  seal_chunk : Bytes → Option Bytes → StreamEncryptor W → Done × StreamEncryptor W
  seal_chunk chunk none s = (err nonce_failed, record s { drawn = suc s.drawn })
  seal_chunk chunk (some nonce) s =
      let (result, w) = write_chunk io nonce (gcm.seal s.gcm_key nonce chunk) s.writer in
      (result, record s { writer = w; drawn = suc s.drawn })

  -- `encryptChunk`
  unfoldable pub encrypt_chunk : Bytes → StreamEncryptor W → Done × StreamEncryptor W
  unfolding seal_chunk is_empty
  encrypt_chunk chunk s = if is_empty chunk then (ok tt, s) else seal_chunk chunk (random s.drawn) s

  -- the loop of `Write`; `fuel` bounds its turns
  flush : ℕ → StreamEncryptor W → Done × StreamEncryptor W
  unfolding then_go
  flush zero s = (ok tt, s)
  flush (suc fuel) s =
      if leb s.chunk_size (length s.buffer)
      then then_go (λ t. flush fuel (record t { buffer = drop t.chunk_size t.buffer }))
          (encrypt_chunk (take s.chunk_size s.buffer) s)
      else (ok tt, s)

  -- `Write`; each turn of the loop takes at least a byte off the buffer
  unfoldable pub write : Bytes → StreamEncryptor W → Done × StreamEncryptor W
  unfolding flush is_empty
  write p s =
      if is_empty p
      then (ok tt, s)
      else flush (length (s.buffer ++ p)) (record s { buffer = s.buffer ++ p })

  close_writer : Option (W → Bool × W) → StreamEncryptor W → Done × StreamEncryptor W
  close_writer none s = (ok tt, s)
  close_writer (some close) s =
      let (good, w) = close s.writer in
      (if good then ok tt else err close_failed, record s { writer = w })

  -- `Close` behind the last chunk: the data key is zeroed in place
  closing : World → Done × StreamEncryptor W → Done × StreamEncryptor W × World
  unfolding close_writer
  closing w (err e, s) = (err e, s, w)
  closing w (ok u, s) =
      let (result, s') = close_writer io.close (record s { buffer = [] }) in
      (result, s', zero_key s.data_key w)

  -- `Close`
  unfoldable pub close : StreamEncryptor W → World → Done × StreamEncryptor W × World
  unfolding closing
  close s w = closing w (encrypt_chunk s.buffer s)

module _ {W : Type 0} where
  opened : W → Result Manager.Error ℕ × World → Result StreamError (StreamEncryptor W) × World
  unfolding is_key_length
  opened writer (err e, w) = (err (data_key_failed e), w)
  opened writer (ok p, w) =
      let key = w.heap p in
      if is_key_length (length key.plaintext_key)
      then (
        ok (record {
          writer = writer;
          data_key = p;
          gcm_key = key.plaintext_key;
          chunk_size = 64 * 1024;
          buffer = [];
          drawn = 0;
        }),
        w,
      )
      else (err cipher_failed, w)

  -- `NewStreamEncryptor` for a writer that is there
  unfoldable pub new_stream_encryptor :
      (Bytes → Bytes)
      → W
      → Bytes
      → Dict Bytes
      → ℕ
      → World
      → Result StreamError (StreamEncryptor W) × World
  unfolding opened is_empty
  new_stream_encryptor hex_sha256 writer key_id context now w =
      if not (is_enabled w.manager)
      then (err not_enabled, w)
      else if is_empty key_id
      then (err empty_key_id, w)
      else opened writer (generate_data_key hex_sha256 key_id context now w)
