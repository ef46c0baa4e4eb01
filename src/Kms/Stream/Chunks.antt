-- ===== src/Kms/Stream/Chunks.antt =====
-- What `encryptChunk` of `StreamEncryptor`, internal/kms/envelope.go, sends to a writer that takes everything.
use mathlib.Core.List.{append_assoc, append-nil}
use s3proxy_go.Base.{
  ℕ, ◌+◌, ◌*◌, ◌^◌, ◌<◌, ◌≤◌, ltb, true, false, some, List, [], ◌∷◌, ◌++◌, length, length-append,
  Bytes, is_empty, ok, ◌≡◌, refl, sym, ap, ap₂, subst, ◌∙◌, arith,
}
use s3proxy_go.Kms.Envelope.{Gcm}
use s3proxy_go.Kms.Stream.{
  Writer, StreamEncryptor, header, write_each, written, write_chunk, seal_chunk, encrypt_chunk,
}
use s3proxy_go.Kms.Stream.Frames.{
  frame, emit, join, AllSmall, emit-append, join-append, append-AllSmall,
}

-- a writer that takes everything and whose output grows by what is written
pub record Appends {W : Type 0} (io : Writer W) : Type 0 where
  pub output : W → Bytes
  pub write_ok : (s : Bytes) (w : W) → (io.write s w).0 ≡ true
  pub output-write : (s : Bytes) (w : W) → output (io.write s w).1 ≡ output w ++ s

pub is_empty→nil : (s : Bytes) → is_empty s ≡ true → s ≡ []
unfolding is_empty
is_empty→nil [] h = refl
is_empty→nil (c ∷ s) h = absurd (ground arith)

pub length-filled : (s : Bytes) → 0 < length s → is_empty s ≡ false
unfolding is_empty
length-filled [] h = absurd (omega arith)
length-filled (c ∷ s) h = refl

module _ {W : Type 0} (io : Writer W) (sink : Appends io) where
  write_chunk-ok :
      (nonce ciphertext : Bytes) (w : W)
      → length nonce + length ciphertext ≤ 2 ^ 24
      → ((write_chunk io nonce ciphertext w).0 ≡ ok tt)
        × (sink.output (write_chunk io nonce ciphertext w).1
            ≡ sink.output w ++ (header (length nonce + length ciphertext) ++ (nonce ++ ciphertext)))
  unfolding write_chunk write_each written
  write_chunk-ok nonce ciphertext w small =
      let n = length nonce + length ciphertext in
      let w₁ = (io.write (header n) w).1 in
      let w₂ = (io.write nonce w₁).1 in
      let fits : ltb (16 * 1024 * 1024) n ≡ false = ground arith in
      rw (fits, sink.write_ok (header n) w, sink.write_ok nonce w₁, sink.write_ok ciphertext w₂)
        (
          refl,
          sink.output-write ciphertext w₂
              ∙ ap (λ o. o ++ ciphertext)
                  (sink.output-write nonce w₁
                    ∙ ap (λ o. o ++ nonce) (sink.output-write (header n) w))
              ∙ append_assoc (sink.output w ++ header n) nonce ciphertext
              ∙ append_assoc (sink.output w) (header n) (nonce ++ ciphertext),
        )

module _ (gcm : Gcm) (nonces : ℕ → Bytes) {W : Type 0} (io : Writer W) (sink : Appends io) where
  -- from `s` to `s'` the stream sent chunks that with the new buffer make up `input`
  pub record Emits (s : StreamEncryptor W) (input : Bytes) (s' : StreamEncryptor W) : Type 0 where
    pub chunks : List Bytes
    pub taken : input ≡ join chunks ++ s'.buffer
    pub sent :
        sink.output s'.writer ≡ sink.output s.writer ++ emit gcm s.gcm_key nonces s.drawn chunks
    pub drawn : s'.drawn ≡ s.drawn + length chunks
    pub same_key : s'.gcm_key ≡ s.gcm_key
    pub same_size : s'.chunk_size ≡ s.chunk_size
    pub small : AllSmall chunks

  module _ (twelve : (i : ℕ) → length (nonces i) ≡ 12)
      (overhead : (key nonce text : Bytes)
        → length (gcm.seal key nonce text) ≤ length text + 16) where
    -- the chunk is sent, and the stream goes on with `rest` as its buffer
    pub encrypt_chunk-Emits :
        (chunk rest : Bytes) (s : StreamEncryptor W)
        → is_empty chunk ≡ false
        → length chunk ≤ 2 ^ 20
        → let (result, t) = encrypt_chunk gcm (λ i. some (nonces i)) io chunk s in
          (result ≡ ok tt)
          × (t.buffer ≡ s.buffer)
          × Emits s (chunk ++ rest) (record t { buffer = rest })
    unfolding encrypt_chunk seal_chunk
    encrypt_chunk-Emits chunk rest s filled small =
        let sealed = gcm.seal s.gcm_key (nonces s.drawn) chunk in
        let wrote =
          write_chunk-ok io sink (nonces s.drawn) sealed s.writer
            (omega (arith, twelve s.drawn, overhead s.gcm_key (nonces s.drawn) chunk, small)) in
        rw filled (
          wrote.0,
          refl,
          record {
            chunks = chunk ∷ [];
            taken = ap (λ c. c ++ rest) (sym (append-nil chunk));
            sent =
                wrote.1
                ∙ ap (◌++◌ (sink.output s.writer))
                    (sym (append-nil (frame gcm s.gcm_key (nonces s.drawn) sealed)));
            drawn = omega arith;
            same_key = refl;
            same_size = refl;
            small = (small, tt);
          },
        )

    pub Emits-then :
        (s t u : StreamEncryptor W) (front more : Bytes)
        → Emits s front t
        → Emits t (t.buffer ++ more) u
        → Emits s (front ++ more) u
    Emits-then s t u front more one two = record {
      chunks = one.chunks ++ two.chunks;
      taken =
          ap (λ c. c ++ more) one.taken
          ∙ append_assoc (join one.chunks) t.buffer more
          ∙ ap (◌++◌ (join one.chunks)) two.taken
          ∙ sym (append_assoc (join one.chunks) (join two.chunks) u.buffer)
          ∙ ap (λ c. c ++ u.buffer) (sym (join-append one.chunks two.chunks));
      sent =
          two.sent
          ∙ ap₂ (λ o k. o ++ emit gcm k nonces t.drawn two.chunks) one.sent one.same_key
          ∙ append_assoc (sink.output s.writer) _ _
          ∙ ap (◌++◌ (sink.output s.writer)) (
              sym
                (emit-append gcm s.gcm_key nonces s.drawn t.drawn one.chunks two.chunks one.drawn));
      drawn = omega (arith, one.drawn, two.drawn, length-append one.chunks two.chunks);
      same_key = two.same_key ∙ one.same_key;
      same_size = two.same_size ∙ one.same_size;
      small = append-AllSmall one.chunks two.chunks one.small two.small;
    }

    pub Emits-end :
        (s t u : StreamEncryptor W) (front : Bytes)
        → Emits s front t
        → Emits t t.buffer u
        → Emits s front u
    Emits-end s t u front one two =
        subst (λ c. Emits s c u) (append-nil front)
          (Emits-then s t u front [] one (subst (λ c. Emits t c u) (sym (append-nil t.buffer)) two))

    pub nothing_sent : (s : StreamEncryptor W) → Emits s s.buffer s
    nothing_sent s = record {
      chunks = [];
      taken = refl;
      sent = sym (append-nil (sink.output s.writer));
      drawn = omega arith;
      same_key = refl;
      same_size = refl;
      small = tt;
    }
