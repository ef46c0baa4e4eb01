-- ===== src/Kms/Stream/Writes.antt =====
-- What `Write` and `Close` of `StreamEncryptor`, internal/kms/envelope.go, send to a writer that takes
-- everything.
use mathlib.Core.List.{append-nil}
use s3proxy_go.Base.{
  ℕ, zero, suc, ◌+◌, ◌^◌, ◌<◌, ◌≤◌, leb, some, [], ◌∷◌, ◌++◌, length, take, drop, take-drop,
  length-take, length-drop, Bytes, is_empty, ok, err, ◌≡◌, inl, inr, refl, sym, ap₂, subst, arith,
  Bool-cases,
}
use s3proxy_go.Kms.Envelope.{Gcm}
use s3proxy_go.Kms.Stream.{Writer, StreamEncryptor, Done, then_go, encrypt_chunk, flush, write}
use s3proxy_go.Kms.Stream.Chunks.{
  Appends, Emits, Emits-end, nothing_sent, encrypt_chunk-Emits, length-filled,
}

module _ (gcm : Gcm) (nonces : ℕ → Bytes) {W : Type 0} (io : Writer W) (sink : Appends io)
    (twelve : (i : ℕ) → length (nonces i) ≡ 12)
    (overhead : (key nonce text : Bytes)
      → length (gcm.seal key nonce text) ≤ length text + 16) where
  -- the stream has sent all chunks that its buffer held
  abbrev pub Flushed : StreamEncryptor W → Bytes → Done × StreamEncryptor W → Type 0
  Flushed s input (result, t) =
      (result ≡ ok tt) × Emits gcm nonces io sink s input t × (length t.buffer < s.chunk_size)

  pub then_go_ok :
      (next : StreamEncryptor W → Done × StreamEncryptor W) (out : Done × StreamEncryptor W)
      → out.0 ≡ ok tt
      → then_go next out ≡ next out.1
  unfolding then_go
  then_go_ok next (ok u, t) good = refl
  then_go_ok next (err e, t) good = absurd (ground arith)

  abbrev sealed_first : StreamEncryptor W → Done × StreamEncryptor W
  sealed_first s = encrypt_chunk gcm (λ i. some (nonces i)) io (take s.chunk_size s.buffer) s

  first :
      (s : StreamEncryptor W)
      → s.chunk_size ≤ length s.buffer
      → 0 < s.chunk_size
      → s.chunk_size ≤ 2 ^ 20
      → let (result, t) = sealed_first s in
        (result ≡ ok tt)
        × (t.buffer ≡ s.buffer)
        × Emits gcm nonces io sink s s.buffer (record t { buffer = drop s.chunk_size s.buffer })
  first s full filled small =
      let cut = length-take s.chunk_size s.buffer full in
      let out =
        encrypt_chunk-Emits gcm nonces io sink twelve overhead (take s.chunk_size s.buffer)
          (drop s.chunk_size s.buffer) s (length-filled (take s.chunk_size s.buffer) (omega arith))
          (omega arith) in
      (
        out.0,
        out.1,
        subst
            (λ c.
              Emits gcm nonces io sink s c
                (record (sealed_first s).1 { buffer = drop s.chunk_size s.buffer }))
            (take-drop s.chunk_size s.buffer) out.2,
      )

  next_turn :
      (fuel : ℕ) (s : StreamEncryptor W)
      → length s.buffer ≤ suc fuel
      → s.chunk_size ≤ length s.buffer
      → 0 < s.chunk_size
      → s.chunk_size ≤ 2 ^ 20
      → ((u : StreamEncryptor W)
          → length u.buffer ≤ fuel
          → 0 < u.chunk_size
          → u.chunk_size ≤ 2 ^ 20
          → Flushed u u.buffer (flush gcm (λ i. some (nonces i)) io fuel u))
      → let t = (sealed_first s).1 in
        Flushed s s.buffer (
          flush gcm
            (λ i. some (nonces i))
            io
            fuel
            (record t { buffer = drop t.chunk_size t.buffer }))
  next_turn fuel s enough full filled small more =
      let t = (sealed_first s).1 in
      let sent = first s full filled small in
      let size : t.chunk_size ≡ s.chunk_size = sent.2.same_size in
      let u = record t { buffer = drop s.chunk_size s.buffer } in
      let rest = length-drop s.chunk_size s.buffer full in
      let out = more u (omega (arith, rest)) (omega (arith, size)) (omega (arith, size)) in
      subst (λ v. Flushed s s.buffer (flush gcm (λ i. some (nonces i)) io fuel v))
        (ap₂ (λ n b. record t { buffer = drop n b }) (sym size) (sym sent.1))
        (
          out.0,
          Emits-end gcm nonces io sink twelve overhead s u _ s.buffer sent.2 out.1,
          omega (arith, out.2, size),
        )

  flush-Flushed :
      (fuel : ℕ) (s : StreamEncryptor W)
      → length s.buffer ≤ fuel
      → 0 < s.chunk_size
      → s.chunk_size ≤ 2 ^ 20
      → Flushed s s.buffer (flush gcm (λ i. some (nonces i)) io fuel s)
  unfolding flush then_go
  flush-Flushed zero s enough filled small =
      (refl, nothing_sent gcm nonces io sink twelve overhead s, omega arith)
  flush-Flushed (suc fuel) s enough filled small =
      elim (Bool-cases (leb s.chunk_size (length s.buffer))) [
        | inr short ↦
            rw short
              (refl, nothing_sent gcm nonces io sink twelve overhead s, ground (arith, short))
        | inl full ↦
            rw
              (
                full,
                then_go_ok _
                    (encrypt_chunk gcm (λ i. some (nonces i)) io (take s.chunk_size s.buffer) s)
                    (first s (ground (arith, full)) filled small).0,
              )
              (next_turn fuel s enough (ground (arith, full)) filled small (flush-Flushed fuel))
      ]

  pub write-Flushed :
      (p : Bytes) (s : StreamEncryptor W)
      → length s.buffer < s.chunk_size
      → s.chunk_size ≤ 2 ^ 20
      → Flushed s (s.buffer ++ p) (write gcm (λ i. some (nonces i)) io p s)
  unfolding write is_empty
  write-Flushed [] s short small = (
    refl,
    subst (λ c. Emits gcm nonces io sink s c s) (sym (append-nil s.buffer))
        (nothing_sent gcm nonces io sink twelve overhead s),
    short,
  )
  write-Flushed (c ∷ p) s short small =
      let full = s.buffer ++ c ∷ p in
      let out =
        flush-Flushed (length full) (record s { buffer = full }) (omega arith) (omega arith)
          small in
      (out.0, from_buffer full _ out.1, out.2)
    where
      from_buffer :
          (full : Bytes) (t : StreamEncryptor W)
          → Emits gcm nonces io sink (record s { buffer = full }) full t
          → Emits gcm nonces io sink s full t
      from_buffer full t e = record {
        chunks = e.chunks;
        taken = e.taken;
        sent = e.sent;
        drawn = e.drawn;
        same_key = e.same_key;
        same_size = e.same_size;
        small = e.small;
      }
