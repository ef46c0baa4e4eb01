-- ===== src/Kms/Stream/RoundTrip.antt =====
-- What `Write` and `Close` of `StreamEncryptor`, internal/kms/envelope.go, send reads back.
use mathlib.Core.List.{append_assoc, append-nil}
use s3proxy_go.Base.{
  ℕ, ◌+◌, ◌^◌, ◌<◌, ◌≤◌, none, some, List, [], ◌∷◌, ◌++◌, length, Bytes, is_empty, ok, err, ◌≡◌,
  inl, inr, refl, sym, ap, subst, ◌∙◌, arith, Bool-cases,
}
use s3proxy_go.Kms.Manager.{World}
use s3proxy_go.Kms.Envelope.{Gcm, zero_key}
use s3proxy_go.Kms.Stream.{
  Writer, StreamEncryptor, Done, then_go, encrypt_chunk, write, closing, close, close_writer,
}
use s3proxy_go.Kms.Stream.Frames.{emit, join, read_frames, read_frames-emit, length-emit}
use s3proxy_go.Kms.Stream.Chunks.{
  Appends, Emits, Emits-then, Emits-end, nothing_sent, encrypt_chunk-Emits, is_empty→nil,
}
use s3proxy_go.Kms.Stream.Writes.{then_go_ok, Flushed, write-Flushed}

module _ (gcm : Gcm) (nonces : ℕ → Bytes) {W : Type 0} (io : Writer W) where
  -- a client that writes some texts one after the other
  unfoldable pub write_all : List Bytes → StreamEncryptor W → Done × StreamEncryptor W
  unfolding then_go
  write_all [] s = (ok tt, s)
  write_all (p ∷ ps) s = then_go (write_all ps) (write gcm (λ i. some (nonces i)) io p s)

  -- the texts written and the stream closed
  abbrev pub written_and_closed :
      List Bytes → StreamEncryptor W → World → Done × StreamEncryptor W × World
  written_and_closed ps s w = close gcm (λ i. some (nonces i)) io (write_all ps s).1 w

module _ (gcm : Gcm) (nonces : ℕ → Bytes) {W : Type 0} (io : Writer W) (sink : Appends io)
    (twelve : (i : ℕ) → length (nonces i) ≡ 12)
    (overhead : (key nonce text : Bytes)
      → length (gcm.seal key nonce text) ≤ length text + 16) where
  write_all-Flushed :
      (ps : List Bytes) (s : StreamEncryptor W)
      → length s.buffer < s.chunk_size
      → s.chunk_size ≤ 2 ^ 20
      → Flushed gcm nonces io sink twelve overhead s
          (s.buffer ++ join ps)
          (write_all gcm nonces io ps s)
  unfolding write_all then_go
  write_all-Flushed [] s short small = (
    refl,
    subst (λ c. Emits gcm nonces io sink s c s) (sym (append-nil s.buffer))
        (nothing_sent gcm nonces io sink twelve overhead s),
    short,
  )
  write_all-Flushed (p ∷ ps) s short small =
      let one = write-Flushed gcm nonces io sink twelve overhead p s short small in
      let t = (write gcm (λ i. some (nonces i)) io p s).1 in
      let more =
        write_all-Flushed ps t (omega (arith, one.2, one.1.same_size))
          (omega (arith, small, one.1.same_size)) in
      subst (λ out. Flushed gcm nonces io sink twelve overhead s (s.buffer ++ (p ++ join ps)) out)
        (sym (
          then_go_ok gcm nonces io sink twelve overhead (write_all gcm nonces io ps)
            (write gcm (λ i. some (nonces i)) io p s) one.0))
        (
          more.0,
          subst (λ c. Emits gcm nonces io sink s c (write_all gcm nonces io ps t).1)
              (append_assoc s.buffer p (join ps))
              (Emits-then gcm nonces io sink twelve overhead s t (write_all gcm nonces io ps t).1
                (s.buffer ++ p) (join ps) one.1 more.1),
          omega (arith, more.2, one.1.same_size),
        )

  encrypt_rest :
      (t : StreamEncryptor W)
      → length t.buffer ≤ 2 ^ 20
      → let (result, u) = encrypt_chunk gcm (λ i. some (nonces i)) io t.buffer t in
        (result ≡ ok tt) × Emits gcm nonces io sink t t.buffer (record u { buffer = [] })
  unfolding encrypt_chunk
  encrypt_rest t small = elim (Bool-cases (is_empty t.buffer)) [
    | inl nothing_left ↦ rw nothing_left (
      refl,
      record {
        chunks = [];
        taken = is_empty→nil t.buffer nothing_left;
        sent = sym (append-nil (sink.output t.writer));
        drawn = omega arith;
        same_key = refl;
        same_size = refl;
        small = tt;
      },
    )
    | inr some_left ↦
        let out =
          encrypt_chunk-Emits gcm nonces io sink twelve overhead t.buffer [] t some_left small in
        (
          out.0,
          subst
              (λ c.
                Emits gcm nonces io sink t c
                  (record (encrypt_chunk gcm (λ i. some (nonces i)) io t.buffer t).1 {
                    buffer = [];
                  }))
              (append-nil t.buffer) out.2,
        )
  ]

  closing_ok :
      (w : World) (out : Done × StreamEncryptor W)
      → out.0 ≡ ok tt
      → io.close ≡ none
      → closing gcm (λ i. some (nonces i)) io w out
        ≡ (ok tt, record out.1 { buffer = [] }, zero_key out.1.data_key w)
  unfolding closing close_writer
  closing_ok w (ok u, t) good plain = rw plain refl
  closing_ok w (err e, t) good plain = absurd (ground arith)

  close-Emits :
      (s t : StreamEncryptor W) (front : Bytes) (w : World)
      → io.close ≡ none
      → length t.buffer ≤ 2 ^ 20
      → Emits gcm nonces io sink s front t
      → let (result, u, w') = close gcm (λ i. some (nonces i)) io t w in
        (result ≡ ok tt) × Emits gcm nonces io sink s front u × (u.buffer ≡ [])
  unfolding close
  close-Emits s t front w plain small e =
      let out = encrypt_rest t small in
      rw (closing_ok w (encrypt_chunk gcm (λ i. some (nonces i)) io t.buffer t) out.0 plain)
        (refl, Emits-end gcm nonces io sink twelve overhead s t _ front e out.1, refl)

  read-Emits :
      (s t : StreamEncryptor W) (front : Bytes)
      → Emits gcm nonces io sink s front t
      → sink.output s.writer ≡ []
      → t.buffer ≡ []
      → let out = sink.output t.writer in
        read_frames gcm s.gcm_key (length out + 1) out ≡ some front
  read-Emits s t front e blank done =
      let frames = emit gcm s.gcm_key nonces s.drawn e.chunks in
      let sent : sink.output t.writer ≡ frames = e.sent ∙ ap (λ o. o ++ frames) blank in
      let whole : front ≡ join e.chunks =
        e.taken ∙ ap (◌++◌ (join e.chunks)) done ∙ append-nil (join e.chunks) in
      rw sent (
        read_frames-emit gcm s.gcm_key nonces twelve (overhead s.gcm_key) (length frames + 1)
          s.drawn e.chunks e.small
          (omega
            (arith, length-emit gcm s.gcm_key nonces twelve (overhead s.gcm_key) s.drawn e.chunks))
        ∙ ap some (sym whole))

  -- If the nonces have twelve bytes, sealing adds at most 16 bytes, and the writer takes everything and is no closer, then a fresh stream encryptor with chunks of at most a megabyte takes any texts with no error, and what it has written when it is closed reads back as the texts, one behind the other, whatever their lengths.
  pub read_frames-close :
      (ps : List Bytes) (s : StreamEncryptor W) (w : World)
      → io.close ≡ none
      → s.buffer ≡ []
      → sink.output s.writer ≡ []
      → 0 < s.chunk_size
      → s.chunk_size ≤ 2 ^ 20
      → let (result, t, w') = written_and_closed gcm nonces io ps s w in
        let out = sink.output t.writer in
        ((write_all gcm nonces io ps s).0 ≡ ok tt)
        × (result ≡ ok tt)
        × (read_frames gcm s.gcm_key (length out + 1) out ≡ some (join ps))
  read_frames-close ps s w plain fresh blank filled small =
      let wrote = write_all-Flushed ps s (rw fresh filled) small in
      let done =
        close-Emits s (write_all gcm nonces io ps s).1 (s.buffer ++ join ps) w plain
          (omega (arith, wrote.2)) wrote.1 in
      (
        wrote.0,
        done.0,
        read-Emits s _ (s.buffer ++ join ps) done.1 blank done.2
            ∙ ap (λ b. some (b ++ join ps)) fresh,
      )
