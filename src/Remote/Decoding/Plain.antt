-- ===== src/Remote/Decoding/Plain.antt =====
-- Bodies that are no chunked streams, read through the decoder.
use s3proxy_go.Base.{
  ℕ, zero, suc, ◌+◌, ◌≤◌, ◌<◌, Bool, true, false, Bytes, lit, index, has_suffix, List, [], ◌∷◌,
  ◌++◌, none, length, take, drop, ◌≡◌, refl, sym, ap, arith, ◌∙◌, take-drop, length-append,
  take-append, beq_refl,
}
use mathlib.Core.List.{append_assoc, append-nil}
use s3proxy_go.Remote.Decoding.{
  Decoder, trailer, strip_header, strip_trailer, header_end, deliver, read, read_all, weight,
  decoded,
}

abbrev pub concat : List Bytes → Bytes
concat [] = []
concat (b ∷ bs) = b ++ concat bs

-- no header of a chunk is found in the block
abbrev pub HasNoHeader : Bytes → Type 0
HasNoHeader block = header_end block (index block (lit ";chunk-signature=")) ≡ none

-- no block looks like one of a chunked stream
abbrev pub ArePlain : List Bytes → Type 0
ArePlain [] = Unit
ArePlain (b ∷ bs) = HasNoHeader b × (has_suffix b trailer ≡ false) × ArePlain bs

abbrev reading : Bytes → List Bytes → Bool → Decoder
reading buffer blocks done = record {
  blocks = blocks;
  buffer = buffer;
  in_chunk = false;
  done = done;
}

length-drop_le : {A : Type 0} (n : ℕ) (xs : List A) → length (drop n xs) ≤ length xs
length-drop_le zero xs = omega arith
length-drop_le (suc n) [] = omega arith
length-drop_le (suc n) (x ∷ xs) = omega (arith, length-drop_le n xs)

-- what a caller gets of a block without its trailer, and the decoder behind it
abbrev delivered : ℕ → List Bytes → Bytes × Bool → Bytes × Decoder
delivered size bs (text, done) = (take size text, reading (drop size text) bs done)

abbrev marked : Bytes → Bytes × Bool
marked text = (text, true)

deliver-plain :
    (size : ℕ) (b : Bytes) (bs : List Bytes)
    → HasNoHeader b
    → deliver size b (reading [] bs false) ≡ delivered size bs (strip_trailer b)
unfolding deliver strip_header
deliver-plain size b bs h = rw h refl

strip_trailer-none : (b : Bytes) → has_suffix b trailer ≡ false → strip_trailer b ≡ (b, false)
unfolding strip_trailer
strip_trailer-none b h = rw h refl

read_all-plain :
    (fuel size : ℕ) (buffer : Bytes) (blocks : List Bytes)
    → 0 < size
    → ArePlain blocks
    → weight blocks + length buffer < fuel
    → read_all fuel size (reading buffer blocks false) ≡ buffer ++ concat blocks
unfolding read_all read weight
read_all-plain zero size buffer blocks pos plain enough = absurd (omega arith)
read_all-plain (suc fuel) zero (c ∷ buffer) blocks pos plain enough = absurd (omega arith)
read_all-plain (suc fuel) (suc size) (c ∷ buffer) blocks pos plain enough =
    ap (λ x. (c ∷ take size buffer) ++ x)
      (read_all-plain fuel (suc size) (drop size buffer) blocks pos plain
        (omega (arith, enough, length-drop_le size buffer)))
    ∙ sym (append_assoc (c ∷ take size buffer) (drop size buffer) (concat blocks))
    ∙ ap (λ x. (c ∷ x) ++ concat blocks) (take-drop size buffer)
read_all-plain (suc fuel) size [] [] pos plain enough = refl
read_all-plain (suc fuel) size [] (b ∷ bs) pos (headless, endless, plain) enough =
    ap (λ (x : Bytes × Decoder). x.0 ++ read_all fuel size x.1)
      (deliver-plain size b bs headless ∙ ap (delivered size bs) (strip_trailer-none b endless))
    ∙ ap (λ x. take size b ++ x)
        (read_all-plain fuel size (drop size b) bs pos plain
          (omega (arith, enough, length-drop_le size b)))
    ∙ sym (append_assoc (take size b) (drop size b) (concat bs))
    ∙ ap (λ x. x ++ concat bs) (take-drop size b)

-- A body whose blocks do not look like those of a chunked stream is read as it is, with a buffer of any
-- size but 0, and reading it comes to its end.
pub decoded_plain :
    (size : ℕ) (blocks : List Bytes)
    → 0 < size
    → ArePlain blocks
    → decoded size blocks ≡ concat blocks
unfolding decoded
decoded_plain size blocks pos plain =
    read_all-plain (suc (weight blocks)) size [] blocks pos plain (omega arith)

has_suffix-append : (s t : Bytes) → has_suffix (s ++ t) t ≡ true
unfolding has_suffix
has_suffix-append [] [] = refl
has_suffix-append [] (y ∷ t) = rw (beq_refl (y ∷ t)) refl
has_suffix-append (x ∷ s) t = ground (arith, has_suffix-append s t)

strip_trailer-some : (text : Bytes) → strip_trailer (text ++ trailer) ≡ (text, true)
unfolding strip_trailer
strip_trailer-some text = rw (has_suffix-append text trailer) (
    ap marked (
      ap (λ n. take n (text ++ trailer)) (omega (arith, length-append text trailer))
      ∙ take-append text trailer))

weight-one : (b : Bytes) → weight (b ∷ []) ≡ suc (length b)
unfolding weight
weight-one b = omega arith

-- An object whose content ends in "0\r\n\r\n", read in one block that has no header of a chunk, loses
-- these five bytes, and of the others all that do not fit into the buffer of the first read: its
-- content is cut to the size of that buffer.
pub decoded_cut :
    (size : ℕ) (text : Bytes)
    → HasNoHeader (text ++ trailer)
    → decoded size ((text ++ trailer) ∷ []) ≡ take size text
unfolding decoded read_all read
decoded_cut size text headless =
    let block = text ++ trailer in
    ap (λ n. read_all (suc n) size (reading [] (block ∷ []) false)) (weight-one block)
    ∙ ap (λ (x : Bytes × Decoder). x.0 ++ read_all (suc (length block)) size x.1)
        (deliver-plain size block [] headless ∙ ap (delivered size []) (strip_trailer-some text))
    ∙ append-nil (take size text)
