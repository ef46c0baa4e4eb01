-- ===== src/Remote/Decoding.antt =====
-- internal/storage/s3.go: `chunkedDecodingReader`, through which the body of every object is read.
pub mod Plain
use s3proxy_go.Base.{
  ℕ, zero, suc, ◌+◌, ◌-◌, Bool, true, false, if◌then◌else◌, not, ◌&&◌, ltb, Bytes, lit, is_empty,
  index, has_suffix, List, [], ◌∷◌, ◌++◌, Option, none, some, length, take, drop,
}

-- the blocks are what the reads of the response give, one after the other, of 8192 bytes at most
pub record Decoder : Type 0 where
  pub blocks : List Bytes
  pub buffer : Bytes
  pub in_chunk : Bool
  pub done : Bool

unfoldable pub new_chunked_decoding_reader : List Bytes → Decoder
new_chunked_decoding_reader blocks = record {
  blocks = blocks;
  buffer = [];
  in_chunk = false;
  done = false;
}

-- the end of a chunked body: "0\r\n\r\n"
abbrev pub trailer : Bytes
trailer = b'0' ∷ 13 ∷ 10 ∷ 13 ∷ 10 ∷ []

-- the header of a chunk that ends at a line feed behind the signature
unfoldable pub without_line : Bytes → ℕ → Option ℕ → Option Bytes
without_line block i none = none
without_line block i (some j) = if ltb i j then some (drop (j + 1) block) else none

unfoldable pub header_end : Bytes → Option ℕ → Option Bytes
unfolding index without_line
header_end block none = none
header_end block (some i) =
    if ltb 0 i && ltb i 20 then without_line block i (index block (10 ∷ [])) else none

-- a block without a header at its start, and whether one was taken off
abbrev pub headless : Bytes → Option Bytes → Bytes × Bool
headless block none = (block, false)
headless block (some rest) = (rest, true)

unfoldable pub strip_header : Bool → Bytes → Bytes × Bool
unfolding header_end index
strip_header true block = (block, true)
strip_header false block = headless block (header_end block (index block (lit ";chunk-signature=")))

-- a block without the trailer at its end, and whether one was taken off
unfoldable pub strip_trailer : Bytes → Bytes × Bool
unfolding has_suffix
strip_trailer block =
    if has_suffix block trailer then (take (length block - 5) block, true) else (block, false)

-- a block that was read goes to the caller, as far as there is room, and into the buffer
unfoldable pub deliver : ℕ → Bytes → Decoder → Bytes × Decoder
unfolding strip_header strip_trailer
deliver size block s =
    let body = strip_header s.in_chunk block in
    let rest = strip_trailer body.0 in
    (take size rest.0, record s { buffer = drop size rest.0; in_chunk = body.1; done = rest.1 })

-- what `Read` does before the end of the chunks
unfoldable pub read_open : ℕ → Bytes → List Bytes → Decoder → Option (Bytes × Decoder)
unfolding deliver
read_open size (b ∷ buffer) blocks s =
    some (take size (b ∷ buffer), record s { buffer = drop size (b ∷ buffer) })
read_open size [] [] s = none
read_open size [] (block ∷ blocks) s = some (deliver size block (record s { blocks = blocks }))

-- `Read` into a buffer of `size` bytes; `none` is the end
unfoldable pub read : ℕ → Decoder → Option (Bytes × Decoder)
unfolding read_open
read size s = if s.done then none else read_open size s.buffer s.blocks s

abbrev more : (Decoder → Bytes) → Option (Bytes × Decoder) → Bytes
more rest none = []
more rest (some (b, s)) = b ++ rest s

-- everything that a caller reads with a buffer of `size` bytes; each read takes a block or a byte
unfoldable pub read_all : ℕ → ℕ → Decoder → Bytes
unfolding read
read_all zero size s = []
read_all (suc fuel) size s = more (read_all fuel size) (read size s)

-- the blocks with one more for each
unfoldable pub weight : List Bytes → ℕ
weight [] = 0
weight (b ∷ bs) = suc (length b) + weight bs

-- the body of an object, as it is read through the decoder
unfoldable pub decoded : ℕ → List Bytes → Bytes
unfolding read_all new_chunked_decoding_reader weight
decoded size blocks = read_all (suc (weight blocks)) size (new_chunked_decoding_reader blocks)
