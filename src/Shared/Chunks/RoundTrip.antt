-- ===== src/Shared/Chunks/RoundTrip.antt =====
-- shared/chunks.ts: `encodeChunk` and `decodeChunk` undo each other.
use p2p_transfer.Base.{
  ℕ, zero, suc, ◌+◌, ◌*◌, ◌/◌, ◌%◌, ◌≤◌, ◌<◌, ◌≡◌, refl, List, [], ◌∷◌, ◌++◌, nat, length, drop,
  arith, All, length-drop,
}
use p2p_transfer.Shared.Chunks.{
  ChunkFrame, coded, uint32_bytes, byte_at, get_uint32, frame_bytes, encode_chunk, decode_chunk,
  sealed_chunk_size,
}

uint32_value :
    (n : ℕ)
    → n < 4294967296
    → (n / 16777216) % 256 * 16777216 + (n / 65536) % 256 * 65536 + (n / 256) % 256 * 256 + n % 256
      ≡ n
uint32_value n h = omega arith

-- For an identifier below 256, a sequence number below 2^32 and a payload of at most 16400 bytes,
-- `encodeChunk` makes a frame, which decodes to what went in.
pub decode-encode :
    (file_id chunk_seq : ℕ) (payload : List ℕ)
    → file_id < 256
    → chunk_seq < 4294967296
    → length payload ≤ sealed_chunk_size
    → (encode_chunk (nat file_id) (nat chunk_seq) payload
        ≡ coded (frame_bytes file_id chunk_seq payload))
      × (decode_chunk (frame_bytes file_id chunk_seq payload)
          ≡ coded (record { file_id = file_id; chunk_seq = chunk_seq; payload = payload }))
unfolding encode_chunk decode_chunk frame_bytes get_uint32 uint32_bytes
decode-encode f c p a b l =
    (ground arith, ground (arith, uint32_value c b, uint32_value (length p) (omega arith)))

abbrev pub IsByte : ℕ → Type 0
IsByte b = b < 256

-- The four bytes of a number that was read from four bytes.
uint32_of :
    (a b c d : ℕ)
    → a < 256
    → b < 256
    → c < 256
    → d < 256
    → uint32_bytes (a * 16777216 + b * 65536 + c * 256 + d) ≡ a ∷ b ∷ c ∷ d ∷ []
unfolding uint32_bytes
uint32_of a b c d ha hb hc hd =
    let n = a * 16777216 + b * 65536 + c * 256 + d in
    let first : (n / 16777216) % 256 ≡ a = omega arith in
    let second : (n / 65536) % 256 ≡ b = omega arith in
    let third : (n / 256) % 256 ≡ c = omega arith in let fourth : n % 256 ≡ d = omega arith in cc

drop-step : (i : ℕ) (xs : List ℕ) → i < length xs → drop i xs ≡ byte_at i xs ∷ drop (suc i) xs
drop-step zero [] h = ground arith
drop-step zero (x ∷ xs) h = refl
drop-step (suc i) [] h = ground arith
drop-step (suc i) (x ∷ xs) h = drop-step i xs (omega arith)

byte_at-IsByte : (i : ℕ) (xs : List ℕ) → All IsByte xs → IsByte (byte_at i xs)
byte_at-IsByte i [] all = omega arith
byte_at-IsByte zero (x ∷ xs) all = all.0
byte_at-IsByte (suc i) (x ∷ xs) all = byte_at-IsByte i xs all.1

get_uint32_bytes :
    (i : ℕ) (xs : List ℕ)
    → All IsByte xs
    → uint32_bytes (get_uint32 i xs)
      ≡ byte_at i xs ∷ byte_at (i + 1) xs ∷ byte_at (i + 2) xs ∷ byte_at (i + 3) xs ∷ []
unfolding get_uint32
get_uint32_bytes i xs all =
    let byte = λ (k : ℕ). byte_at-IsByte k xs all in
    uint32_of _ _ _ _ (byte i) (byte (i + 1)) (byte (i + 2)) (byte (i + 3))

get_uint32-lt : (i : ℕ) (xs : List ℕ) → All IsByte xs → get_uint32 i xs < 4294967296
unfolding get_uint32
get_uint32-lt i xs all =
    let byte = λ (k : ℕ). byte_at-IsByte k xs all in
    omega (arith, byte i, byte (i + 1), byte (i + 2), byte (i + 3))

-- A frame with room for the header is the header that its numbers make, and the rest.
header :
    (xs : List ℕ)
    → 9 ≤ length xs
    → All IsByte xs
    → xs
      ≡ byte_at 0 xs ∷ uint32_bytes (get_uint32 1 xs) ++ uint32_bytes (get_uint32 5 xs) ++ drop 9 xs
header xs long all =
    let step = λ (i : ℕ) (h : i < 9). drop-step i xs (omega arith) in
    let first : xs ≡ byte_at 0 xs ∷ drop 1 xs = step 0 (omega arith) in
    let sequence = get_uint32_bytes 1 xs all in
    let size = get_uint32_bytes 5 xs all in
    let bytes : xs
        ≡ byte_at 0 xs ∷ (byte_at 1 xs ∷ byte_at 2 xs ∷ byte_at 3 xs ∷ byte_at 4 xs ∷ [])
          ++ (byte_at 5 xs ∷ byte_at 6 xs ∷ byte_at 7 xs ∷ byte_at 8 xs ∷ [])
          ++ drop 9 xs =
      cc (
        first,
        step 1 (omega arith),
        step 2 (omega arith),
        step 3 (omega arith),
        step 4 (omega arith),
        step 5 (omega arith),
        step 6 (omega arith),
        step 7 (omega arith),
        step 8 (omega arith),
      ) in
    rw (sequence, size) bytes

-- What a frame that decodes is.
record IsFrame (bytes : List ℕ) (frame : ChunkFrame) : Type 0 where
  long : 9 ≤ length bytes
  small : length (drop 9 bytes) ≤ sealed_chunk_size
  counted : get_uint32 5 bytes ≡ length (drop 9 bytes)
  id : frame.file_id ≡ byte_at 0 bytes
  sequence : frame.chunk_seq ≡ get_uint32 1 bytes
  rest : frame.payload ≡ drop 9 bytes

decoded-IsFrame :
    (bytes : List ℕ) (frame : ChunkFrame) → decode_chunk bytes ≡ coded frame → IsFrame bytes frame
unfolding decode_chunk
decoded-IsFrame bytes frame h = record {
  long = ground arith;
  small = ground (arith, length-drop 9 bytes);
  counted = ground (arith, length-drop 9 bytes);
  id = ground arith;
  sequence = ground arith;
  rest = ground arith;
}

-- Bytes, each below 256, that decode to a frame are the frame that `encodeChunk` makes of it: there is one encoding.
pub encode-decode :
    (bytes : List ℕ) (frame : ChunkFrame)
    → All IsByte bytes
    → decode_chunk bytes ≡ coded frame
    → encode_chunk (nat frame.file_id) (nat frame.chunk_seq) frame.payload ≡ coded bytes
unfolding encode_chunk frame_bytes
encode-decode bytes frame all decoded =
    let f = decoded-IsFrame bytes frame decoded in
    ground (
      arith,
      header bytes f.long all,
      f.small,
      f.counted,
      f.id,
      f.sequence,
      f.rest,
      byte_at-IsByte 0 bytes all,
      get_uint32-lt 1 bytes all,
    )
