-- ===== src/Shared/Chunks.antt =====
-- shared/chunks.ts: the binary frame of a file chunk. A byte is a number, and a frame its bytes.
pub mod RoundTrip
use p2p_transfer.Base.{
  ℕ, zero, suc, ◌+◌, ◌*◌, ◌-◌, ◌/◌, ◌%◌, Bool, true, false, not, ◌||◌, List, [], ◌∷◌, ◌++◌, Number,
  nat, negative, inexact, ltb, ◌==◌, if◌then◌else◌, length, drop,
}

-- `CHUNK_SIZE + AES_GCM_TAG_BYTES`
abbrev pub sealed_chunk_size : ℕ
sealed_chunk_size = 16384 + 16

pub record ChunkFrame : Type 0 where
  pub file_id : ℕ
  pub chunk_seq : ℕ
  pub payload : List ℕ

pub data ChunkError : Type 0 where
  file_id_range chunk_seq_range payload_too_long frame_too_small length_mismatch payload_too_large :
      ChunkError

pub data Coded (A : Type 0) : Type 0 where
  coded : A → Coded A
  thrown : ChunkError → Coded A

-- Whether `!Number.isInteger(value) || value < 0 || value > bound - 1` fails. An integer that is no
-- exact natural number is out of the range too.
abbrev pub fits : ℕ → Number → Bool
fits bound (nat n) = ltb n bound
fits bound (negative n) = false
fits bound (inexact n) = false

abbrev pub natural_of : Number → ℕ
natural_of (nat n) = n
natural_of (negative n) = 0
natural_of (inexact n) = 0

-- `view.setUint32(offset, n, false)`: the four bytes
unfoldable pub uint32_bytes : ℕ → List ℕ
uint32_bytes n = (n / 16777216) % 256 ∷ (n / 65536) % 256 ∷ (n / 256) % 256 ∷ n % 256 ∷ []

-- `view.getUint8(offset)`. The callers read within the frame.
abbrev pub byte_at : ℕ → List ℕ → ℕ
byte_at i [] = 0
byte_at zero (b ∷ bs) = b
byte_at (suc i) (b ∷ bs) = byte_at i bs

-- `view.getUint32(offset, false)`
unfoldable pub get_uint32 : ℕ → List ℕ → ℕ
get_uint32 offset bytes =
    byte_at offset bytes * 16777216
    + byte_at (offset + 1) bytes * 65536
    + byte_at (offset + 2) bytes * 256
    + byte_at (offset + 3) bytes

-- The 9 bytes before the payload, and the payload.
unfoldable pub frame_bytes : ℕ → ℕ → List ℕ → List ℕ
frame_bytes file_id chunk_seq payload =
    file_id % 256 ∷ uint32_bytes chunk_seq ++ uint32_bytes (length payload) ++ payload

unfoldable pub encode_chunk : Number → Number → List ℕ → Coded (List ℕ)
encode_chunk file_id chunk_seq payload =
    if not (fits 256 file_id)
    then thrown file_id_range
    else if not (fits 4294967296 chunk_seq)
    then thrown chunk_seq_range
    else if ltb sealed_chunk_size (length payload)
    then thrown payload_too_long
    else coded (frame_bytes (natural_of file_id) (natural_of chunk_seq) payload)

unfoldable pub decode_chunk : List ℕ → Coded ChunkFrame
decode_chunk bytes =
    let byte_length = length bytes in
    let file_id = byte_at 0 bytes in
    let chunk_seq = get_uint32 1 bytes in
    let payload_len = get_uint32 5 bytes in
    if ltb byte_length 9
    then thrown frame_too_small
    else if not (payload_len == byte_length - 9)
    then thrown length_mismatch
    else if ltb sealed_chunk_size payload_len
    then thrown payload_too_large
    else coded (record { file_id = file_id; chunk_seq = chunk_seq; payload = drop 9 bytes })
