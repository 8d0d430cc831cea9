-- ===== src/Shared/Base64.antt =====
-- shared/messages.ts: the canonical base64 texts.
pub mod Encoding
pub mod Decoding
pub mod Canonical
use p2p_transfer.Base.{
  ℕ, suc, ◌+◌, ◌-◌, ◌*◌, ◌/◌, ◌%◌, Bool, true, false, not, ◌&&◌, ◌||◌, Option, none, some, List, [],
  ◌∷◌, Text, ltb, leb, ◌==◌, if◌then◌else◌, length, drop,
}

-- `base64Index`; `none` is -1.
unfoldable pub base64_index : ℕ → Option ℕ
base64_index code =
    if leb 65 code && leb code 90
    then some (code - 65)
    else if leb 97 code && leb code 122
    then some (code - 71)
    else if leb 48 code && leb code 57
    then some (code + 4)
    else if code == 43
    then some 62
    else if code == 47
    then some 63
    else none

-- [A-Za-z0-9+/]
unfoldable pub is_base64_char : ℕ → Bool
is_base64_char c =
    (leb 65 c && leb c 90)
    || (leb 97 c && leb c 122)
    || (leb 48 c && leb c 57)
    || c == 43
    || c == 47

-- Four characters of CANONICAL_BASE64 that are not the last, and four that are.
unfoldable pub is_full_group : ℕ → ℕ → ℕ → ℕ → Bool
is_full_group a b c d = is_base64_char a && is_base64_char b && is_base64_char c && is_base64_char d

unfoldable pub is_padded_group : ℕ → ℕ → ℕ → ℕ → Bool
is_padded_group a b c d =
    is_base64_char a && is_base64_char b && ((c == 61 && d == 61) || (is_base64_char c && d == 61))

-- CANONICAL_BASE64
unfoldable pub matches_base64 : Text → Bool
matches_base64 [] = true
matches_base64 (a ∷ b ∷ c ∷ d ∷ rest) =
    let more = is_full_group a b c d && matches_base64 rest in
    more || (length rest == 0 && is_padded_group a b c d)
matches_base64 _ = false

-- `base64Index(char) & 0x0f`, and `& 0x03`, for a mask of 16 or of 4. A -1 keeps every bit.
unfoldable pub low_bits_clear : ℕ → ℕ → Bool
low_bits_clear mask char = elim (base64_index char) [ none ↦ false | some n ↦ n % mask == 0 ]

-- The end of the text decides, and a text that ends in `=` has three characters at least.
unfoldable pub clear_end : Text → Bool
clear_end (x ∷ y ∷ z ∷ []) =
    if y == 61 && z == 61 then low_bits_clear 16 x else if z == 61 then low_bits_clear 4 y else true
clear_end _ = true

unfoldable pub has_canonical_base64_padding : Text → Bool
has_canonical_base64_padding value = clear_end (drop (length value - 3) value)

abbrev pub padding_of : Text → ℕ
padding_of (y ∷ z ∷ []) = if y == 61 && z == 61 then 2 else if z == 61 then 1 else 0
padding_of _ = 0

unfoldable pub base64_decoded_byte_length : Text → ℕ
base64_decoded_byte_length value = length value / 4 * 3 - padding_of (drop (length value - 2) value)

unfoldable pub is_canonical_base64 : Text → Bool
is_canonical_base64 value =
    length value % 4 == 0 && matches_base64 value && has_canonical_base64_padding value

-- `isBase64EncodedBytes`, of a string
unfoldable pub is_base64_encoded_bytes : Text → ℕ → Bool
is_base64_encoded_bytes value decoded_bytes =
    is_canonical_base64 value && base64_decoded_byte_length value == decoded_bytes

-- `isBoundedCanonicalBase64`, of a string
unfoldable pub is_bounded_canonical_base64 : Text → ℕ → ℕ → Bool
is_bounded_canonical_base64 value min_chars max_chars =
    leb min_chars (length value) && leb (length value) max_chars && is_canonical_base64 value
