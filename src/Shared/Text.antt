-- ===== src/Shared/Text.antt =====
-- JavaScript strings as the program walks them: UTF-16 code units, the characters of a `for … of`
-- loop, UTF-8 lengths, and the white space of `trim`.
pub mod Lengths
use p2p_transfer.Base.{
  ℕ, ◌+◌, ◌-◌, ◌*◌, Bool, true, false, not, ◌&&◌, ◌||◌, List, [], ◌∷◌, ◌++◌, reverse, Text, ltb,
  leb, ◌==◌, if◌then◌else◌,
}

abbrev pub is_high_surrogate : ℕ → Bool
is_high_surrogate c = leb 0xd800 c && leb c 0xdbff

abbrev pub is_low_surrogate : ℕ → Bool
is_low_surrogate c = leb 0xdc00 c && leb c 0xdfff

-- `utf8ByteLength` of shared/limits.ts. What stands alone, a surrogate too, takes the bytes of its
-- range.
abbrev pub unit_bytes : ℕ → ℕ
unit_bytes c = if ltb c 0x80 then 1 else if ltb c 0x800 then 2 else 3

unfoldable pub utf8_byte_length : Text → ℕ
utf8_byte_length [] = 0
utf8_byte_length (c ∷ []) = unit_bytes c
utf8_byte_length (c ∷ d ∷ rest) =
    let pair = 4 + utf8_byte_length rest in
    let single = unit_bytes c + utf8_byte_length (d ∷ rest) in
    if is_high_surrogate c && is_low_surrogate d then pair else single

-- The characters that `for (const char of value)` visits.
unfoldable pub characters : Text → List Text
characters [] = []
characters (c ∷ []) = (c ∷ []) ∷ []
characters (c ∷ d ∷ rest) =
    let pair = (c ∷ d ∷ []) ∷ characters rest in
    let single = (c ∷ []) ∷ characters (d ∷ rest) in
    if is_high_surrogate c && is_low_surrogate d then pair else single

-- The code point of a character, which a regular expression with the flag u tests.
abbrev pub code_point : Text → ℕ
code_point [] = 0
code_point (c ∷ []) = c
code_point (c ∷ d ∷ _) = (c - 0xd800) * 1024 + (d - 0xdc00) + 0x10000

unfoldable pub join : List Text → Text
join [] = []
join (c ∷ cs) = c ++ join cs

-- The loop of `trimToUtf8Bytes`, from the bytes that are taken already.
unfoldable pub trim_characters : ℕ → ℕ → List Text → Text
trim_characters bytes max_bytes [] = []
trim_characters bytes max_bytes (char ∷ rest) =
    let length = utf8_byte_length char in
    let more = char ++ trim_characters (bytes + length) max_bytes rest in
    if ltb max_bytes (bytes + length) then [] else more

unfoldable pub trim_to_utf8_bytes : Text → ℕ → Text
unfolding trim_characters characters utf8_byte_length
trim_to_utf8_bytes value max_bytes = trim_characters 0 max_bytes (characters value)

-- WhiteSpace and LineTerminator of ECMAScript, which `trim` strips.
unfoldable pub is_white_space : ℕ → Bool
is_white_space c =
    (leb 9 c && leb c 13)
    || c == 0x20
    || c == 0xa0
    || c == 0x1680
    || (leb 0x2000 c && leb c 0x200a)
    || c == 0x2028
    || c == 0x2029
    || c == 0x202f
    || c == 0x205f
    || c == 0x3000
    || c == 0xfeff

unfoldable pub drop_while : (ℕ → Bool) → Text → Text
drop_while p [] = []
drop_while p (c ∷ s) = let rest = drop_while p s in if p c then rest else c ∷ s

unfoldable pub drop_while_end : (ℕ → Bool) → Text → Text
unfolding drop_while
drop_while_end p s = reverse (drop_while p (reverse s))

unfoldable pub trim : Text → Text
unfolding drop_while drop_while_end is_white_space
trim s = drop_while_end is_white_space (drop_while is_white_space s)

unfoldable pub lower_ascii : Text → Text
lower_ascii [] = []
lower_ascii (c ∷ s) = (if leb 65 c && leb c 90 then c + 32 else c) ∷ lower_ascii s
