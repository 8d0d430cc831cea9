-- ===== src/Shared/FileNames.antt =====
-- shared/limits.ts: the names that a received file may get. Which code points are format
-- characters (the class Cf of Unicode) is the regular expression engine's table, a parameter.

use Prim.Native.String.{String}
use Prim.Native.Char.{code}
use p2p_transfer.Base.{
  ℕ, ◌+◌, ◌-◌, ◌/◌, ◌%◌, Bool, false, not, ◌&&◌, ◌||◌, Option, none, some, List, [], ◌∷◌, ◌++◌,
  reverse, Text, same_text, ltb, leb, ◌==◌, if◌then◌else◌, length, take, drop, min, max,
}
use p2p_transfer.Shared.Text.{
  utf8_byte_length, characters, code_point, join, trim_to_utf8_bytes, drop_while, drop_while_end,
  trim, lower_ascii,
}

-- The code units of an ASCII literal.
abbrev pub units : String → Text
units String.[] = []
units (String.◌∷◌ c s) = code c ∷ units s

abbrev pub safe_file_name_bytes : ℕ
safe_file_name_bytes = 200

abbrev pub safe_extension_bytes : ℕ
safe_extension_bytes = 32

abbrev pub max_safe_file_name_input_chars : ℕ
max_safe_file_name_input_chars = 4096

abbrev pub max_output_name_attempts : ℕ
max_output_name_attempts = 256

abbrev pub is_path_separator : ℕ → Bool
is_path_separator c = c == 47 || c == 92

-- The class Cc of Unicode.
abbrev pub is_control : ℕ → Bool
is_control c = ltb c 0x20 || (leb 0x7f c && leb c 0x9f)

-- < > : " | ? *
abbrev pub is_unportable : ℕ → Bool
is_unportable c = c == 60 || c == 62 || c == 58 || c == 34 || c == 124 || c == 63 || c == 42

-- From the end back to the first separator, over the name in reverse.
unfoldable pub until_separator : Text → Text
until_separator [] = []
until_separator (c ∷ s) =
    let rest = until_separator s in if is_path_separator c then [] else c ∷ rest

-- The name up to its last characters that are separators; of the rest, the part behind the last
-- separator of the last 4096 units.
unfoldable pub leaf_name : Text → Text
unfolding until_separator drop_while
leaf_name name = elim (drop_while is_path_separator (reverse name)) [
  | [] ↦ units "file"
  | c ∷ rest ↦ reverse (until_separator (take max_safe_file_name_input_chars (c ∷ rest)))
]

-- The units before the first one that passes.
unfoldable pub before : (ℕ → Bool) → Text → Text
before p [] = []
before p (c ∷ s) = let rest = before p s in if p c then [] else c ∷ rest

abbrev pub is_dot_or_space : ℕ → Bool
is_dot_or_space c = c == 46 || c == 32

abbrev pub is_one_of : Text → List Text → Bool
is_one_of s [] = false
is_one_of s (t ∷ ts) = same_text s t || is_one_of s ts

-- com1 to com9, or lpt1 to lpt9
abbrev pub is_numbered_device : Text → Bool
is_numbered_device (a ∷ b ∷ c ∷ d ∷ []) =
    (same_text (a ∷ b ∷ c ∷ []) (units "com") || same_text (a ∷ b ∷ c ∷ []) (units "lpt"))
    && (leb 49 d && leb d 57)
is_numbered_device _ = false

-- The regular expression of `isWindowsReservedName`.
abbrev pub is_reserved_base : Text → Bool
is_reserved_base base =
    is_one_of base (units "con" ∷ units "prn" ∷ units "aux" ∷ units "nul" ∷ [])
    || is_numbered_device base

-- No character outside ASCII has a letter of the reserved names as its lower case.
unfoldable pub is_windows_reserved_name : Text → Bool
unfolding before drop_while_end lower_ascii
is_windows_reserved_name name =
    is_reserved_base (lower_ascii (drop_while_end is_dot_or_space (before (λ c. c == 46) name)))

-- The part before the last dot and the part from it on, if that dot is neither first nor last.
-- Over the name in reverse: what follows the dot, and the dot with what precedes it.
unfoldable pub split_last_dot : Text → Option (Text × Text)
unfolding before
split_last_dot name =
    let tail = before (λ c. c == 46) (reverse name) in
    let base = take (length name - length tail - 1) name in
    let ext = drop (length name - length tail - 1) name in
    if length tail == length name || length tail == 0 || length base == 0
    then none
    else some (base, ext)

unfoldable pub trim_long_file_name : Text → ℕ → Text
unfolding split_last_dot trim_to_utf8_bytes utf8_byte_length
trim_long_file_name name max_bytes = elim (split_last_dot name) [
  | none ↦ trim_to_utf8_bytes name max_bytes
  | some (base, rest) ↦
      let ext = trim_to_utf8_bytes rest (min safe_extension_bytes (max 0 (max_bytes - 1))) in
      trim_to_utf8_bytes base (max_bytes - utf8_byte_length ext) ++ ext
]

abbrev pub max_bytes_allowed : ℕ → Bool
max_bytes_allowed max_bytes = leb 16 max_bytes && leb max_bytes safe_file_name_bytes

-- `_` for a leading dot, and before a name that Windows reserves.
unfoldable pub make_visible : Text → Text
make_visible [] = []
make_visible (c ∷ s) = if c == 46 then 95 ∷ s else c ∷ s

unfoldable pub unreserve : Text → Text
unfolding is_windows_reserved_name
unreserve name = if is_windows_reserved_name name then 95 ∷ name else name

module _ (is_format : ℕ → Bool) where
  -- UNSAFE_PORTABLE_FILE_NAME_CHARS
  unfoldable pub is_unsafe_portable : ℕ → Bool
  is_unsafe_portable c = is_control c || is_format c || is_unportable c

  -- UNSAFE_MANIFEST_FILE_NAME_CHARS
  unfoldable pub is_unsafe_in_manifest : ℕ → Bool
  is_unsafe_in_manifest c = is_control c || is_format c || is_path_separator c

  -- UNSAFE_MANIFEST_FILE_NAME_CHARS.test(name)
  unfoldable pub any_unsafe : List Text → Bool
  unfolding is_unsafe_in_manifest
  any_unsafe [] = false
  any_unsafe (char ∷ chars) = is_unsafe_in_manifest (code_point char) || any_unsafe chars

  abbrev pub characters_unsafe : Text → Bool
  characters_unsafe name = any_unsafe (characters name)

  unfoldable pub keep_portable : List Text → List Text
  unfolding is_unsafe_portable
  keep_portable [] = []
  keep_portable (char ∷ chars) =
      let rest = keep_portable chars in
      if is_unsafe_portable (code_point char) then rest else char ∷ rest

  unfoldable pub clean : Text → Text
  unfolding keep_portable drop_while_end trim join characters
  clean leaf = trim (drop_while_end is_dot_or_space (join (keep_portable (characters leaf))))

  unfoldable pub is_unusable : Text → Bool
  is_unusable cleaned = is_one_of cleaned ([] ∷ units "." ∷ units ".." ∷ [])

  -- `safeFileName` of a string; `none` is the error on a bound that is out of range.
  unfoldable pub safe_file_name : Text → ℕ → Option Text
  unfolding clean leaf_name is_unusable make_visible unreserve trim_long_file_name
  safe_file_name name max_bytes =
      let cleaned = clean (leaf_name name) in
      let safe = unreserve (make_visible cleaned) in
      if not (max_bytes_allowed max_bytes)
      then none
      else if is_unusable cleaned
      then some (units "file")
      else if ltb max_bytes (utf8_byte_length safe)
      then some (trim_long_file_name safe max_bytes)
      else some safe

-- The decimal digits of a number below 1000.
unfoldable pub decimal : ℕ → Text
decimal n =
    if ltb n 10
    then (48 + n) ∷ []
    else if ltb n 100
    then (48 + n / 10) ∷ (48 + n % 10) ∷ []
    else (48 + n / 100) ∷ (48 + n / 10 % 10) ∷ (48 + n % 10) ∷ []

abbrev pub collision_suffix : ℕ → Text
collision_suffix index = 32 ∷ 40 ∷ (decimal index ++ 41 ∷ [])

unfoldable pub safe_collision_file_name : Text → ℕ → ℕ → Option Text
unfolding split_last_dot trim_to_utf8_bytes utf8_byte_length decimal
safe_collision_file_name name index max_bytes =
    let suffix = collision_suffix index in
    let room = max_bytes - utf8_byte_length suffix in
    let named : Text = elim (split_last_dot name) [
      | none ↦ trim_to_utf8_bytes name (max 1 room) ++ suffix
      | some (base, rest) ↦
          let ext = trim_to_utf8_bytes rest (min safe_extension_bytes (max 0 (room - 1))) in
          trim_to_utf8_bytes base (max 1 (room - utf8_byte_length ext)) ++ (suffix ++ ext)
    ] in
    if not (max_bytes_allowed max_bytes)
    then none
    else if index == 0
    then (if ltb max_bytes (utf8_byte_length name) then none else some name)
    else if leb max_output_name_attempts index
    then none
    else some named
