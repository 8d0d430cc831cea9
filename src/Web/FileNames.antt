-- ===== src/Web/FileNames.antt =====
-- web/file-names.ts: the names of the files that the browser writes. The random token is an
-- argument, and `none` is an error.
pub mod Bounds
use p2p_transfer.Base.{
  ℕ, ◌+◌, ◌-◌, min, max, Bool, true, false, not, ◌&&◌, ◌||◌, Option, none, some, List, [], ◌∷◌,
  ◌++◌, reverse, Text, same_text, ltb, leb, ◌==◌, if◌then◌else◌, length, take, drop,
}
use p2p_transfer.Shared.Text.{utf8_byte_length, trim_to_utf8_bytes}
use p2p_transfer.Shared.FileNames.{
  units, before, collision_suffix, max_output_name_attempts, safe_file_name,
}

abbrev pub max_browser_output_name_bytes : ℕ
max_browser_output_name_bytes = 200

-- `.part`
abbrev pub browser_part_suffix : Text
browser_part_suffix = units ".part"

abbrev pub max_browser_final_name_bytes : ℕ
max_browser_final_name_bytes = 195

abbrev pub max_browser_output_extension_bytes : ℕ
max_browser_output_extension_bytes = 32

abbrev pub is_hex : ℕ → Bool
is_hex c = (leb 97 c && leb c 102) || (leb 48 c && leb c 57)

abbrev pub all_hex : Text → Bool
all_hex [] = true
all_hex (c ∷ s) = is_hex c && all_hex s

-- /^[a-f0-9]{32}$/
unfoldable pub is_token : Text → Bool
is_token token = length token == 32 && all_hex token

-- ` (ff-${token})`
abbrev pub random_suffix : Text → Text
random_suffix token = units " (ff-" ++ token ++ units ")"

-- The parts of a name before its last dot and from it on, the name and nothing when no dot but
-- the first unit is there.
unfoldable pub split_extension : Text → Text × Text
split_extension name =
    let tail = before (λ c. c == 46) (reverse name) in
    let dot = length name - length tail - 1 in
    if length tail == length name || dot == 0 then (name, []) else (take dot name, drop dot name)

-- The extension and the base trimmed around what comes between them.
unfoldable pub bounded_name : Text → Text → Text → ℕ → Text
bounded_name base middle ext max_bytes =
    let room = max_bytes - utf8_byte_length middle in
    let short_ext =
      trim_to_utf8_bytes ext (min max_browser_output_extension_bytes (max 0 (room - 1))) in
    let short_base = trim_to_utf8_bytes base (max 1 (room - utf8_byte_length short_ext)) in
    short_base ++ middle ++ short_ext

unfoldable pub randomized_browser_output_name : (ℕ → Bool) → Text → Text → Option Text
randomized_browser_output_name is_format name token =
    let named : Option Text = elim (safe_file_name is_format name max_browser_final_name_bytes) [
      | none ↦ none
      | some sanitized ↦
          let parts = split_extension sanitized in
          some (bounded_name parts.0 (random_suffix token) parts.1 max_browser_final_name_bytes)
    ] in
    if is_token token then named else none

unfoldable pub opaque_browser_output_name : Text → Option Text
opaque_browser_output_name token = if is_token token then some (units "ff-" ++ token) else none

unfoldable pub browser_part_name : Text → Option Text
browser_part_name final_name =
    if ltb max_browser_final_name_bytes (utf8_byte_length final_name)
    then none
    else some (final_name ++ browser_part_suffix)

unfoldable pub opaque_browser_part_name : Text → Option Text
opaque_browser_part_name token =
    if is_token token then some (units "ff-" ++ token ++ browser_part_suffix) else none

-- OPAQUE_PART_NAME
unfoldable pub is_opaque_browser_part_name : Text → Bool
is_opaque_browser_part_name name =
    same_text (take 3 name) (units "ff-")
    && is_token (take 32 (drop 3 name))
    && same_text (drop 35 name) browser_part_suffix

unfoldable pub bounded_existing_name : Text → ℕ → Option Text
bounded_existing_name name max_bytes =
    if ltb max_bytes (utf8_byte_length name) then none else some name

unfoldable pub bounded_collision_name : Text → Text → ℕ → Text
bounded_collision_name name collision max_bytes =
    let parts = split_extension name in bounded_name parts.0 collision parts.1 max_bytes

-- Whether a text is ` (ff-…)` with a token.
unfoldable pub is_random_suffix : Text → Bool
is_random_suffix s =
    same_text (take 5 s) (units " (ff-")
    && is_token (take 32 (drop 5 s))
    && same_text (drop 37 s) (units ")")

abbrev pub is_line_terminator : ℕ → Bool
is_line_terminator c = c == 10 || c == 13 || c == 0x2028 || c == 0x2029

abbrev pub one_line : Text → Bool
one_line [] = true
one_line (c ∷ s) = not (is_line_terminator c) && one_line s

-- A text as a base of one line and a random suffix.
unfoldable pub split_random_suffix : Text → Option (Text × Text)
split_random_suffix s =
    let base = take (length s - 38) s in
    let suffix = drop (length s - 38) s in
    if is_random_suffix suffix && one_line base then some (base, suffix) else none

-- RANDOM_SUFFIX: the base, the suffix and the extension. The base is as long as it can be, so the
-- end of the name is tried before the last dot.
unfoldable pub match_random_suffix : Text → Option (Text × Text × Text)
match_random_suffix name =
    let tail = before (λ c. c == 46) (reverse name) in
    let dot = length name - length tail - 1 in
    let extended : Option (Text × Text × Text) = elim (split_random_suffix (take dot name)) [
      | none ↦ none
      | some (base, suffix) ↦ some (base, suffix, drop dot name)
    ] in
    elim (split_random_suffix name) [
      | some (base, suffix) ↦ some (base, suffix, [])
      | none ↦ if length tail == length name then none else extended
    ]

-- The bytes are counted with the two parts between base and extension apart.
unfoldable pub collide_random : Text → Text → Text → Text → Text
collide_random base suffix ext collision =
    let room =
      max_browser_final_name_bytes - utf8_byte_length suffix - utf8_byte_length collision in
    let short_ext =
      trim_to_utf8_bytes ext (min max_browser_output_extension_bytes (max 0 (room - 1))) in
    let short_base = trim_to_utf8_bytes base (max 1 (room - utf8_byte_length short_ext)) in
    short_base ++ suffix ++ collision ++ short_ext

unfoldable pub browser_final_candidate_name : Text → ℕ → Option Text
browser_final_candidate_name name index =
    let collided : Text = elim (match_random_suffix name) [
      | none ↦ bounded_collision_name name (collision_suffix index) max_browser_final_name_bytes
      | some (base, suffix, ext) ↦ collide_random base suffix ext (collision_suffix index)
    ] in
    if leb max_output_name_attempts index
    then none
    else if index == 0
    then bounded_existing_name name max_browser_final_name_bytes
    else some collided

unfoldable pub browser_part_candidate_name : Text → ℕ → Option Text
browser_part_candidate_name name index =
    if leb max_output_name_attempts index
    then none
    else if index == 0
    then bounded_existing_name name max_browser_output_name_bytes
    else some (bounded_collision_name name (collision_suffix index) max_browser_output_name_bytes)
