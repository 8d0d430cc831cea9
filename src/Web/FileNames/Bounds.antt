-- ===== src/Web/FileNames/Bounds.antt =====
-- web/file-names.ts: the names fit the bytes that are reserved for them.
use p2p_transfer.Base.{
  ℕ, ◌+◌, ◌-◌, ◌*◌, ◌≤◌, ◌≡◌, min, max, none, some, [], ◌∷◌, ◌++◌, Text, ltb, leb, ◌==◌,
  if◌then◌else◌, arith, length, length-append,
}
use p2p_transfer.Shared.Text.{utf8_byte_length, trim_to_utf8_bytes}
use p2p_transfer.Shared.Text.Lengths.{
  utf8_byte_length-append, utf8_byte_length-cons, unit_bytes-le, trim_to_utf8_bytes-le,
}
use p2p_transfer.Shared.FileNames.{decimal, collision_suffix, max_output_name_attempts}
use p2p_transfer.Web.FileNames.{
  max_browser_output_name_bytes, max_browser_output_extension_bytes, split_extension, bounded_name,
  bounded_existing_name, bounded_collision_name, browser_part_candidate_name,
}

le_trans : {a b c : ℕ} → a ≤ b → b ≤ c → a ≤ c
le_trans h k = omega (arith, h, k)

utf8_three :
    (a b c : Text)
    → utf8_byte_length (a ++ b ++ c)
      ≤ utf8_byte_length a + (utf8_byte_length b + utf8_byte_length c)
utf8_three a b c = omega (arith, utf8_byte_length-append (a ++ b) c, utf8_byte_length-append a b)

parts_fit :
    (m x e b : ℕ)
    → m + 33 ≤ x
    → e ≤ min max_browser_output_extension_bytes (max 0 (x - m - 1))
    → b ≤ max 1 (x - m - e)
    → b + (m + e) ≤ x
parts_fit m x e b h k l = omega arith

-- A trimmed base and extension around a middle that leaves room for one byte more than the longest
-- extension.
bounded_name-le :
    (base middle ext : Text) (max_bytes : ℕ)
    → utf8_byte_length middle + 33 ≤ max_bytes
    → utf8_byte_length (bounded_name base middle ext max_bytes) ≤ max_bytes
unfolding bounded_name
bounded_name-le base middle ext max_bytes h =
    let room = max_bytes - utf8_byte_length middle in
    let short_ext =
      trim_to_utf8_bytes ext (min max_browser_output_extension_bytes (max 0 (room - 1))) in
    let short_base = trim_to_utf8_bytes base (max 1 (room - utf8_byte_length short_ext)) in
    le_trans (utf8_three short_base middle short_ext) (
      parts_fit (utf8_byte_length middle) max_bytes (utf8_byte_length short_ext)
        (utf8_byte_length short_base) h
        (trim_to_utf8_bytes-le ext (min max_browser_output_extension_bytes (max 0 (room - 1))))
        (trim_to_utf8_bytes-le base (max 1 (room - utf8_byte_length short_ext))))

units-le : (s : Text) → utf8_byte_length s ≤ 3 * length s
unfolding utf8_byte_length
units-le [] = omega arith
units-le (c ∷ s) = omega (arith, utf8_byte_length-cons c s, unit_bytes-le c, units-le s)

length-decimal-le : (n : ℕ) → length (decimal n) ≤ 3
unfolding decimal
length-decimal-le n = ground arith

collision_suffix-le : (index : ℕ) → utf8_byte_length (collision_suffix index) ≤ 18
collision_suffix-le index = omega (
  arith,
  units-le (collision_suffix index),
  length-append (decimal index) (41 ∷ []),
  length-decimal-le index,
)

part_case :
    (index : ℕ) (name made out : Text)
    → utf8_byte_length made ≤ max_browser_output_name_bytes
    → (if leb max_output_name_attempts index
        then none
        else if index == 0
        then (if ltb max_browser_output_name_bytes (utf8_byte_length name) then none else some name)
        else some made)
      ≡ some out
    → utf8_byte_length out ≤ max_browser_output_name_bytes
part_case index name made out h k = ground arith

-- Every name of a partial file that the browser tries takes at most 200 bytes.
pub browser_part_candidate_name-le :
    (name out : Text) (index : ℕ)
    → browser_part_candidate_name name index ≡ some out
    → utf8_byte_length out ≤ max_browser_output_name_bytes
unfolding browser_part_candidate_name bounded_existing_name bounded_collision_name
browser_part_candidate_name-le name out index h =
    let parts = split_extension name in
    let collided =
      bounded_name-le parts.0 (collision_suffix index) parts.1 max_browser_output_name_bytes
        (omega (arith, collision_suffix-le index)) in
    part_case index name _ out collided h
