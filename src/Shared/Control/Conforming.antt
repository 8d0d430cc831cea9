-- ===== src/Shared/Control/Conforming.antt =====
-- shared/transfer.ts: what a control message says that was accepted, without the tests of the parser.
use p2p_transfer.Base.{
  ℕ, ◌≤◌, ◌<◌, ◌≡◌, ◌⊎◌, ap, same_text_iff, Bool, true, false, not, ◌&&◌, leb, ◌==◌, Option, none,
  some, List, [], ◌∷◌, Text, All, length, nat, max_safe_integer, arith,
}
use p2p_transfer.Shared.Text.{characters, code_point, trim}
use p2p_transfer.Shared.FileNames.{
  is_control, is_path_separator, any_unsafe, is_unsafe_in_manifest, safe_file_name,
  safe_file_name_bytes,
}
use p2p_transfer.Shared.Limits.{max_file_name_chars, name_within_limits, is_some_of}
use p2p_transfer.Shared.Limits.Accepted.{
  IsAccepted, assert_file_within_limits-ok, assert_transfer_manifest_within_limits-IsAccepted,
}
use p2p_transfer.Shared.Json.{Value}
use p2p_transfer.Shared.Control.{
  ControlMessage, manifest, file_begin, ready, restart, file_end, file_ok, all_done, all_done_ok,
  abort, returned, offered_manifest, is_hex, all_hex, is_sha256, prefix_matches_offset,
  unsafe_characters, is_safe_reason, assert_control_message,
}
use p2p_transfer.Shared.Control.Printed.{IsValid, is_optional_sha256, is_optional_natural}
use p2p_transfer.Shared.Control.Accepted.{assert_control_message-IsValid}

-- A digit 0 to 9 or a letter a to f.
abbrev pub IsHexDigit : ℕ → Type 0
IsHexDigit c = ((48 ≤ c) × (c ≤ 57)) ⊎ ((97 ≤ c) × (c ≤ 102))

abbrev pub IsDigest : Text → Type 0
IsDigest s = (length s ≡ 64) × All IsHexDigit s

-- The offset at which a file goes on, and the digest of the bytes before it: together or not at all, but
-- that the digest of no bytes may be left out.
abbrev pub IsResumption : Option ℕ → Option Text → Type 0
IsResumption none none = Unit
IsResumption none (some prefix) = ⊥
IsResumption (some offset) none = offset ≡ 0
IsResumption (some offset) (some prefix) = (offset ≤ max_safe_integer) × IsDigest prefix

all_six :
    (a b c d e f : Bool)
    → (a && b && c && d && e && f) ≡ true
    → (a ≡ true) × (b ≡ true) × (c ≡ true) × (d ≡ true) × (e ≡ true) × (f ≡ true)
all_six a b c d e f h = ground (arith, h)

nonzero : (n : ℕ) → not (n == 0) ≡ true → 0 < n
nonzero n h = ground (arith, h)

at_most_1024 : (n : ℕ) → leb n 1024 ≡ true → n ≤ 1024
at_most_1024 n h = ground (arith, h)

not-true : (b : Bool) → not b ≡ true → b ≡ false
not-true b h = ground (arith, h)

is_hex-IsHexDigit : (c : ℕ) → is_hex c ≡ true → IsHexDigit c
is_hex-IsHexDigit c h = ground arith

all_hex-All : (s : Text) → all_hex s ≡ true → All IsHexDigit s
all_hex-All [] h = tt
all_hex-All (c ∷ s) h = (is_hex-IsHexDigit c (ground (arith, h)), all_hex-All s (ground (arith, h)))

is_sha256-IsDigest : (s : Text) → is_sha256 s ≡ true → IsDigest s
unfolding is_sha256
is_sha256-IsDigest s h = (ground (arith, h), all_hex-All s (ground (arith, h)))

ready-IsResumption :
    (offset : Option ℕ) (prefix : Option Text)
    → is_optional_natural offset ≡ true
    → is_optional_sha256 prefix ≡ true
    → prefix_matches_offset offset prefix ≡ true
    → IsResumption offset prefix
unfolding prefix_matches_offset
ready-IsResumption none none a b h = tt
ready-IsResumption none (some s) a b h = cc
ready-IsResumption (some n) none a b h = ground (arith, h)
ready-IsResumption (some n) (some s) a b h = (ground (arith, a), is_sha256-IsDigest s b)

module _ (is_format : ℕ → Bool) where
  -- A character that is neither a control character nor a format character.
  abbrev pub IsVisible : Text → Type 0
  IsVisible char = (is_control (code_point char) ≡ false) × (is_format (code_point char) ≡ false)

  -- A character of a file name: visible, and no slash or backslash.
  abbrev pub IsNameCharacter : Text → Type 0
  IsNameCharacter char = IsVisible char × (is_path_separator (code_point char) ≡ false)

  -- A file name of 1 to 1024 units, not all white space, of such characters, which the cleaning of names
  -- for the disk leaves as it is.
  abbrev pub IsFileName : Text → Type 0
  IsFileName name =
      (0 < length name)
      × (length name ≤ 1024)
      × (0 < length (trim name))
      × All IsNameCharacter (characters name)
      × (safe_file_name is_format name safe_file_name_bytes ≡ some name)

  abbrev pub IsConforming : ControlMessage → Type 0
  IsConforming (manifest m) = IsAccepted is_format (offered_manifest m)
  IsConforming (file_begin id name size) = (id ≤ 255) × IsFileName name × (size ≤ 1073741824)
  IsConforming (ready id offset prefix) = (id ≤ 255) × IsResumption offset prefix
  IsConforming (restart id) = id ≤ 255
  IsConforming (file_end id sha256) = (id ≤ 255) × IsDigest sha256
  IsConforming (file_ok id) = id ≤ 255
  IsConforming all_done = Unit
  IsConforming all_done_ok = Unit
  IsConforming (abort reason) = (length reason ≤ 1000) × All IsVisible (characters reason)

  characters-IsVisible :
      (chars : List Text) → unsafe_characters is_format chars ≡ false → All IsVisible chars
  unfolding unsafe_characters
  characters-IsVisible [] h = tt
  characters-IsVisible (char ∷ chars) h =
      ((ground (arith, h), ground (arith, h)), characters-IsVisible chars (ground (arith, h)))

  any_unsafe-All :
      (chars : List Text) → any_unsafe is_format chars ≡ false → All IsNameCharacter chars
  unfolding any_unsafe is_unsafe_in_manifest
  any_unsafe-All [] h = tt
  any_unsafe-All (char ∷ chars) h = (
    ((ground (arith, h), ground (arith, h)), ground (arith, h)),
    any_unsafe-All chars (ground (arith, h)),
  )

  is_some_of-some : (o : Option Text) (s : Text) → is_some_of o s ≡ true → o ≡ some s
  is_some_of-some none s h = cc
  is_some_of-some (some t) s h = ap some ((same_text_iff t s).0 h)

  name-IsFileName : (name : Text) → name_within_limits is_format name ≡ true → IsFileName name
  unfolding name_within_limits
  name-IsFileName name h =
      let (some_unit, few, visible, _, safe, same) =
        all_six (not (length name == 0)) (leb (length name) max_file_name_chars)
          (not (length (trim name) == 0)) _ (not (any_unsafe is_format (characters name)))
          (is_some_of (safe_file_name is_format name safe_file_name_bytes) name) h in
      (
        nonzero (length name) some_unit,
        at_most_1024 (length name) few,
        nonzero (length (trim name)) visible,
        any_unsafe-All (characters name) (not-true _ safe),
        is_some_of-some (safe_file_name is_format name safe_file_name_bytes) name same,
      )

  IsValid-IsConforming : (m : ControlMessage) → IsValid is_format m → IsConforming m
  unfolding is_safe_reason
  IsValid-IsConforming (manifest m) h =
      assert_transfer_manifest_within_limits-IsAccepted is_format (offered_manifest m) h
  IsValid-IsConforming (file_begin id name size) (a, h) =
      let (named, _, bounded) = assert_file_within_limits-ok is_format name (nat size) size h in
      (ground (arith, a), name-IsFileName name named, bounded)
  IsValid-IsConforming (ready id offset prefix) (a, b, c, d) =
      (ground (arith, a), ready-IsResumption offset prefix b c d)
  IsValid-IsConforming (restart id) h = ground (arith, h)
  IsValid-IsConforming (file_end id sha256) (a, b) =
      (ground (arith, a), is_sha256-IsDigest sha256 b)
  IsValid-IsConforming (file_ok id) h = ground (arith, h)
  IsValid-IsConforming all_done h = tt
  IsValid-IsConforming all_done_ok h = tt
  IsValid-IsConforming (abort reason) h =
      (ground (arith, h), characters-IsVisible (characters reason) (ground (arith, h)))

  -- What an accepted control message says: an identifier is at most 255; a manifest is counted, numbered,
  -- bounded and summed; a file that begins has a name that the disk takes as it is and at most 1 GiB; a digest has 64
  -- hexadecimal digits; an offset that is not 0 comes with the digest of the bytes before it, and without
  -- an offset no digest comes; the reason of an abort has at most 1000 units, and no control or format
  -- character.
  pub assert_control_message-IsConforming :
      (v : Value) (m : ControlMessage)
      → assert_control_message is_format v ≡ returned m
      → IsConforming m
  assert_control_message-IsConforming v m h =
      IsValid-IsConforming m (assert_control_message-IsValid is_format v m h)
