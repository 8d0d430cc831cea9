-- ===== src/Tests/Parsing.antt =====
-- Runs of the theorems on JSON values and base64 texts.
use p2p_transfer.Base.{
  ℕ, ◌≡◌, ◌↔◌, refl, Bool, true, false, none, some, List, [], ◌∷◌, Text, nat, length, All, zero,
  suc,
}
use p2p_transfer.Shared.FileNames.{units}
use p2p_transfer.Shared.Base64.{is_base64_encoded_bytes}
use p2p_transfer.Shared.Base64.Encoding.{encode, IsByte}
use p2p_transfer.Shared.Base64.Canonical.{is_base64_encoded_bytes-encode}
use p2p_transfer.Shared.Json.{
  Value, object, field, no_fields, string, number, Json, array, item, no_items,
}
use p2p_transfer.Shared.Protocol.{
  is_client_message, client_fields, client_type, is_string, is_session_id,
  is_non_empty_byte_bounded, is_manifest, is_counted, manifest_files, is_manifest_file,
  is_safe_manifest_file_name, is_safe_bounded, add_id,
}
use p2p_transfer.Shared.Messages.{FileManifest}
use p2p_transfer.Shared.Limits.{assert_manifest_within_limits, ok}
use p2p_transfer.Shared.FileNames.{safe_file_name}
use p2p_transfer.Shared.Control.{unsafe_characters}
use p2p_transfer.Shared.Text.{characters, trim}
use p2p_transfer.Shared.Protocol.Allowed.{names_portable, is_manifest-assert_manifest_within_limits}
use p2p_transfer.Shared.Protocol.Reading.{read_client_message, read_manifest, read_entries}
use p2p_transfer.Shared.Protocol.Typed.{IsRead, is_client_message-IsRead}
use p2p_transfer.Shared.Text.{utf8_byte_length}
use p2p_transfer.Shared.Control.{
  ControlMessage, ready, returned, assert_control_message, is_sha256, prefix_matches_offset,
}
use p2p_transfer.Shared.Control.Printed.{value_of, IsValid, assert_control_message-value_of}
use p2p_transfer.Shared.Control.Conforming.{IsConforming, assert_control_message-IsConforming}

abbrev no_format : ℕ → Bool
no_format c = false

abbrev repeated : ℕ → ℕ → Text
repeated zero c = []
repeated (suc n) c = c ∷ repeated n c

is_base64_encoded_bytes-encode_example :
    (is_base64_encoded_bytes (units "TWE=") 2 ≡ true)
    ↔ ((bytes : List ℕ) × (length bytes ≡ 2) × All IsByte bytes × (encode bytes ≡ units "TWE="))
is_base64_encoded_bytes-encode_example = is_base64_encoded_bytes-encode (units "TWE=") 2

abbrev resumed : ControlMessage
resumed = ready 3 (some 16384) (some (repeated 64 97))

resumed-IsValid : IsValid no_format resumed
unfolding is_sha256 prefix_matches_offset
resumed-IsValid = (refl, refl, refl, refl)

assert_control_message-value_of_example :
    assert_control_message no_format (value_of resumed) ≡ returned resumed
assert_control_message-value_of_example =
    assert_control_message-value_of no_format resumed resumed-IsValid

assert_control_message-IsConforming_example : IsConforming no_format resumed
assert_control_message-IsConforming_example =
    assert_control_message-IsConforming no_format (value_of resumed) resumed
      (assert_control_message-value_of no_format resumed resumed-IsValid)

abbrev shared : Value
shared = some (
    object (
      field (units "type") (string (units "pake")) (
        field (units "sid") (string (units "a-1"))
          (field (units "data") (string (units "share")) no_fields))))

shared_accepted : is_client_message no_format shared ≡ true
unfolding is_client_message client_fields client_type is_string is_session_id
    is_non_empty_byte_bounded utf8_byte_length
shared_accepted = refl

is_client_message-IsRead_example : IsRead no_format length (read_client_message length shared)
is_client_message-IsRead_example = is_client_message-IsRead no_format length shared shared_accepted

abbrev one_entry : Json
one_entry = object (
    field (units "id") (number (nat 0)) (
      field (units "name") (string (units "a.txt"))
        (field (units "size") (number (nat 7)) no_fields)))

abbrev listed : Value
listed = some (
    object (
      field (units "files") (array (item one_entry no_items)) (
        field (units "fileCount") (number (nat 1))
          (field (units "totalBytes") (number (nat 7)) no_fields))))

abbrev listed_manifest : FileManifest
listed_manifest = record {
  files = (record { id = some (nat 0); name = units "a.txt"; size = nat 7; mime = none }) ∷ [];
  file_count = nat 1;
  total_bytes = nat 7;
}

listed_accepted : is_manifest no_format listed ≡ true
unfolding is_manifest is_counted manifest_files is_manifest_file is_safe_manifest_file_name
    is_safe_bounded unsafe_characters characters trim add_id is_string
listed_accepted = refl

listed_read : read_manifest listed ≡ some listed_manifest
unfolding read_manifest read_entries
listed_read = refl

listed_portable : names_portable no_format listed_manifest.files ≡ true
unfolding names_portable safe_file_name
listed_portable = refl

is_manifest-assert_manifest_within_limits_example :
    assert_manifest_within_limits no_format listed_manifest ≡ ok tt
is_manifest-assert_manifest_within_limits_example =
    is_manifest-assert_manifest_within_limits no_format listed listed_manifest listed_accepted
      listed_read listed_portable
