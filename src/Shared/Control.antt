-- ===== src/Shared/Control.antt =====
-- shared/transfer.ts: the control messages of a transfer, and the test of a value that was opened.
pub mod Entries
pub mod Printed
pub mod Accepted
pub mod Conforming
use p2p_transfer.Base.{
  ℕ, Bool, true, false, not, ◌&&◌, ◌||◌, Option, none, some, List, [], ◌∷◌, Text, same_text, ltb,
  leb, ◌==◌, if◌then◌else◌, length, Number, nat, safe_natural,
}
use p2p_transfer.Shared.Text.{characters, code_point}
use p2p_transfer.Shared.FileNames.{units, is_control}
use p2p_transfer.Shared.Messages.{FileManifest, FileManifestEntry}
use p2p_transfer.Shared.Limits.{
  LimitError, Result, ok, err, byte_id, max_files_per_session, max_mime_chars,
  assert_file_within_limits, assert_transfer_manifest_within_limits,
}
use p2p_transfer.Shared.Transfer.{TransferManifest}
use p2p_transfer.Shared.Json.{
  Json, string, Items, Fields, Value, values, is_object, own_data_value, has_only_keys, elements,
  text_of, number_of, is_undefined,
}

pub data ControlMessage : Type 0 where
  manifest : TransferManifest → ControlMessage
  file_begin : (id : ℕ) (name : Text) (size : ℕ) → ControlMessage
  ready : (id : ℕ) (offset : Option ℕ) (prefix_sha256 : Option Text) → ControlMessage
  restart : (id : ℕ) → ControlMessage
  file_end : (id : ℕ) (sha256 : Text) → ControlMessage
  file_ok : (id : ℕ) → ControlMessage
  all_done all_done_ok : ControlMessage
  abort : (reason : Text) → ControlMessage

-- The tags, the field `t`.
pub data ControlType : Type 0 where
  manifest_type file_begin_type ready_type restart_type file_end_type : ControlType
  file_ok_type all_done_type all_done_ok_type abort_type : ControlType

pub data ControlError : Type 0 where
  malformed_message unknown_type malformed_entry malformed_mime file_count : ControlError
  malformed : ControlType → ControlError
  outside_limits : LimitError → ControlError

pub data Checked {ℓ} (Found : Type ℓ) : Type ℓ where
  refused : ControlError → Checked Found
  returned : Found → Checked Found

infixl 5 ◌>>=◌
abbrev pub ◌>>=◌ {ℓ κ} :
    {Found : Type ℓ} {Next : Type κ} → Checked Found → (Found → Checked Next) → Checked Next
refused thrown >>= next = refused thrown
returned found >>= next = next found

infixl 5 ◌>>◌
abbrev pub ◌>>◌ {κ} : {Next : Type κ} → Checked (Unit {0}) → Checked Next → Checked Next
checked >> next = checked >>= (λ found. next)

abbrev pub require : Bool → ControlError → Checked (Unit {0})
require holds thrown = if holds then returned tt else refused thrown

-- The value of a field, with the error of the test that it fails.
abbrev pub field_of {ℓ} : {Found : Type ℓ} → Option Found → ControlError → Checked Found
field_of none thrown = refused thrown
field_of (some found) thrown = returned found

-- The error of a limit passes through.
abbrev pub limited {ℓ} : {Found : Type ℓ} → Result Found → Checked Found
limited (err thrown) = refused (ControlError.outside_limits thrown)
limited (ok found) = returned found

-- `isUint8`
abbrev pub uint8 : Value → Option ℕ
uint8 v = elim (number_of v) [ none ↦ none | some n ↦ byte_id n ]

-- `isSafeNonNegativeInteger`
abbrev pub natural : Value → Option ℕ
natural v = elim (number_of v) [ none ↦ none | some n ↦ safe_natural n ]

-- `isOptionalResumeOffset`
abbrev pub optional_natural : Value → Option (Option ℕ)
optional_natural none = some none
optional_natural (some v) = elim (natural (some v)) [ none ↦ none | some n ↦ some (some n) ]

abbrev pub is_hex : ℕ → Bool
is_hex c = (leb 97 c && leb c 102) || (leb 48 c && leb c 57)

abbrev pub all_hex : Text → Bool
all_hex [] = true
all_hex (c ∷ s) = is_hex c && all_hex s

-- /^[a-f0-9]{64}$/
unfoldable pub is_sha256 : Text → Bool
is_sha256 s = length s == 64 && all_hex s

abbrev pub sha256_text : Value → Option Text
sha256_text v = elim (text_of v) [ none ↦ none | some s ↦ if is_sha256 s then some s else none ]

-- `isOptionalSha256`
abbrev pub optional_sha256 : Value → Option (Option Text)
optional_sha256 none = some none
optional_sha256 (some v) = elim (sha256_text (some v)) [ none ↦ none | some s ↦ some (some s) ]

abbrev pub is_nothing {ℓ} : {A : Type ℓ} → Option A → Bool
is_nothing none = true
is_nothing (some a) = false

-- The tests of "ready" that relate the two options.
unfoldable pub prefix_matches_offset : Option ℕ → Option Text → Bool
prefix_matches_offset none prefix = is_nothing prefix
prefix_matches_offset (some n) prefix = not (ltb 0 n && is_nothing prefix)

abbrev pub max_abort_reason_chars : ℕ
max_abort_reason_chars = 1000

-- The constants of the module.
abbrev pub key_t : Text
key_t = units "t"

abbrev pub key_id : Text
key_id = units "id"

abbrev pub key_name : Text
key_name = units "name"

abbrev pub key_size : Text
key_size = units "size"

abbrev pub key_mime : Text
key_mime = units "mime"

abbrev pub key_offset : Text
key_offset = units "offset"

abbrev pub key_prefix : Text
key_prefix = units "prefixSha256"

abbrev pub key_sha256 : Text
key_sha256 = units "sha256"

abbrev pub key_files : Text
key_files = units "files"

abbrev pub key_total : Text
key_total = units "totalBytes"

abbrev pub key_reason : Text
key_reason = units "reason"

abbrev pub tag : ControlType → Text
tag manifest_type = units "manifest"
tag file_begin_type = units "file-begin"
tag ready_type = units "ready"
tag restart_type = units "restart"
tag file_end_type = units "file-end"
tag file_ok_type = units "file-ok"
tag all_done_type = units "all-done"
tag all_done_ok_type = units "all-done-ok"
tag abort_type = units "abort"

abbrev tag_among : Text → List ControlType → Option ControlType
tag_among s [] = none
tag_among s (t ∷ ts) = let rest = tag_among s ts in if same_text s (tag t) then some t else rest

-- The cases of the `switch`.
unfoldable pub control_type : Text → Option ControlType
control_type s = tag_among s (
    manifest_type ∷ file_begin_type ∷ file_ok_type ∷ ready_type ∷ restart_type ∷ file_end_type
    ∷ all_done_type ∷ all_done_ok_type ∷ abort_type ∷ [])

-- The tag of a value that is an object.
unfoldable pub type_of : Value → Checked ControlType
unfolding control_type
type_of value = do
  require (is_object value) ControlError.malformed_message
  name ← field_of (text_of (own_data_value value key_t)) ControlError.malformed_message
  field_of (control_type name) ControlError.unknown_type

-- `offset` and `mime` as the source reads them: absent, or a text of at most 255 units.
abbrev pub optional_mime : Value → Option (Option Text)
optional_mime none = some none
optional_mime (some v) = elim (text_of (some v)) [
  | none ↦ none
  | some s ↦ if leb (length s) max_mime_chars then some (some s) else none
]

-- One file of the loop of `assertTransferManifest`.
unfoldable pub manifest_entry : Json → Checked FileManifestEntry
manifest_entry file = do
  let v = some file
  let malformed = ControlError.malformed_entry
  require (is_object v) malformed
  require (has_only_keys v (key_id ∷ key_name ∷ key_size ∷ key_mime ∷ [])) malformed
  id ← field_of (uint8 (own_data_value v key_id)) malformed
  name ← field_of (text_of (own_data_value v key_name)) malformed
  size ← field_of (natural (own_data_value v key_size)) malformed
  mime ← field_of (optional_mime (own_data_value v key_mime)) ControlError.malformed_mime
  returned (record { id = some (nat id); name = name; size = nat size; mime = mime })

unfoldable pub manifest_entries : List Json → Checked (List FileManifestEntry)
unfolding manifest_entry
manifest_entries [] = returned []
manifest_entries (v ∷ vs) = do
  file ← manifest_entry v
  files ← manifest_entries vs
  returned (file ∷ files)

abbrev pub offered_manifest : TransferManifest → FileManifest
offered_manifest m = record {
  files = m.files;
  file_count = nat (length m.files);
  total_bytes = m.total_bytes;
}

module _ (is_format : ℕ → Bool) where
  -- UNSAFE_REASON_CHARS.test(value)
  unfoldable pub unsafe_characters : List Text → Bool
  unsafe_characters [] = false
  unsafe_characters (char ∷ chars) =
      is_control (code_point char) || is_format (code_point char) || unsafe_characters chars

  -- `isSafeReason`, of a string
  unfoldable pub is_safe_reason : Text → Bool
  is_safe_reason s = leb (length s) max_abort_reason_chars && not (unsafe_characters (characters s))

  abbrev pub safe_reason : Value → Option Text
  safe_reason v = elim (text_of v) [
    | none ↦ none
    | some s ↦ if is_safe_reason s then some s else none
  ]

  unfoldable pub assert_transfer_manifest : Value → Checked TransferManifest
  assert_transfer_manifest value = do
    let malformed = ControlError.malformed manifest_type
    require (has_only_keys value (key_t ∷ key_files ∷ key_total ∷ [])) malformed
    entries ← field_of (elements (own_data_value value key_files)) malformed
    total ← field_of (natural (own_data_value value key_total)) malformed
    require (leb 1 (length entries) && leb (length entries) max_files_per_session)
        ControlError.file_count
    files ← manifest_entries entries
    let found : TransferManifest = record { files = files; total_bytes = nat total }
    limited (assert_transfer_manifest_within_limits is_format (offered_manifest found))
    returned found

  -- The cases of the `switch` of `assertControlMessage`.
  unfoldable pub assert_fields : ControlType → Value → Checked ControlMessage
  assert_fields manifest_type v = do found ← assert_transfer_manifest v; returned (manifest found)
  assert_fields file_begin_type v = do
    let malformed = ControlError.malformed file_begin_type
    require (has_only_keys v (key_t ∷ key_id ∷ key_name ∷ key_size ∷ [])) malformed
    id ← field_of (uint8 (own_data_value v key_id)) malformed
    name ← field_of (text_of (own_data_value v key_name)) malformed
    size ← field_of (natural (own_data_value v key_size)) malformed
    within ← limited (assert_file_within_limits is_format name (nat size))
    returned (file_begin id name size)
  assert_fields file_ok_type v = do
    require (has_only_keys v (key_t ∷ key_id ∷ [])) (ControlError.malformed file_ok_type)
    id ← field_of (uint8 (own_data_value v key_id)) (ControlError.malformed file_ok_type)
    returned (file_ok id)
  assert_fields ready_type v = do
    let malformed = ControlError.malformed ready_type
    require (has_only_keys v (key_t ∷ key_id ∷ key_offset ∷ key_prefix ∷ [])) malformed
    id ← field_of (uint8 (own_data_value v key_id)) malformed
    offset ← field_of (optional_natural (own_data_value v key_offset)) malformed
    prefix ← field_of (optional_sha256 (own_data_value v key_prefix)) malformed
    require (prefix_matches_offset offset prefix) malformed
    returned (ready id offset prefix)
  assert_fields restart_type v = do
    require (has_only_keys v (key_t ∷ key_id ∷ [])) (ControlError.malformed restart_type)
    id ← field_of (uint8 (own_data_value v key_id)) (ControlError.malformed restart_type)
    returned (restart id)
  assert_fields file_end_type v = do
    let malformed = ControlError.malformed file_end_type
    require (has_only_keys v (key_t ∷ key_id ∷ key_sha256 ∷ [])) malformed
    id ← field_of (uint8 (own_data_value v key_id)) malformed
    sha256 ← field_of (sha256_text (own_data_value v key_sha256)) malformed
    returned (file_end id sha256)
  assert_fields all_done_type v = do
    require (has_only_keys v (key_t ∷ [])) (ControlError.malformed all_done_type)
    returned all_done
  assert_fields all_done_ok_type v = do
    require (has_only_keys v (key_t ∷ [])) (ControlError.malformed all_done_ok_type)
    returned all_done_ok
  assert_fields abort_type v = do
    let malformed = ControlError.malformed abort_type
    require (has_only_keys v (key_t ∷ key_reason ∷ [])) malformed
    reason ← field_of (safe_reason (own_data_value v key_reason)) malformed
    returned (abort reason)

  unfoldable pub assert_control_message : Value → Checked ControlMessage
  unfolding type_of assert_fields
  assert_control_message value = do type ← type_of value; assert_fields type value

-- The messages that a sender takes: `assertSenderControlMessage` returns them, and throws else.
unfoldable pub is_sender_control_message : ControlMessage → Bool
is_sender_control_message (ready id offset prefix) = true
is_sender_control_message (file_ok id) = true
is_sender_control_message all_done_ok = true
is_sender_control_message (abort reason) = true
is_sender_control_message _ = false

abbrev pub local_abort_message : Text
local_abort_message = units "Transfer aborted."

-- The reason of the caller does not reach the peer.
unfoldable pub abort_control_message : {Reason : Type 0} → Reason → ControlMessage
abort_control_message reason = abort local_abort_message
