-- ===== src/Shared/Control/Printed.antt =====
-- shared/transfer.ts: the JSON value of a control message, and what the other side reads of it.
use p2p_transfer.Base.{
  ℕ, ◌≡◌, refl, sym, subst, Bool, true, leb, Option, none, some, List, Text, nat, max_safe_integer,
  arith,
}
use p2p_transfer.Shared.Messages.{FileManifestEntry}
use p2p_transfer.Shared.Limits.{
  ok, assert_file_within_limits, assert_transfer_manifest_within_limits,
}
use p2p_transfer.Shared.Limits.Accepted.{assert_file_within_limits-ok}
use p2p_transfer.Shared.Transfer.{TransferManifest}
use p2p_transfer.Shared.Json.{number, string, array, object, Fields, no_fields, field, Value}
use p2p_transfer.Shared.Control.Entries.{
  with_number, with_text, entry_values, Entries-values, length-values, IsPrintable,
  within_limits-IsPrintable,
}
use p2p_transfer.Shared.Control.{
  ControlMessage, manifest, file_begin, ready, restart, file_end, file_ok, all_done, all_done_ok,
  abort, ControlType, manifest_type, file_begin_type, ready_type, restart_type, file_end_type,
  file_ok_type, all_done_type, all_done_ok_type, abort_type, returned, field_of, is_sha256,
  prefix_matches_offset, key_t, key_id, key_name, key_size, key_offset, key_prefix, key_sha256,
  key_files, key_total, key_reason, tag, control_type, type_of, offered_manifest, is_safe_reason,
  assert_transfer_manifest, assert_fields, assert_control_message,
}

abbrev pub fields_of : ControlMessage → Fields
fields_of (manifest m) =
    field key_files (array (entry_values m.files))
      (field key_total (number m.total_bytes) no_fields)
fields_of (file_begin id name size) =
    field key_id (number (nat id))
      (field key_name (string name) (field key_size (number (nat size)) no_fields))
fields_of (ready id offset prefix) =
    field key_id (number (nat id))
      (with_number key_offset offset (with_text key_prefix prefix no_fields))
fields_of (restart id) = field key_id (number (nat id)) no_fields
fields_of (file_end id sha256) =
    field key_id (number (nat id)) (field key_sha256 (string sha256) no_fields)
fields_of (file_ok id) = field key_id (number (nat id)) no_fields
fields_of all_done = no_fields
fields_of all_done_ok = no_fields
fields_of (abort reason) = field key_reason (string reason) no_fields

abbrev pub type_tag : ControlMessage → ControlType
type_tag (manifest m) = manifest_type
type_tag (file_begin id name size) = file_begin_type
type_tag (ready id offset prefix) = ready_type
type_tag (restart id) = restart_type
type_tag (file_end id sha256) = file_end_type
type_tag (file_ok id) = file_ok_type
type_tag all_done = all_done_type
type_tag all_done_ok = all_done_ok_type
type_tag (abort reason) = abort_type

-- The object that the sealing of a message prints.
unfoldable pub value_of : ControlMessage → Value
value_of m = some (object (field key_t (string (tag (type_tag m))) (fields_of m)))

type_of-value_of : (m : ControlMessage) → type_of (value_of m) ≡ returned (type_tag m)
unfolding type_of control_type value_of
type_of-value_of (manifest m) = refl
type_of-value_of (file_begin id name size) = refl
type_of-value_of (ready id offset prefix) = refl
type_of-value_of (restart id) = refl
type_of-value_of (file_end id sha256) = refl
type_of-value_of (file_ok id) = refl
type_of-value_of all_done = refl
type_of-value_of all_done_ok = refl
type_of-value_of (abort reason) = refl

abbrev pub is_optional_sha256 : Option Text → Bool
is_optional_sha256 none = true
is_optional_sha256 (some s) = is_sha256 s

abbrev pub is_optional_natural : Option ℕ → Bool
is_optional_natural none = true
is_optional_natural (some n) = leb n max_safe_integer

module _ (is_format : ℕ → Bool) where
  -- What a control message has to be.
  abbrev pub IsValid : ControlMessage → Type 0
  IsValid (manifest m) =
      assert_transfer_manifest_within_limits is_format (offered_manifest m) ≡ ok tt
  IsValid (file_begin id name size) =
      (leb id 255 ≡ true) × (assert_file_within_limits is_format name (nat size) ≡ ok size)
  IsValid (ready id offset prefix) =
      (leb id 255 ≡ true)
      × (is_optional_natural offset ≡ true)
      × (is_optional_sha256 prefix ≡ true)
      × (prefix_matches_offset offset prefix ≡ true)
  IsValid (restart id) = leb id 255 ≡ true
  IsValid (file_end id sha256) = (leb id 255 ≡ true) × (is_sha256 sha256 ≡ true)
  IsValid (file_ok id) = leb id 255 ≡ true
  IsValid all_done = Unit
  IsValid all_done_ok = Unit
  IsValid (abort reason) = is_safe_reason is_format reason ≡ true

  fields-ready :
      (id : ℕ) (offset : Option ℕ) (prefix : Option Text)
      → IsValid (ready id offset prefix)
      → assert_fields is_format ready_type (value_of (ready id offset prefix))
        ≡ returned (ready id offset prefix)
  unfolding value_of assert_fields
  fields-ready id none none (a, b, c, d) = rw a (rw d refl)
  fields-ready id none (some s) (a, b, c, d) = rw a (rw (field_of, c) (rw d refl))
  fields-ready id (some n) none (a, b, c, d) = rw a (rw (field_of, b) (rw d refl))
  fields-ready id (some n) (some s) (a, b, c, d) =
      rw a (rw (field_of, b) (rw (field_of, c) (rw d refl)))

  fields-file_begin :
      (id : ℕ) (name : Text) (size : ℕ)
      → IsValid (file_begin id name size)
      → assert_fields is_format file_begin_type (value_of (file_begin id name size))
        ≡ returned (file_begin id name size)
  unfolding value_of assert_fields
  fields-file_begin id name size (a, b) =
      let (_, _, bounded) = assert_file_within_limits-ok is_format name (nat size) size b in
      let safe : leb size max_safe_integer ≡ true = ground (arith, bounded) in
      rw a (rw (field_of, safe) (rw b refl))

  manifest-value :
      (fs : List FileManifestEntry) (total : ℕ)
      → let m : TransferManifest = record { files = fs; total_bytes = nat total } in
        IsPrintable is_format (offered_manifest m)
        → leb total max_safe_integer ≡ true
        → IsValid (manifest m)
        → assert_transfer_manifest is_format (value_of (manifest m)) ≡ returned m
  unfolding value_of assert_transfer_manifest
  manifest-value fs total p safe h =
      rw safe (rw (length-values fs) (rw p.counted (rw (Entries-values p.entries) (rw h refl))))

  manifest_of :
      (m : TransferManifest)
      → IsValid (manifest m)
      → assert_transfer_manifest is_format (value_of (manifest m)) ≡ returned m
  manifest_of m h =
      let p = within_limits-IsPrintable is_format (offered_manifest m) h in
      let same : m ≡ record { files = m.files; total_bytes = nat p.total } =
        λ i. record { files = m.files; total_bytes = p.summed i } in
      subst (λ n. assert_transfer_manifest is_format (value_of (manifest n)) ≡ returned n)
        (sym same)
        (manifest-value m.files p.total
          (subst (λ n. IsPrintable is_format (offered_manifest n)) same p) p.safe
          (subst (λ n. IsValid (manifest n)) same h))

  fields-value :
      (m : ControlMessage)
      → IsValid m
      → assert_fields is_format (type_tag m) (value_of m) ≡ returned m
  unfolding value_of assert_fields
  fields-value (manifest m) h = rw (manifest_of m h) refl
  fields-value (file_begin id name size) h = fields-file_begin id name size h
  fields-value (ready id offset prefix) h = fields-ready id offset prefix h
  fields-value (restart id) h = rw h refl
  fields-value (file_end id sha256) (a, b) = rw a (rw b refl)
  fields-value (file_ok id) h = rw h refl
  fields-value all_done h = refl
  fields-value all_done_ok h = refl
  fields-value (abort reason) h = rw h refl

  -- A valid control message that is printed as the JSON value of its fields is accepted, and reads
  -- back as the same message.
  pub assert_control_message-value_of :
      (m : ControlMessage) → IsValid m → assert_control_message is_format (value_of m) ≡ returned m
  unfolding assert_control_message
  assert_control_message-value_of m h = rw (type_of-value_of m) (fields-value m h)
