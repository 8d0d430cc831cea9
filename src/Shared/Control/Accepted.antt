-- ===== src/Shared/Control/Accepted.antt =====
-- shared/transfer.ts: what a control message satisfies that was accepted.
use p2p_transfer.Base.{
  ℕ, ◌≡◌, refl, sym, ◌∙◌, ap, inl, inr, subst, Bool, true, false, ◌&&◌, leb, Option, none, some, [],
  ◌∷◌, Text, length, Number, nat, negative, inexact, safe_natural, max_safe_integer, arith,
  Option-cases,
}
use p2p_transfer.Shared.Limits.{
  Result, ok, err, byte_id, max_files_per_session, assert_file_within_limits,
  assert_transfer_manifest_within_limits,
}
use p2p_transfer.Shared.Limits.Accepted.{assert_file_within_limits-ok}
use p2p_transfer.Shared.Transfer.{TransferManifest}
use p2p_transfer.Shared.Json.{
  null, boolean, number, string, array, object, Value, own_data_value, has_only_keys, elements,
  text_of,
}
use p2p_transfer.Shared.Control.Printed.{IsValid, is_optional_sha256, is_optional_natural}
use p2p_transfer.Shared.Control.{
  ControlMessage, manifest, file_begin, ready, file_end, all_done, all_done_ok, ControlType,
  manifest_type, file_begin_type, ready_type, restart_type, file_end_type, file_ok_type,
  all_done_type, all_done_ok_type, abort_type, ControlError, Checked, refused, returned, ◌>>=◌,
  ◌>>◌, require, field_of, limited, uint8, natural, optional_natural, is_sha256, sha256_text,
  optional_sha256, prefix_matches_offset, key_t, key_id, key_name, key_size, key_offset, key_prefix,
  key_sha256, key_files, key_total, key_reason, type_of, manifest_entries, offered_manifest,
  is_safe_reason, safe_reason, assert_transfer_manifest, assert_fields, assert_control_message,
}

bind-returned {ℓ κ} :
    {A : Type ℓ} {B : Type κ} (m : Checked A) (f : A → Checked B) (b : B)
    → (m >>= f) ≡ returned b
    → (a : A) × (m ≡ returned a) × (f a ≡ returned b)
bind-returned (returned a) f b h = (a, refl, h)
bind-returned (refused e) f b h = ground arith

field-returned {ℓ κ} :
    {A : Type ℓ} {B : Type κ} (o : Option A) (e : ControlError) (f : A → Checked B) (b : B)
    → (field_of o e >>= f) ≡ returned b
    → (a : A) × (o ≡ some a) × (f a ≡ returned b)
field-returned none e f b h = ground arith
field-returned (some a) e f b h = (a, refl, h)

require-returned {κ} :
    {B : Type κ} (holds : Bool) (e : ControlError) (next : Checked B) (b : B)
    → (require holds e >> next) ≡ returned b
    → (holds ≡ true) × (next ≡ returned b)
require-returned true e next b h = (refl, h)
require-returned false e next b h = ground arith

limited-returned {ℓ} : {A : Type ℓ} (r : Result A) (a : A) → limited r ≡ returned a → r ≡ ok a
limited-returned (ok b) a h = ground arith
limited-returned (err e) a h = ground arith

-- What the fields give that are read.
byte-some : (x : Number) (n : ℕ) → byte_id x ≡ some n → leb n 255 ≡ true
byte-some (nat k) n h = ground arith
byte-some (negative k) n h = ground arith
byte-some (inexact k) n h = ground arith

uint8-some : (v : Value) (n : ℕ) → uint8 v ≡ some n → leb n 255 ≡ true
uint8-some none n h = ground arith
uint8-some (some (number x)) n h = byte-some x n h
uint8-some (some null) n h = ground arith
uint8-some (some (boolean b)) n h = ground arith
uint8-some (some (string s)) n h = ground arith
uint8-some (some (array vs)) n h = ground arith
uint8-some (some (object fs)) n h = ground arith

safe-some : (x : Number) (n : ℕ) → safe_natural x ≡ some n → leb n max_safe_integer ≡ true
safe-some (nat k) n h = ground arith
safe-some (negative k) n h = ground arith
safe-some (inexact k) n h = ground arith

natural-some : (v : Value) (n : ℕ) → natural v ≡ some n → leb n max_safe_integer ≡ true
natural-some none n h = ground arith
natural-some (some (number x)) n h = safe-some x n h
natural-some (some null) n h = ground arith
natural-some (some (boolean b)) n h = ground arith
natural-some (some (string s)) n h = ground arith
natural-some (some (array vs)) n h = ground arith
natural-some (some (object fs)) n h = ground arith

sha256-some : (v : Value) (s : Text) → sha256_text v ≡ some s → is_sha256 s ≡ true
sha256-some v s h = elim (Option-cases (text_of v)) [
  | inl e ↦ ground arith
  | inr (t, e) ↦ ground arith
]

optional-sha256 :
    (v : Value) (o : Option Text) → optional_sha256 v ≡ some o → is_optional_sha256 o ≡ true
optional-sha256 none o h = ground arith
optional-sha256 (some v) o h = elim (Option-cases (sha256_text (some v))) [
  | inl e ↦ ground arith
  | inr (s, e) ↦ ground (arith, sha256-some (some v) s e)
]

optional-natural :
    (v : Value) (o : Option ℕ) → optional_natural v ≡ some o → is_optional_natural o ≡ true
optional-natural none o h = ground arith
optional-natural (some v) o h = elim (Option-cases (natural (some v))) [
  | inl e ↦ ground arith
  | inr (n, e) ↦ ground (arith, natural-some (some v) n e)
]

nat_eq_of : {a b : ℕ} → nat a ≡ nat b → a ≡ b
nat_eq_of h = cc

returned_eq {ℓ} : {A : Type ℓ} {a b : A} → returned a ≡ returned b → a ≡ b
returned_eq h = cc

module _ (is_format : ℕ → Bool) where
  safe_reason-some :
      (v : Value) (s : Text) → safe_reason is_format v ≡ some s → is_safe_reason is_format s ≡ true
  safe_reason-some v s h = elim (Option-cases (text_of v)) [
    | inl e ↦ ground arith
    | inr (t, e) ↦ ground arith
  ]

  manifest-IsValid :
      (v : Value) (found : TransferManifest)
      → assert_transfer_manifest is_format v ≡ returned found
      → IsValid is_format (manifest found)
  unfolding assert_transfer_manifest
  manifest-IsValid v found h =
      let malformed = ControlError.malformed manifest_type in
      let (_, h1) =
        require-returned (has_only_keys v (key_t ∷ key_files ∷ key_total ∷ [])) malformed _ found
          h in
      let (entries, _, h2) =
        field-returned (elements (own_data_value v key_files)) malformed _ found h1 in
      let (total, _, h3) =
        field-returned (natural (own_data_value v key_total)) malformed _ found h2 in
      let (_, h4) =
        require-returned (leb 1 (length entries) && leb (length entries) max_files_per_session)
          ControlError.file_count _ found h3 in
      let (files, _, h5) = bind-returned (manifest_entries entries) _ found h4 in
      let made : TransferManifest = record { files = files; total_bytes = nat total } in
      let (u, within, eq) =
        bind-returned
          (limited (assert_transfer_manifest_within_limits is_format (offered_manifest made))) _
          found h5 in
      subst (λ n. IsValid is_format (manifest n)) {x = made} (returned_eq eq)
        (limited-returned _ u within)

  fields-IsValid :
      (type : ControlType) (v : Value) (m : ControlMessage)
      → assert_fields is_format type v ≡ returned m
      → IsValid is_format m
  unfolding assert_fields
  fields-IsValid restart_type v m h =
      let (_, h1) =
        require-returned (has_only_keys v (key_t ∷ key_id ∷ []))
          (ControlError.malformed restart_type) _ m h in
      let (id, found, eq) =
        field-returned (uint8 (own_data_value v key_id)) (ControlError.malformed restart_type) _ m
          h1 in
      subst (IsValid is_format) (returned_eq eq) (uint8-some (own_data_value v key_id) id found)
  fields-IsValid file_ok_type v m h =
      let (_, h1) =
        require-returned (has_only_keys v (key_t ∷ key_id ∷ []))
          (ControlError.malformed file_ok_type) _ m h in
      let (id, found, eq) =
        field-returned (uint8 (own_data_value v key_id)) (ControlError.malformed file_ok_type) _ m
          h1 in
      subst (IsValid is_format) (returned_eq eq) (uint8-some (own_data_value v key_id) id found)
  fields-IsValid file_end_type v m h =
      let (_, h1) =
        require-returned (has_only_keys v (key_t ∷ key_id ∷ key_sha256 ∷ []))
          (ControlError.malformed file_end_type) _ m h in
      let (id, found, h2) =
        field-returned (uint8 (own_data_value v key_id)) (ControlError.malformed file_end_type) _ m
          h1 in
      let (sha256, hashed, eq) =
        field-returned (sha256_text (own_data_value v key_sha256))
          (ControlError.malformed file_end_type) _ m h2 in
      subst (IsValid is_format) {x = file_end id sha256} (returned_eq eq) (
        uint8-some (own_data_value v key_id) id found,
        sha256-some (own_data_value v key_sha256) sha256 hashed,
      )
  fields-IsValid ready_type v m h =
      let (_, h1) =
        require-returned (has_only_keys v (key_t ∷ key_id ∷ key_offset ∷ key_prefix ∷ []))
          (ControlError.malformed ready_type) _ m h in
      let (id, found, h2) =
        field-returned (uint8 (own_data_value v key_id)) (ControlError.malformed ready_type) _ m
          h1 in
      let (offset, from, h3) =
        field-returned (optional_natural (own_data_value v key_offset))
          (ControlError.malformed ready_type) _ m h2 in
      let (prefix, hashed, h4) =
        field-returned (optional_sha256 (own_data_value v key_prefix))
          (ControlError.malformed ready_type) _ m h3 in
      let (matches, eq) =
        require-returned (prefix_matches_offset offset prefix) (ControlError.malformed ready_type) _
          m h4 in
      subst (IsValid is_format) {x = ready id offset prefix} (returned_eq eq) (
        uint8-some (own_data_value v key_id) id found,
        optional-natural (own_data_value v key_offset) offset from,
        optional-sha256 (own_data_value v key_prefix) prefix hashed,
        matches,
      )
  fields-IsValid all_done_type v m h =
      let (_, eq) =
        require-returned (has_only_keys v (key_t ∷ [])) (ControlError.malformed all_done_type) _ m
          h in
      subst (IsValid is_format) {x = all_done} (returned_eq eq) tt
  fields-IsValid all_done_ok_type v m h =
      let (_, eq) =
        require-returned (has_only_keys v (key_t ∷ [])) (ControlError.malformed all_done_ok_type) _
          m h in
      subst (IsValid is_format) {x = all_done_ok} (returned_eq eq) tt
  fields-IsValid abort_type v m h =
      let (_, h1) =
        require-returned (has_only_keys v (key_t ∷ key_reason ∷ []))
          (ControlError.malformed abort_type) _ m h in
      let (reason, safe, eq) =
        field-returned (safe_reason is_format (own_data_value v key_reason))
          (ControlError.malformed abort_type) _ m h1 in
      subst (IsValid is_format) (returned_eq eq)
        (safe_reason-some (own_data_value v key_reason) reason safe)
  fields-IsValid file_begin_type v m h =
      let (_, h1) =
        require-returned (has_only_keys v (key_t ∷ key_id ∷ key_name ∷ key_size ∷ []))
          (ControlError.malformed file_begin_type) _ m h in
      let (id, found, h2) =
        field-returned (uint8 (own_data_value v key_id)) (ControlError.malformed file_begin_type) _
          m h1 in
      let (name, _, h3) =
        field-returned (text_of (own_data_value v key_name))
          (ControlError.malformed file_begin_type) _ m h2 in
      let (size, _, h4) =
        field-returned (natural (own_data_value v key_size))
          (ControlError.malformed file_begin_type) _ m h3 in
      let (n, within, eq) =
        bind-returned (limited (assert_file_within_limits is_format name (nat size))) _ m h4 in
      let fits = limited-returned (assert_file_within_limits is_format name (nat size)) n within in
      let (_, same, _) = assert_file_within_limits-ok is_format name (nat size) n fits in
      subst (IsValid is_format) {x = file_begin id name size} (returned_eq eq)
        (uint8-some (own_data_value v key_id) id found, fits ∙ ap ok (sym (nat_eq_of same)))
  fields-IsValid manifest_type v m h =
      let (found, made, eq) = bind-returned (assert_transfer_manifest is_format v) _ m h in
      subst (IsValid is_format) {x = manifest found} (returned_eq eq)
        (manifest-IsValid v found made)

  -- A control message that is accepted from a value is valid: identifiers are at most 255, a file and
  -- a manifest are within the limits, a digest has 64 hexadecimal digits, an offset comes with a digest
  -- if it is not 0 and without an offset no digest comes, and the reason of an abort is short and safe.
  pub assert_control_message-IsValid :
      (v : Value) (m : ControlMessage)
      → assert_control_message is_format v ≡ returned m
      → IsValid is_format m
  unfolding assert_control_message
  assert_control_message-IsValid v m h =
      let (type, _, fields) = bind-returned (type_of v) _ m h in fields-IsValid type v m fields
