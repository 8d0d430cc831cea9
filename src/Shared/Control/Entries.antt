-- ===== src/Shared/Control/Entries.antt =====
-- shared/transfer.ts: the files of a manifest as JSON values, and what the other side reads of them.
use p2p_transfer.Base.{
  ℕ, suc, ◌+◌, ◌≤◌, ◌≡◌, refl, sym, ap, subst, Bool, true, ◌&&◌, leb, Option, none, some, List, [],
  ◌∷◌, Text, length, Number, nat, negative, inexact, safe_natural, max_safe_integer, arith,
}
use p2p_transfer.Shared.Messages.{FileManifest, FileManifestEntry}
use p2p_transfer.Shared.Limits.{
  LimitError, ok, max_files_per_session, max_mime_chars, assert_file_within_limits,
  assert_transfer_manifest_within_limits, mime_within_limits,
}
use p2p_transfer.Shared.Limits.{
  guard, check_id, add_size, check_files, check_total, check_count, assert_manifest_within_limits,
}
use p2p_transfer.Shared.Limits.Accepted.{
  bind-ok, guard-ok, AreAcceptedFiles, IsAcceptedFile, bytes_of,
  assert_transfer_manifest_within_limits-IsAccepted,
}
use p2p_transfer.Shared.Json.{
  Json, number, string, object, Items, no_items, item, Fields, no_fields, field, values,
}
use p2p_transfer.Shared.Control.{
  returned, field_of, key_id, key_name, key_size, key_mime, manifest_entry, manifest_entries,
}

-- An optional last field; JSON.stringify leaves out what is undefined.
abbrev pub with_number : Text → Option ℕ → Fields → Fields
with_number key none fs = fs
with_number key (some n) fs = field key (number (nat n)) fs

abbrev pub with_text : Text → Option Text → Fields → Fields
with_text key none fs = fs
with_text key (some s) fs = field key (string s) fs

abbrev number_field : Text → Option Number → Fields → Fields
number_field key none fs = fs
number_field key (some n) fs = field key (number n) fs

abbrev pub entry_value : FileManifestEntry → Json
entry_value f = object (
    number_field key_id f.id (
      field key_name (string f.name)
        (field key_size (number f.size) (with_text key_mime f.mime no_fields))))

abbrev pub entry_values : List FileManifestEntry → Items
entry_values [] = no_items
entry_values (f ∷ fs) = item (entry_value f) (entry_values fs)

-- A file whose numbers and type of content the loop over the files lets through.
entry-value :
    (id : ℕ) (name : Text) (size : ℕ) (mime : Option Text)
    → leb id 255 ≡ true
    → leb size max_safe_integer ≡ true
    → mime_within_limits mime ≡ true
    → let f : FileManifestEntry = record {
      id = some (nat id);
      name = name;
      size = nat size;
      mime = mime;
    } in
      manifest_entry (entry_value f) ≡ returned f
unfolding manifest_entry mime_within_limits
entry-value id name size none a b c = rw a (rw (field_of, b) refl)
entry-value id name size (some s) a b c =
    let short : leb (length s) max_mime_chars ≡ true = ground (arith, c) in
    rw a (rw (field_of, b) (rw (field_of, short) refl))

-- The files of a manifest, each with its number, a size and a type of content.
pub data Entries : List FileManifestEntry → Type 0 where
  empty : Entries []
  entry :
      {id : ℕ} {name : Text} {size : ℕ} {mime : Option Text} {rest : List FileManifestEntry}
      → leb id 255 ≡ true
      → leb size max_safe_integer ≡ true
      → mime_within_limits mime ≡ true
      → Entries rest
      → Entries ((record { id = some (nat id); name = name; size = nat size; mime = mime }) ∷ rest)

pub Entries-values :
    {fs : List FileManifestEntry}
    → Entries fs
    → manifest_entries (values (entry_values fs)) ≡ returned fs
unfolding manifest_entries
Entries-values empty = refl
Entries-values (entry {id} {name} {size} {mime} a b c rest) =
    rw (entry-value id name size mime a b c) (rw (Entries-values rest) refl)

pub length-values : (fs : List FileManifestEntry) → length (values (entry_values fs)) ≡ length fs
length-values [] = refl
length-values (f ∷ fs) = ap suc (length-values fs)

module _ (is_format : ℕ → Bool) where
  entry_of :
      (index : ℕ) (f : FileManifestEntry) {fs : List FileManifestEntry}
      → IsAcceptedFile is_format index f
      → leb index 255 ≡ true
      → mime_within_limits f.mime ≡ true
      → Entries fs
      → Entries (f ∷ fs)
  entry_of index f {fs} a few mime rest =
      subst (λ g. Entries (g ∷ fs))
        (λ i. record { id = sym a.numbered i; name = f.name; size = sym a.sized i; mime = f.mime })
        (entry {id = index} {size = bytes_of f.size} few (ground (arith, a.bounded)) mime rest)

  check_files-Entries :
      (seen : List ℕ) (index total sum : ℕ) (fs : List FileManifestEntry)
      → check_files is_format seen total fs ≡ ok sum
      → AreAcceptedFiles is_format index fs
      → index + length fs ≤ max_files_per_session
      → Entries fs
  unfolding check_files
  check_files-Entries seen index total sum [] h k few = empty
  check_files-Entries seen index total sum (f ∷ fs) h (here, later) few =
      let (ids, _, h1) = bind-ok (check_id seen f.id) _ sum h in
      let (size, _, h2) = bind-ok (assert_file_within_limits is_format f.name f.size) _ sum h1 in
      let (u, mime, h3) =
        bind-ok (guard (mime_within_limits f.mime) LimitError.invalid_mime) _ sum h2 in
      let (next, _, h4) = bind-ok (add_size total size) _ sum h3 in
      let allowed =
        guard-ok (mime_within_limits f.mime) LimitError.invalid_mime (ground (arith, mime)) in
      entry_of index f here (ground arith) allowed
        (check_files-Entries ids (index + 1) next sum fs h4 later (omega (arith, few)))

  check_total-safe :
      (m : FileManifest) (n : ℕ)
      → check_total m ≡ ok n
      → (m.total_bytes ≡ nat n) × (leb n max_safe_integer ≡ true)
  unfolding check_total
  check_total-safe m n h = safe_of m.total_bytes n (ground arith)
    where
      safe_of :
          (x : Number) (n : ℕ)
          → safe_natural x ≡ some n
          → (x ≡ nat n) × (leb n max_safe_integer ≡ true)
      safe_of (nat k) n h = ground arith
      safe_of (negative k) n h = ground arith
      safe_of (inexact k) n h = ground arith

  -- The parts of a manifest that is within the limits of a transfer.
  pub record IsPrintable (m : FileManifest) : Type 0 where
    pub entries : Entries m.files
    pub counted : (leb 1 (length m.files) && leb (length m.files) max_files_per_session) ≡ true
    pub total : ℕ
    pub summed : m.total_bytes ≡ nat total
    pub safe : leb total max_safe_integer ≡ true

  pub within_limits-IsPrintable :
      (m : FileManifest)
      → assert_transfer_manifest_within_limits is_format m ≡ ok tt
      → IsPrintable m
  unfolding assert_transfer_manifest_within_limits assert_manifest_within_limits
  within_limits-IsPrintable m h =
      let accepted = assert_transfer_manifest_within_limits-IsAccepted is_format m h in
      let (u, limits, _) = bind-ok (assert_manifest_within_limits is_format m) _ tt h in
      let (v, _, h1) = bind-ok (check_count m) _ tt limits in
      let (expected, expected_ok, h2) = bind-ok (check_total m) _ tt h1 in
      let (sum, sum_ok, _) = bind-ok (check_files is_format [] 0 m.files) _ tt h2 in
      let (summed, safe) = check_total-safe m expected expected_ok in
      record {
        entries =
            check_files-Entries [] 0 0 sum m.files sum_ok accepted.files
              (omega (arith, accepted.few_files));
        counted = ground (arith, accepted.some_file, accepted.few_files);
        total = expected;
        summed = summed;
        safe = safe;
      }
