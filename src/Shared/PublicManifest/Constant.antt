-- ===== src/Shared/PublicManifest/Constant.antt =====
-- shared/public-manifest.ts: what the server sees of a manifest is one constant.
use p2p_transfer.Base.{
  ℕ, zero, suc, ◌+◌, ◌≡◌, refl, ap, ◌∙◌, ◌↔◌, true, Option, none, some, List, [], ◌∷◌, Text, Number,
  nat, negative, inexact, ==_iff, same_text_iff, length, arith,
}
use p2p_transfer.Shared.Messages.{FileManifest, FileManifestEntry}
use p2p_transfer.Shared.Limits.{max_file_bytes, max_files_per_session}
use p2p_transfer.Shared.PublicManifest.{
  max_public_total_bytes, is_number, encrypted_name, constant_files, constant_public_manifest,
  redact_manifest_for_signaling, is_redacted_file, are_redacted_files,
  public_pair_request_manifest_is_redacted,
}

constant_file : ℕ → FileManifestEntry
constant_file index = record {
  id = some (nat index);
  name = encrypted_name index;
  size = nat max_file_bytes;
  mime = none;
}

is_number-eq : (x : Number) (n : ℕ) → is_number x n ≡ true → x ≡ nat n
is_number-eq (nat m) n h = ground (arith, ==_iff m n)
is_number-eq (negative m) n h = ground arith
is_number-eq (inexact m) n h = ground arith

is_number_refl : (n : ℕ) → is_number (nat n) n ≡ true
is_number_refl n = ground (arith, ==_iff n n)

is_redacted_file-eq :
    (index : ℕ) (id : Option Number) (name : Text) (size : Number) (mime : Option Text)
    → is_redacted_file index (record { id = id; name = name; size = size; mime = mime }) ≡ true
    → (id ≡ some (nat index))
      × (name ≡ encrypted_name index)
      × (size ≡ nat max_file_bytes)
      × (mime ≡ none)
is_redacted_file-eq index (some id) name size none h = ground (
  arith,
  same_text_iff name (encrypted_name index),
  is_number-eq id index,
  is_number-eq size max_file_bytes,
)
is_redacted_file-eq index none name size none h = ground arith
is_redacted_file-eq index none name size (some t) h = ground arith
is_redacted_file-eq index (some id) name size (some t) h = ground arith

are_redacted_files-eq :
    (index : ℕ) (files : List FileManifestEntry)
    → are_redacted_files index files ≡ true
    → files ≡ constant_files index (length files)
unfolding are_redacted_files constant_files
are_redacted_files-eq index [] h = refl
are_redacted_files-eq index (file ∷ files) h =
    let (id, name, size, mime) =
      is_redacted_file-eq index file.id file.name file.size file.mime (ground arith) in
    let rest = are_redacted_files-eq (index + 1) files (ground arith) in
    λ i. record { id = id i; name = name i; size = size i; mime = mime i } ∷ rest i

constant_files-redacted :
    (index left : ℕ) → are_redacted_files index (constant_files index left) ≡ true
unfolding are_redacted_files constant_files
constant_files-redacted index zero = refl
constant_files-redacted index (suc left) = ground (
  arith,
  is_number_refl index,
  is_number_refl max_file_bytes,
  same_text_iff (encrypted_name index) (encrypted_name index),
  constant_files-redacted (index + 1) left,
)

length-constant_files : (index left : ℕ) → length (constant_files index left) ≡ left
unfolding constant_files
length-constant_files index zero = refl
length-constant_files index (suc left) = ap suc (length-constant_files (index + 1) left)

redacted-constant :
    (manifest : FileManifest)
    → public_pair_request_manifest_is_redacted manifest ≡ true
    → manifest ≡ constant_public_manifest
unfolding public_pair_request_manifest_is_redacted constant_public_manifest
redacted-constant manifest h =
    let count = is_number-eq manifest.file_count max_files_per_session (ground arith) in
    let total = is_number-eq manifest.total_bytes max_public_total_bytes (ground arith) in
    let many : length manifest.files ≡ max_files_per_session =
      ground (arith, ==_iff (length manifest.files) max_files_per_session) in
    let files : manifest.files ≡ constant_files 0 max_files_per_session =
      are_redacted_files-eq 0 manifest.files (ground arith) ∙ (λ i. constant_files 0 (many i)) in
    λ i. record { files = files i; file_count = count i; total_bytes = total i }

constant-redacted : public_pair_request_manifest_is_redacted constant_public_manifest ≡ true
unfolding public_pair_request_manifest_is_redacted constant_public_manifest
constant-redacted = ground (
  arith,
  is_number_refl max_files_per_session,
  is_number_refl max_public_total_bytes,
  length-constant_files 0 max_files_per_session,
  ==_iff (length (constant_files 0 max_files_per_session)) max_files_per_session,
  constant_files-redacted 0 max_files_per_session,
)

-- The server's test accepts the constant manifest and no other: what a pair request shows to the
-- server does not depend on the files.
pub public_pair_request_manifest_is_redacted_iff :
    (manifest : FileManifest)
    → (public_pair_request_manifest_is_redacted manifest ≡ true)
      ↔ (manifest ≡ constant_public_manifest)
public_pair_request_manifest_is_redacted_iff manifest = (
  redacted-constant manifest,
  λ same. ap public_pair_request_manifest_is_redacted same ∙ constant-redacted,
)

-- What `redactManifestForSignaling` makes of a manifest passes the server's test.
pub redact_manifest_for_signaling-redacted :
    (manifest redacted : FileManifest)
    → redact_manifest_for_signaling manifest ≡ some redacted
    → public_pair_request_manifest_is_redacted redacted ≡ true
unfolding redact_manifest_for_signaling
redact_manifest_for_signaling-redacted manifest redacted h =
    let same : redacted ≡ constant_public_manifest = ground arith in
    ap public_pair_request_manifest_is_redacted same ∙ constant-redacted
