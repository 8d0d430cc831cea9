-- ===== src/Shared/Transfer.antt =====
-- shared/transfer.ts: the manifest of the transfer against the one that the receiver accepted, and
-- shared/format.ts: the last part of a path.
pub mod Matching
use p2p_transfer.Base.{
  ℕ, suc, ◌-◌, Bool, true, false, not, ◌&&◌, ◌||◌, Option, none, some, List, [], ◌∷◌, reverse,
  Number, nat, negative, inexact, Text, same_text, ltb, leb, ◌==◌, if◌then◌else◌, length, take,
  drop,
}
use p2p_transfer.Shared.Messages.{FileManifest, FileManifestEntry}
use p2p_transfer.Shared.FileNames.{is_path_separator}
use p2p_transfer.Shared.Limits.{Result, ok, err, assert_transfer_manifest_within_limits}

-- The manifest on the data channel; `none` of a result is the error.
pub record TransferManifest : Type 0 where
  pub files : List FileManifestEntry
  pub total_bytes : Number

abbrev pub same_number : Number → Number → Bool
same_number (nat m) (nat n) = m == n
same_number (negative m) (negative n) = m == n
same_number (inexact m) (inexact n) = m == n
same_number _ _ = false

abbrev pub same_id : Option Number → Option Number → Bool
same_id none none = true
same_id (some a) (some b) = same_number a b
same_id _ _ = false

abbrev pub same_mime : Option Text → Option Text → Bool
same_mime none none = true
same_mime (some a) (some b) = same_text a b
same_mime _ _ = false

abbrev pub same_file : FileManifestEntry → FileManifestEntry → Bool
same_file a b =
    same_id a.id b.id
    && same_text a.name b.name
    && same_number a.size b.size
    && same_mime a.mime b.mime

-- The loop over the accepted files; a file that is missing on the other side does not match.
unfoldable pub same_files : List FileManifestEntry → List FileManifestEntry → Bool
same_files [] right = true
same_files (a ∷ left) [] = false
same_files (a ∷ left) (b ∷ right) = same_file a b && same_files left right

abbrev pub passes {ℓ} : {A : Type ℓ} → Result A → Bool
passes (ok a) = true
passes (err e) = false

module _ (is_format : ℕ → Bool) where
  -- Whether `assertTransferManifestMatchesAccepted` returns.
  unfoldable pub transfer_manifest_matches_accepted : FileManifest → TransferManifest → Bool
  transfer_manifest_matches_accepted accepted transfer =
      let offered : FileManifest = record {
        files = transfer.files;
        file_count = nat (length transfer.files);
        total_bytes = transfer.total_bytes;
      } in
      passes (assert_transfer_manifest_within_limits is_format accepted)
      && passes (assert_transfer_manifest_within_limits is_format offered)
      && same_number accepted.total_bytes transfer.total_bytes
      && same_number accepted.file_count (nat (length transfer.files))
      && same_files accepted.files transfer.files

abbrev pub max_basename_input_chars : ℕ
max_basename_input_chars = 4096

unfoldable pub drop_separators : Text → Text
drop_separators [] = []
drop_separators (c ∷ s) =
    let rest = drop_separators s in if is_path_separator c then rest else c ∷ s

unfoldable pub until_path_separator : Text → Text
until_path_separator [] = []
until_path_separator (c ∷ s) =
    let rest = until_path_separator s in if is_path_separator c then [] else c ∷ rest

-- `basename`, over the path in reverse: the last 4096 units before the separators at the end.
unfoldable pub basename : Text → Text
basename path =
    let trimmed = drop_separators (reverse path) in
    let last = reverse (until_path_separator (take max_basename_input_chars trimmed)) in
    if length trimmed == 0 then path else last
