-- ===== src/Shared/PublicManifest.antt =====
-- shared/public-manifest.ts: the constant manifest that a pair request shows to the server.
pub mod Constant
use p2p_transfer.Base.{
  ℕ, zero, suc, ◌+◌, ◌*◌, Bool, true, false, not, ◌&&◌, ◌||◌, Option, none, some, List, [], ◌∷◌,
  ◌++◌, Text, same_text, ltb, leb, ◌==◌, if◌then◌else◌, length, Number, nat, negative, inexact,
  safe_natural, max_safe_integer,
}
use p2p_transfer.Shared.Messages.{FileManifest, FileManifestEntry}
use p2p_transfer.Shared.FileNames.{units, decimal}
use p2p_transfer.Shared.Limits.{max_file_bytes, max_files_per_session}

abbrev pub max_public_total_bytes : ℕ
max_public_total_bytes = 107374182400

-- `value === n`, for a number of the program
abbrev pub is_number : Number → ℕ → Bool
is_number (nat m) n = m == n
is_number (negative m) n = false
is_number (inexact m) n = false

-- `encrypted-${index}`
unfoldable pub encrypted_name : ℕ → Text
unfolding decimal
encrypted_name index = units "encrypted-" ++ decimal index

-- The files from the index on, as many as are left.
unfoldable pub constant_files : ℕ → ℕ → List FileManifestEntry
unfolding encrypted_name
constant_files index zero = []
constant_files index (suc left) =
    record {
      id = some (nat index);
      name = encrypted_name index;
      size = nat max_file_bytes;
      mime = none;
    }
    ∷ constant_files (index + 1) left

unfoldable pub constant_public_manifest : FileManifest
unfolding constant_files
constant_public_manifest = record {
  files = constant_files 0 max_files_per_session;
  file_count = nat max_files_per_session;
  total_bytes = nat max_public_total_bytes;
}

-- The loop of `redactManifestForSignaling`: the sum of the sizes.
unfoldable pub sum_sizes : ℕ → List FileManifestEntry → Option ℕ
sum_sizes total [] = some total
sum_sizes total (file ∷ files) = elim (safe_natural file.size) [
  | none ↦ none
  | some size ↦
      let rest = sum_sizes (total + size) files in
      if leb size max_file_bytes && leb (total + size) max_safe_integer then rest else none
]

abbrev pub within_public_limits : FileManifest → ℕ → ℕ → Bool
within_public_limits manifest count total =
    leb 1 count
    && leb count max_files_per_session
    && length manifest.files == count
    && leb total max_public_total_bytes

-- `none` is the error.
unfoldable pub redact_manifest_for_signaling : FileManifest → Option FileManifest
unfolding sum_sizes constant_public_manifest
redact_manifest_for_signaling manifest = elim (safe_natural manifest.file_count) [
  | none ↦ none
  | some count ↦ elim (safe_natural manifest.total_bytes) [
    | none ↦ none
    | some total ↦
        let redacted : Option FileManifest = elim (sum_sizes 0 manifest.files) [
          | none ↦ none
          | some actual ↦ if actual == total then some constant_public_manifest else none
        ] in
        if within_public_limits manifest count total then redacted else none
  ]
]

-- One file of `publicPairRequestManifestIsRedacted`.
abbrev pub is_redacted_file : ℕ → FileManifestEntry → Bool
is_redacted_file index file =
    elim file.id [ none ↦ false | some id ↦ is_number id index ]
    && same_text file.name (encrypted_name index)
    && is_number file.size max_file_bytes
    && elim file.mime [ none ↦ true | some mime ↦ false ]

unfoldable pub are_redacted_files : ℕ → List FileManifestEntry → Bool
unfolding encrypted_name
are_redacted_files index [] = true
are_redacted_files index (file ∷ files) =
    is_redacted_file index file && are_redacted_files (index + 1) files

unfoldable pub public_pair_request_manifest_is_redacted : FileManifest → Bool
unfolding are_redacted_files
public_pair_request_manifest_is_redacted manifest =
    is_number manifest.file_count max_files_per_session
    && length manifest.files == max_files_per_session
    && is_number manifest.total_bytes max_public_total_bytes
    && are_redacted_files 0 manifest.files
