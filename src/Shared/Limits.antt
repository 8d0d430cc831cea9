-- ===== src/Shared/Limits.antt =====
-- shared/limits.ts: the limits of a manifest and of a file. A manifest has its declared type here;
-- the tests that an unknown value has that shape are not modelled.
pub mod Accepted
use p2p_transfer.Base.{
  ℕ, zero, suc, ◌+◌, ◌*◌, Bool, true, false, not, ◌&&◌, ◌||◌, Option, none, some, List, [], ◌∷◌,
  Text, same_text, ltb, leb, ◌==◌, if◌then◌else◌, length, Number, nat, negative, inexact,
  safe_natural, max_safe_integer,
}
use p2p_transfer.Shared.Messages.{FileManifest, FileManifestEntry}
use p2p_transfer.Shared.Text.{trim}
use p2p_transfer.Shared.FileNames.{
  units, is_one_of, characters_unsafe, safe_file_name, safe_file_name_bytes,
}

abbrev pub max_file_bytes : ℕ
max_file_bytes = 1073741824

abbrev pub max_files_per_session : ℕ
max_files_per_session = 100

abbrev pub max_file_name_chars : ℕ
max_file_name_chars = 1024

abbrev pub max_mime_chars : ℕ
max_mime_chars = 255

pub data LimitError : Type 0 where
  invalid_count count_mismatch invalid_total invalid_id duplicate_id : LimitError
  invalid_name invalid_size invalid_mime total_mismatch missing_id out_of_sequence : LimitError

-- What a test of the source comes to: its error, or what it found.
pub data Result {ℓ} (Found : Type ℓ) : Type ℓ where
  err : LimitError → Result Found
  ok : Found → Result Found

-- A test that finds nothing but that a condition holds.
abbrev pub guard : Bool → LimitError → Result (Unit {0})
guard holds thrown = if holds then ok tt else err thrown

infixl 5 ◌>>=◌
abbrev pub ◌>>=◌ {ℓ κ} :
    {Found : Type ℓ} {Next : Type κ} → Result Found → (Found → Result Next) → Result Next
err thrown >>= next = err thrown
ok found >>= next = next found

infixl 5 ◌>>◌
abbrev pub ◌>>◌ {κ} : {Next : Type κ} → Result (Unit {0}) → Result Next → Result Next
checked >> next = checked >>= (λ found. next)

abbrev pub is_some_of : Option Text → Text → Bool
is_some_of none s = false
is_some_of (some t) s = same_text t s

-- A character of the two sides of MIME_TYPE_VALUE.
abbrev pub is_mime_char : ℕ → Bool
is_mime_char c =
    (leb 65 c && leb c 90)
    || (leb 97 c && leb c 122)
    || (leb 48 c && leb c 57)
    || c == 33
    || c == 35
    || c == 36
    || c == 37
    || c == 38
    || c == 39
    || c == 42
    || c == 43
    || c == 46
    || c == 94
    || c == 95
    || c == 96
    || c == 124
    || c == 126
    || c == 45

-- One or more such characters to the end.
unfoldable pub is_mime_subtype : Bool → Text → Bool
is_mime_subtype begun [] = begun
is_mime_subtype begun (c ∷ s) = is_mime_char c && is_mime_subtype true s

-- One or more such characters, a slash, and one or more to the end.
unfoldable pub is_mime_type : Bool → Text → Bool
unfolding is_mime_subtype
is_mime_type begun [] = false
is_mime_type begun (c ∷ s) =
    let longer = is_mime_char c && is_mime_type true s in
    if c == 47 then begun && is_mime_subtype false s else longer

unfoldable pub mime_within_limits : Option Text → Bool
unfolding is_mime_type
mime_within_limits none = true
mime_within_limits (some mime) =
    not (length mime == 0) && leb (length mime) max_mime_chars && is_mime_type false mime

-- `Number.isInteger(id) && id >= 0 && id <= 255`
abbrev pub byte_id : Number → Option ℕ
byte_id (nat n) = if leb n 255 then some n else none
byte_id (negative n) = none
byte_id (inexact n) = none

abbrev pub contains : ℕ → List ℕ → Bool
contains n [] = false
contains n (m ∷ ms) = n == m || contains n ms

-- An optional identifier, against those that are seen already.
unfoldable pub check_id : List ℕ → Option Number → Result (List ℕ)
check_id ids none = ok ids
check_id ids (some id) = elim (byte_id id) [
  | none ↦ err LimitError.invalid_id
  | some n ↦ if contains n ids then err LimitError.duplicate_id else ok (n ∷ ids)
]

-- The size of one file.
unfoldable pub check_size : Number → Result ℕ
check_size size = elim (safe_natural size) [
  | none ↦ err LimitError.invalid_size
  | some n ↦ if leb n max_file_bytes then ok n else err LimitError.invalid_size
]

unfoldable pub add_size : ℕ → ℕ → Result ℕ
add_size total size =
    if leb (total + size) max_safe_integer then ok (total + size) else err LimitError.invalid_total

unfoldable pub check_count : FileManifest → Result (Unit {0})
check_count manifest = elim (safe_natural manifest.file_count) [
  | none ↦ err LimitError.invalid_count
  | some n ↦
      if not (leb 1 n && leb n max_files_per_session)
      then err LimitError.invalid_count
      else guard (length manifest.files == n) LimitError.count_mismatch
]

unfoldable pub check_total : FileManifest → Result ℕ
check_total manifest = elim (safe_natural manifest.total_bytes) [
  | none ↦ err LimitError.invalid_total
  | some n ↦ ok n
]

-- The second loop, of `assertTransferManifestWithinLimits`: the identifiers are the positions.
unfoldable pub check_sequence : ℕ → List FileManifestEntry → Result (Unit {0})
check_sequence index [] = ok tt
check_sequence index (file ∷ files) = elim file.id [
  | none ↦ err LimitError.missing_id
  | some id ↦ elim (byte_id id) [
    | none ↦ err LimitError.missing_id
    | some n ↦
        if n == index then check_sequence (index + 1) files else err LimitError.out_of_sequence
  ]
]

module _ (is_format : ℕ → Bool) where
  unfoldable pub name_within_limits : Text → Bool
  unfolding trim
  name_within_limits name =
      not (length name == 0)
      && leb (length name) max_file_name_chars
      && not (length (trim name) == 0)
      && not (is_one_of name (units "." ∷ units ".." ∷ []))
      && not (characters_unsafe is_format name)
      && is_some_of (safe_file_name is_format name safe_file_name_bytes) name

  -- `assertFileWithinLimits`; the result is the size.
  unfoldable pub assert_file_within_limits : Text → Number → Result ℕ
  unfolding name_within_limits check_size
  assert_file_within_limits name size = do
    guard (name_within_limits name) LimitError.invalid_name
    check_size size

  -- The loop of `assertManifestWithinLimits`.
  unfoldable pub check_files : List ℕ → ℕ → List FileManifestEntry → Result ℕ
  unfolding check_id assert_file_within_limits mime_within_limits add_size
  check_files ids total [] = ok total
  check_files ids total (file ∷ files) = do
    seen ← check_id ids file.id
    size ← assert_file_within_limits file.name file.size
    guard (mime_within_limits file.mime) LimitError.invalid_mime
    next ← add_size total size
    check_files seen next files

  unfoldable pub assert_manifest_within_limits : FileManifest → Result (Unit {0})
  unfolding check_files check_count check_total
  assert_manifest_within_limits manifest = do
    check_count manifest
    expected ← check_total manifest
    total ← check_files [] 0 manifest.files
    guard (total == expected) LimitError.total_mismatch

  unfoldable pub assert_transfer_manifest_within_limits : FileManifest → Result (Unit {0})
  unfolding assert_manifest_within_limits check_sequence
  assert_transfer_manifest_within_limits manifest = do
    assert_manifest_within_limits manifest
    check_sequence 0 manifest.files
