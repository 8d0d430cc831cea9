-- ===== src/Shared/Limits/Accepted.antt =====
-- shared/limits.ts: what a manifest satisfies that the receiver lets through.
use p2p_transfer.Base.{
  ℕ, ◌+◌, ◌≤◌, ◌≡◌, refl, sym, ap, ◌∙◌, Bool, true, Option, none, some, List, [], ◌∷◌, Text, Number,
  nat, negative, inexact, safe_natural, ◌==◌, ==_iff, if◌then◌else◌, length, arith,
}
use p2p_transfer.Shared.Messages.{FileManifest, FileManifestEntry}
use p2p_transfer.Shared.Limits.{
  LimitError, Result, ok, err, ◌>>=◌, guard, byte_id, check_id, check_size, add_size, check_count,
  check_total, check_sequence, name_within_limits, mime_within_limits, assert_file_within_limits,
  check_files, assert_manifest_within_limits, assert_transfer_manifest_within_limits,
  max_file_bytes, max_files_per_session,
}

-- The size that an entry gives, and the sum of all.
abbrev pub bytes_of : Number → ℕ
bytes_of (nat n) = n
bytes_of (negative n) = 0
bytes_of (inexact n) = 0

pub sum_of : List FileManifestEntry → ℕ
sum_of [] = 0
sum_of (file ∷ files) = bytes_of file.size + sum_of files

pub bind-ok {ℓ κ} :
    {A : Type ℓ} {B : Type κ} (m : Result A) (f : A → Result B) (b : B)
    → (m >>= f) ≡ ok b
    → (a : A) × (m ≡ ok a) × (f a ≡ ok b)
bind-ok (ok a) f b h = (a, refl, h)
bind-ok (err e) f b h = ground arith

pub guard-ok : (b : Bool) (e : LimitError) → guard b e ≡ ok tt → b ≡ true
guard-ok b e h = ground arith

safe_natural-nat : (x : Number) (n : ℕ) → safe_natural x ≡ some n → x ≡ nat n
safe_natural-nat (nat m) n h = ground arith
safe_natural-nat (negative m) n h = ground arith
safe_natural-nat (inexact m) n h = ground arith

module _ (is_format : ℕ → Bool) where
  -- One file of an accepted manifest, at its place in the list.
  pub record IsAcceptedFile (index : ℕ) (file : FileManifestEntry) : Type 0 where
    pub numbered : file.id ≡ some (nat index)
    pub named : name_within_limits is_format file.name ≡ true
    pub sized : file.size ≡ nat (bytes_of file.size)
    pub bounded : bytes_of file.size ≤ max_file_bytes

  abbrev pub AreAcceptedFiles : ℕ → List FileManifestEntry → Type 0
  AreAcceptedFiles index [] = Unit
  AreAcceptedFiles index (file ∷ files) =
      IsAcceptedFile index file × AreAcceptedFiles (index + 1) files

  pub record IsAccepted (manifest : FileManifest) : Type 0 where
    pub counted : manifest.file_count ≡ nat (length manifest.files)
    pub some_file : 1 ≤ length manifest.files
    pub few_files : length manifest.files ≤ max_files_per_session
    pub files : AreAcceptedFiles 0 manifest.files
    pub summed : manifest.total_bytes ≡ nat (sum_of manifest.files)

  check_size-ok :
      (size : Number) (n : ℕ) → check_size size ≡ ok n → (size ≡ nat n) × (n ≤ max_file_bytes)
  unfolding check_size
  check_size-ok (nat m) n h = ground arith
  check_size-ok (negative m) n h = ground arith
  check_size-ok (inexact m) n h = ground arith

  add_size-ok : (total size next : ℕ) → add_size total size ≡ ok next → next ≡ total + size
  unfolding add_size
  add_size-ok total size next h = ground arith

  pub assert_file_within_limits-ok :
      (name : Text) (size : Number) (n : ℕ)
      → assert_file_within_limits is_format name size ≡ ok n
      → (name_within_limits is_format name ≡ true) × (size ≡ nat n) × (n ≤ max_file_bytes)
  unfolding assert_file_within_limits
  assert_file_within_limits-ok name size n h =
      let (u, named, sized) =
        bind-ok (guard (name_within_limits is_format name) LimitError.invalid_name) _ n h in
      let (known, bounded) = check_size-ok size n sized in
      (guard-ok _ LimitError.invalid_name (ground (arith, named)), known, bounded)

  -- What the first loop checked, and what the second.
  abbrev AreCheckedFiles : List FileManifestEntry → Type 0
  AreCheckedFiles [] = Unit
  AreCheckedFiles (file ∷ files) =
      (name_within_limits is_format file.name ≡ true)
      × (file.size ≡ nat (bytes_of file.size))
      × (bytes_of file.size ≤ max_file_bytes)
      × AreCheckedFiles files

  check_files-ok :
      (ids : List ℕ) (total end : ℕ) (files : List FileManifestEntry)
      → check_files is_format ids total files ≡ ok end
      → (end ≡ total + sum_of files) × AreCheckedFiles files
  unfolding check_files sum_of
  check_files-ok ids total end [] h = (ground arith, tt)
  check_files-ok ids total end (file ∷ files) h =
      let (seen, id_ok, h1) = bind-ok (check_id ids file.id) _ end h in
      let (size, size_ok, h2) =
        bind-ok (assert_file_within_limits is_format file.name file.size) _ end h1 in
      let (u, mime_ok, h3) =
        bind-ok (guard (mime_within_limits file.mime) LimitError.invalid_mime) _ end h2 in
      let (next, next_ok, h4) = bind-ok (add_size total size) _ end h3 in
      let (named, sized, bounded) = assert_file_within_limits-ok file.name file.size size size_ok in
      let (summed, rest) = check_files-ok seen next end files h4 in
      let same : bytes_of file.size ≡ size = ap bytes_of sized in
      let added = add_size-ok total size next next_ok in
      (
        omega (arith, summed, added, same),
        (named, sized ∙ (λ i. nat (sym same i)), omega (arith, same, bounded), rest),
      )

  numbered-ok :
      (id : Option Number) (index : ℕ) (rest : Result (Unit {0}))
      → elim id [
        | none ↦ err LimitError.missing_id
        | some id ↦ elim (byte_id id) [
          | none ↦ err LimitError.missing_id
          | some n ↦ if n == index then rest else err LimitError.out_of_sequence
        ]
      ]
        ≡ ok tt
      → (id ≡ some (nat index)) × (rest ≡ ok tt)
  numbered-ok none index rest h = ground arith
  numbered-ok (some (nat n)) index rest h = ground (arith, ==_iff n index)
  numbered-ok (some (negative n)) index rest h = ground arith
  numbered-ok (some (inexact n)) index rest h = ground arith

  check_sequence-ok :
      (index : ℕ) (files : List FileManifestEntry)
      → check_sequence index files ≡ ok tt
      → AreCheckedFiles files
      → AreAcceptedFiles index files
  unfolding check_sequence
  check_sequence-ok index [] h checked = tt
  check_sequence-ok index (file ∷ files) h (named, sized, bounded, rest) =
      let (numbered, later) = numbered-ok file.id index (check_sequence (index + 1) files) h in
      (
        record { numbered = numbered; named = named; sized = sized; bounded = bounded },
        check_sequence-ok (index + 1) files later rest,
      )

  check_total-ok :
      (manifest : FileManifest) (n : ℕ) → check_total manifest ≡ ok n → manifest.total_bytes ≡ nat n
  unfolding check_total
  check_total-ok manifest n h = safe_natural-nat manifest.total_bytes n (ground arith)

  check_count-ok :
      (manifest : FileManifest)
      → check_count manifest ≡ ok tt
      → (manifest.file_count ≡ nat (length manifest.files))
        × (1 ≤ length manifest.files)
        × (length manifest.files ≤ max_files_per_session)
  unfolding check_count
  check_count-ok manifest h = ground arith

  -- A transfer manifest that `assertTransferManifestWithinLimits` lets through has from 1 to 100
  -- files, as many as it says. The file at each place has that place as its identifier, a name
  -- within the limits and a size of at most 1 GiB, and the total is the sum of the sizes.
  pub assert_transfer_manifest_within_limits-IsAccepted :
      (manifest : FileManifest)
      → assert_transfer_manifest_within_limits is_format manifest ≡ ok tt
      → IsAccepted manifest
  unfolding assert_transfer_manifest_within_limits assert_manifest_within_limits
  assert_transfer_manifest_within_limits-IsAccepted manifest h =
      let (u, limits, sequence) =
        bind-ok (assert_manifest_within_limits is_format manifest) _ tt h in
      let (v, count, h1) = bind-ok (check_count manifest) _ tt limits in
      let (expected, expected_ok, h2) = bind-ok (check_total manifest) _ tt h1 in
      let (total, total_ok, h3) = bind-ok (check_files is_format [] 0 manifest.files) _ tt h2 in
      let (summed, checked) = check_files-ok [] 0 total manifest.files total_ok in
      let (counted, some_file, few_files) = check_count-ok manifest (ground (arith, count)) in
      let exact : total ≡ sum_of manifest.files = omega (arith, summed) in
      let same : total ≡ expected =
        ground (
          arith,
          guard-ok (total == expected) LimitError.total_mismatch h3,
          ==_iff total expected,
        ) in
      record {
        counted = counted;
        some_file = some_file;
        few_files = few_files;
        files = check_sequence-ok 0 manifest.files sequence checked;
        summed =
            check_total-ok manifest expected expected_ok
            ∙ (λ i. nat (sym same i))
            ∙ (λ i. nat (exact i));
      }
