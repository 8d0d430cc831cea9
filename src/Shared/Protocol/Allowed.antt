-- ===== src/Shared/Protocol/Allowed.antt =====
-- shared/messages.ts and shared/limits.ts: what the server accepts as a manifest is within the limits
-- that the peers assert, but for names that no file may have on some system.
use p2p_transfer.Base.{
  ℕ, suc, ==_refl, ◌+◌, ◌≤◌, ◌≡◌, refl, sym, ◌∙◌, ap, subst, Bool, true, false, ◌&&◌, Option, none,
  some, List, [], ◌∷◌, Text, length, Number, nat, negative, inexact, leb, arith, Bool-cases, inl,
  inr, max_safe_integer,
}
use p2p_transfer.Shared.Text.{characters, is_high_surrogate, is_low_surrogate}
use p2p_transfer.Shared.FileNames.{
  units, any_unsafe, is_unsafe_in_manifest, safe_file_name, safe_file_name_bytes,
}
use p2p_transfer.Shared.Messages.{FileManifestEntry, FileManifest}
use p2p_transfer.Shared.Limits.{
  max_files_per_session, max_file_bytes, is_some_of, ok, check_id, check_size, add_size,
  check_count, check_total, name_within_limits, assert_file_within_limits, mime_within_limits,
  check_files, assert_manifest_within_limits,
}
use p2p_transfer.Shared.Json.{
  Json, Value, null, boolean, number, string, array, object, number_of, text_of,
}
use p2p_transfer.Shared.Control.{natural}
use p2p_transfer.Shared.Protocol.{
  own, is_string, manifest_files, is_manifest_file, add_id, is_optional_mime, is_manifest,
  no_separator, is_safe_bounded, is_safe_manifest_file_name, is_counted, sums_to,
}
use p2p_transfer.Shared.Control.{unsafe_characters}
use p2p_transfer.Shared.Json.{is_object, has_only_keys, elements}
use p2p_transfer.Shared.Protocol.Reading.{read_entries, read_manifest, IsCountedManifest}
use p2p_transfer.Shared.Protocol.Manifests.{
  natural-number_of, read_step, manifest_step, file_step, is_manifest_file-name, is_counted-some,
  sums_to-some, elements-some, third, is_string-some,
}

some_eq : {A : Type 0} {a b : A} → some a ≡ some b → a ≡ b
some_eq h = cc

uint8-check :
    (ids : List ℕ) (v : Value) (seen : List ℕ)
    → add_id ids v ≡ some seen
    → check_id ids (number_of v) ≡ ok seen
unfolding add_id check_id
uint8-check ids none seen h = ground arith
uint8-check ids (some (number (nat n))) seen h = ground arith
uint8-check ids (some (number (negative n))) seen h = ground arith
uint8-check ids (some (number (inexact n))) seen h = ground arith
uint8-check ids (some null) seen h = ground arith
uint8-check ids (some (boolean b)) seen h = ground arith
uint8-check ids (some (string s)) seen h = ground arith
uint8-check ids (some (array vs)) seen h = ground arith
uint8-check ids (some (object fs)) seen h = ground arith

module _ (is_format : ℕ → Bool) where
  mime-check :
      (v : Value) → is_optional_mime is_format v ≡ true → mime_within_limits (text_of v) ≡ true
  unfolding is_string mime_within_limits
  mime-check none h = refl
  mime-check (some null) h = ground arith
  mime-check (some (boolean b)) h = ground arith
  mime-check (some (number n)) h = ground arith
  mime-check (some (string s)) h = ground arith
  mime-check (some (array vs)) h = ground arith
  mime-check (some (object fs)) h = ground arith

  -- Every name is the portable name that is made of it.
  unfoldable pub names_portable : List FileManifestEntry → Bool
  names_portable [] = true
  names_portable (file ∷ files) =
      is_some_of (safe_file_name is_format file.name safe_file_name_bytes) file.name
      && names_portable files

  characters-safe :
      (s : Text)
      → unsafe_characters is_format (characters s) ≡ false
      → no_separator s ≡ true
      → any_unsafe is_format (characters s) ≡ false
  unfolding unsafe_characters any_unsafe characters is_unsafe_in_manifest
  characters-safe [] h k = refl
  characters-safe (c ∷ []) h k = ground arith
  characters-safe (c ∷ d ∷ rest) h k =
      elim (Bool-cases (is_high_surrogate c && is_low_surrogate d)) [
        | inl e ↦ let more = characters-safe rest in ground (arith, e, more)
        | inr e ↦ let more = characters-safe (d ∷ rest) in ground (arith, e, more)
      ]

  name-check :
      (s : Text)
      → is_safe_manifest_file_name is_format s ≡ true
      → is_some_of (safe_file_name is_format s safe_file_name_bytes) s ≡ true
      → name_within_limits is_format s ≡ true
  unfolding is_safe_manifest_file_name is_safe_bounded name_within_limits
  name-check s h k = let safe = characters-safe s (ground arith) (ground arith) in ground arith

  check_step :
      (ids seen : List ℕ) (total n : ℕ) (file : FileManifestEntry) (files : List FileManifestEntry)
      → check_id ids file.id ≡ ok seen
      → name_within_limits is_format file.name ≡ true
      → check_size file.size ≡ ok n
      → mime_within_limits file.mime ≡ true
      → leb (total + n) max_safe_integer ≡ true
      → check_files is_format ids total (file ∷ files)
        ≡ check_files is_format seen (total + n) files
  unfolding check_files assert_file_within_limits add_size
  check_step ids seen total n file files a b c d e = rw a (rw b (rw c (rw d (rw e refl))))

  size-check : (n : ℕ) → leb n max_file_bytes ≡ true → check_size (nat n) ≡ ok n
  unfolding check_size
  size-check n h = ground arith

  is_manifest_file-mime :
      (v : Value)
      → is_manifest_file is_format v ≡ true
      → is_optional_mime is_format (own v (units "mime")) ≡ true
  unfolding is_manifest_file
  is_manifest_file-mime v h = ground arith

  -- The files of a manifest that passes, read, pass the loop of the limits with the same sum.
  files-checked :
      (ids : List ℕ) (total : ℕ) (vs : List Json) (sum : ℕ)
      → manifest_files is_format ids total vs ≡ some sum
      → (files : List FileManifestEntry) × (read_entries vs ≡ some files)
        × (length files ≡ length vs)
        × (names_portable files ≡ true → check_files is_format ids total files ≡ ok sum)
  unfolding manifest_files read_entries check_files names_portable
  files-checked ids total [] sum h = ([], refl, refl, λ p. ap ok (some_eq h))
  files-checked ids total (v ∷ vs) sum h =
      let (n, seen, sized, added, holds, rest) =
        file_step (natural (own (some v) (units "size"))) (add_id ids (own (some v) (units "id")))
          (λ n.
            is_manifest_file is_format (some v)
            && leb n max_file_bytes
            && leb (total + n) max_safe_integer)
          (λ seen n. manifest_files is_format seen (total + n) vs) sum h in
      let fits : is_manifest_file is_format (some v) ≡ true = ground (arith, holds) in
      let (name, named, safe) =
        is_string-some (is_safe_manifest_file_name is_format) (own (some v) (units "name"))
          (is_manifest_file-name is_format (some v) fits) in
      let (files, read, same, passes) = files-checked seen (total + n) vs sum rest in
      (
        _,
        read_step v vs name (nat n) files named
            (natural-number_of (own (some v) (units "size")) n sized) read,
        ap suc same,
        λ p.
            check_step ids seen total n
              (record {
                id = number_of (own (some v) (units "id"));
                name = name;
                size = nat n;
                mime = text_of (own (some v) (units "mime"));
              })
              files (uint8-check ids (own (some v) (units "id")) seen added)
              (name-check name safe (ground (arith, p))) (size-check n (ground (arith, holds)))
              (mime-check (own (some v) (units "mime")) (is_manifest_file-mime (some v) fits))
              (ground (arith, holds))
            ∙ passes (ground (arith, p)),
      )

  count-check :
      (files : List FileManifestEntry) (n : ℕ) (total : Number)
      → length files ≡ n
      → 1 ≤ n
      → n ≤ max_files_per_session
      → check_count (record { files = files; file_count = nat n; total_bytes = total }) ≡ ok tt
  unfolding check_count
  count-check files n total same least most = ground (arith, same, least, most)

  total-check :
      (files : List FileManifestEntry) (count : Number) (v : Value) (n : ℕ)
      → natural v ≡ some n
      → check_total (record { files = files; file_count = count; total_bytes = nat n }) ≡ ok n
  unfolding check_total
  total-check files count (some (number (nat m))) n h = ground arith
  total-check files count (some (number (negative m))) n h = ground arith
  total-check files count (some (number (inexact m))) n h = ground arith
  total-check files count (some null) n h = ground arith
  total-check files count (some (boolean b)) n h = ground arith
  total-check files count (some (string s)) n h = ground arith
  total-check files count (some (array vs)) n h = ground arith
  total-check files count (some (object fs)) n h = ground arith
  total-check files count none n h = ground arith

  manifest-checked :
      (m : FileManifest) (sum : ℕ)
      → check_count m ≡ ok tt
      → check_total m ≡ ok sum
      → check_files is_format [] 0 m.files ≡ ok sum
      → assert_manifest_within_limits is_format m ≡ ok tt
  unfolding assert_manifest_within_limits
  manifest-checked m sum a b c = rw (a, b, c) (rw (==_refl sum) refl)

  sums_to-same :
      (a b : Option ℕ) (m n : ℕ) → sums_to is_format a b ≡ true → a ≡ some m → b ≡ some n → m ≡ n
  sums_to-same none b m n h p q = ground arith
  sums_to-same (some x) none m n h p q = ground arith
  sums_to-same (some x) (some y) m n h p q = ground arith

  -- A value that is a manifest can be read as one.
  pub read_manifest-some :
      (v : Value)
      → is_manifest is_format v ≡ true
      → (m : FileManifest) × (read_manifest v ≡ some m)
        × IsCountedManifest m
        × (names_portable m.files ≡ true → assert_manifest_within_limits is_format m ≡ ok tt)
  unfolding is_manifest
  read_manifest-some v h =
      let (vs, listed, tests) =
        elements-some is_format (elements (own v (units "files")))
          (λ vs.
            is_counted is_format (own v (units "fileCount")) (length vs)
            && sums_to is_format (manifest_files is_format [] 0 vs)
                (natural (own v (units "totalBytes"))))
          (third is_format (is_object v)
            (has_only_keys v (units "files" ∷ units "fileCount" ∷ units "totalBytes" ∷ [])) _ h) in
      let (count, least, most) =
        is_counted-some is_format (own v (units "fileCount")) (length vs) (ground (arith, tests)) in
      let sums = and_right (is_counted is_format (own v (units "fileCount")) (length vs)) _ tests in
      let (sum, total, summed, told) =
        sums_to-some is_format (manifest_files is_format [] 0 vs)
          (natural (own v (units "totalBytes"))) sums in
      let same =
        sums_to-same (manifest_files is_format [] 0 vs) (natural (own v (units "totalBytes"))) sum
          total sums summed told in
      let (files, read, long, passes) = files-checked [] 0 vs sum summed in
      (
        record { files = files; file_count = nat (length vs); total_bytes = nat total },
        manifest_step v vs files (nat (length vs)) (nat total) listed read count
            (natural-number_of (own v (units "totalBytes")) total told),
        record {
          counted = ap nat (sym long);
          some_file = omega (arith, long, least);
          few_files = omega (arith, long, most);
        },
        λ p.
            manifest-checked
              (record { files = files; file_count = nat (length vs); total_bytes = nat total })
              total (count-check files (length vs) (nat total) long least most)
              (total-check files (nat (length vs)) (own v (units "totalBytes")) total told)
              (passes p ∙ ap ok same),
      )
    where
      and_right : (a b : Bool) → (a && b) ≡ true → b ≡ true
      and_right a b h = ground arith

  -- A manifest that the server's test accepts, and whose file names are the portable names that are
  -- made of them, is within the limits that a peer asserts of it.
  pub is_manifest-assert_manifest_within_limits :
      (v : Value) (m : FileManifest)
      → is_manifest is_format v ≡ true
      → read_manifest v ≡ some m
      → names_portable m.files ≡ true
      → assert_manifest_within_limits is_format m ≡ ok tt
  is_manifest-assert_manifest_within_limits v m h read portable =
      let (found, same, _, passes) = read_manifest-some v h in
      let e : found ≡ m = some_eq (sym same ∙ read) in
      subst (λ k. names_portable k.files ≡ true → assert_manifest_within_limits is_format k ≡ ok tt)
        e passes portable
