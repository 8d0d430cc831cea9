-- ===== src/Shared/Protocol/Manifests.antt =====
-- shared/messages.ts: the tests of a manifest, taken apart, and the reading of its fields.
use p2p_transfer.Base.{
  ℕ, ◌≤◌, ◌≡◌, refl, sym, ◌∙◌, ap, Bool, true, false, ◌&&◌, Option, none, some, List, ◌∷◌, Text,
  Number, nat, negative, inexact, safe_natural, arith, Option-cases, inl, inr,
}
use p2p_transfer.Shared.FileNames.{units}
use p2p_transfer.Shared.Messages.{FileManifestEntry}
use p2p_transfer.Shared.Limits.{max_files_per_session}
use p2p_transfer.Shared.Json.{
  Json, Value, null, boolean, number, string, array, object, own_data_value, elements, text_of,
  number_of,
}
use p2p_transfer.Shared.Control.{natural}
use p2p_transfer.Shared.Protocol.{
  own, is_string, is_natural, is_manifest_file, is_counted, sums_to, is_safe_manifest_file_name,
}
use p2p_transfer.Shared.Protocol.Reading.{read_entries, read_manifest}

pub is_string-some :
    (test : Text → Bool) (v : Value)
    → is_string test v ≡ true
    → (s : Text) × (text_of v ≡ some s) × (test s ≡ true)
unfolding is_string
is_string-some test v h = elim (Option-cases (text_of v)) [
  | inl e ↦
      elim (false_true
        (sym (ap (λ o. elim o as (λ k. Bool) [ none ↦ false | some s ↦ test s ]) e) ∙ h)) [ ]
  | inr (s, e) ↦
      (s, e, sym (ap (λ o. elim o as (λ k. Bool) [ none ↦ false | some s ↦ test s ]) e) ∙ h)
]
  where
    false_true : false ≡ true → ⊥
    false_true h = cc

pub is_natural-some : (v : Value) → is_natural v ≡ true → (n : ℕ) × (natural v ≡ some n)
unfolding is_natural
is_natural-some v h = elim (Option-cases (natural v)) [
  | inl e ↦ ground (arith, e)
  | inr (n, e) ↦ (n, e)
]

safe_natural-nat : (x : Number) (n : ℕ) → safe_natural x ≡ some n → x ≡ nat n
safe_natural-nat (nat m) n h = ground arith
safe_natural-nat (negative m) n h = ground arith
safe_natural-nat (inexact m) n h = ground arith

pub natural-number_of : (v : Value) (n : ℕ) → natural v ≡ some n → number_of v ≡ some (nat n)
natural-number_of none n h = ground arith
natural-number_of (some (number x)) n h = ap some (safe_natural-nat x n h)
natural-number_of (some null) n h = ground arith
natural-number_of (some (boolean b)) n h = ground arith
natural-number_of (some (string s)) n h = ground arith
natural-number_of (some (array vs)) n h = ground arith
natural-number_of (some (object fs)) n h = ground arith

-- Reading, from what the fields give.
pub read_step :
    (v : Json) (vs : List Json) (name : Text) (size : Number) (files : List FileManifestEntry)
    → text_of (own (some v) (units "name")) ≡ some name
    → number_of (own (some v) (units "size")) ≡ some size
    → read_entries vs ≡ some files
    → read_entries (v ∷ vs)
      ≡ some (
          (record {
            id = number_of (own (some v) (units "id"));
            name = name;
            size = size;
            mime = text_of (own (some v) (units "mime"));
          })
          ∷ files)
unfolding read_entries
read_step v vs name size files a b c = rw a (rw b (rw c refl))

pub manifest_step :
    (v : Value) (vs : List Json) (files : List FileManifestEntry) (count total : Number)
    → elements (own v (units "files")) ≡ some vs
    → read_entries vs ≡ some files
    → number_of (own v (units "fileCount")) ≡ some count
    → number_of (own v (units "totalBytes")) ≡ some total
    → read_manifest v ≡ some (record { files = files; file_count = count; total_bytes = total })
unfolding read_manifest
manifest_step v vs files count total a b c d = rw a (rw b (rw c (rw d refl)))

-- The tests of one file, taken apart.
bool_step :
    (b : Bool) (rest : Option ℕ) (sum : ℕ)
    → elim b as (λ k. Option ℕ) [ false ↦ none | true ↦ rest ] ≡ some sum
    → (b ≡ true) × (rest ≡ some sum)
bool_step true rest sum h = (refl, h)
bool_step false rest sum h = elim (none-some h) [ ]
  where
    none-some : {A : Type 0} {a : A} → none ≡ some a → ⊥
    none-some h = cc

pub file_step :
    (o : Option ℕ) (p : Option (List ℕ)) (b : ℕ → Bool) (next : List ℕ → ℕ → Option ℕ) (sum : ℕ)
    → elim o as (λ k. Option ℕ) [
      | none ↦ none
      | some n ↦ elim p as (λ k. Option ℕ) [
        | none ↦ none
        | some seen ↦ elim (b n) as (λ k. Option ℕ) [ false ↦ none | true ↦ next seen n ]
      ]
    ]
      ≡ some sum
    → (n : ℕ) × (seen : List ℕ) × (o ≡ some n)
      × (p ≡ some seen)
      × (b n ≡ true)
      × (next seen n ≡ some sum)
file_step none p b next sum h = elim (none-some h) [ ]
  where
    none-some : {A : Type 0} {a : A} → none ≡ some a → ⊥
    none-some h = cc
file_step (some n) none b next sum h = elim (none-some h) [ ]
  where
    none-some : {A : Type 0} {a : A} → none ≡ some a → ⊥
    none-some h = cc
file_step (some n) (some seen) b next sum h =
    let (holds, rest) = bool_step (b n) (next seen n) sum h in (n, seen, refl, refl, holds, rest)

module _ (is_format : ℕ → Bool) where
  pub is_manifest_file-name :
      (v : Value)
      → is_manifest_file is_format v ≡ true
      → is_string (is_safe_manifest_file_name is_format) (own_data_value v (units "name")) ≡ true
  unfolding is_manifest_file
  is_manifest_file-name v h = ground arith

  pub is_counted-some :
      (v : Value) (n : ℕ)
      → is_counted is_format v n ≡ true
      → (number_of v ≡ some (nat n)) × (1 ≤ n) × (n ≤ max_files_per_session)
  unfolding is_counted
  is_counted-some v n h = elim (Option-cases (natural v)) [
    | inl e ↦ ground (arith, e)
    | inr (m, e) ↦
        let same : m ≡ n = ground (arith, e) in
        (
          natural-number_of v m e ∙ ap (λ k. some (nat k)) same,
          ground (arith, e),
          ground (arith, e),
        )
  ]

  pub sums_to-some :
      (a b : Option ℕ)
      → sums_to is_format a b ≡ true
      → (m : ℕ) × (n : ℕ) × (a ≡ some m) × (b ≡ some n)
  sums_to-some none b h = ground arith
  sums_to-some (some m) none h = ground arith
  sums_to-some (some m) (some n) h = (m, n, refl, refl)

  pub elements-some :
      (o : Option (List Json)) (test : List Json → Bool)
      → elim o as (λ k. Bool) [ none ↦ false | some vs ↦ test vs ] ≡ true
      → (vs : List Json) × (o ≡ some vs) × (test vs ≡ true)
  elements-some none test h = ground arith
  elements-some (some vs) test h = (vs, refl, h)

  pub third : (a b c : Bool) → (a && b && c) ≡ true → c ≡ true
  third a b c h = ground arith
