-- ===== src/Shared/Transfer/Matching.antt =====
-- shared/transfer.ts: a transfer that matches has the accepted files.
use p2p_transfer.Base.{
  ℕ, ◌≡◌, refl, sym, ◌∙◌, ap, Bool, true, Option, none, some, List, [], ◌∷◌, Number, nat, negative,
  inexact, Text, same_text_iff, ==_iff, length, arith,
}
use p2p_transfer.Shared.Messages.{FileManifest, FileManifestEntry}
use p2p_transfer.Shared.Limits.{Result, ok, err, assert_transfer_manifest_within_limits}
use p2p_transfer.Shared.Limits.Accepted.{assert_transfer_manifest_within_limits-IsAccepted}
use p2p_transfer.Shared.Transfer.{
  TransferManifest, same_number, same_id, same_mime, same_file, same_files, passes,
  transfer_manifest_matches_accepted,
}

pub same_number-eq : (a b : Number) → same_number a b ≡ true → a ≡ b
same_number-eq (nat m) (nat n) h = ground (arith, ==_iff m n)
same_number-eq (nat m) (negative n) h = ground arith
same_number-eq (nat m) (inexact n) h = ground arith
same_number-eq (negative m) (nat n) h = ground arith
same_number-eq (negative m) (negative n) h = ground (arith, ==_iff m n)
same_number-eq (negative m) (inexact n) h = ground arith
same_number-eq (inexact m) (nat n) h = ground arith
same_number-eq (inexact m) (negative n) h = ground arith
same_number-eq (inexact m) (inexact n) h = ground (arith, ==_iff m n)

same_id-eq : (a b : Option Number) → same_id a b ≡ true → a ≡ b
same_id-eq none none h = refl
same_id-eq none (some b) h = ground arith
same_id-eq (some a) none h = ground arith
same_id-eq (some a) (some b) h = ap some (same_number-eq a b h)

same_mime-eq : (a b : Option Text) → same_mime a b ≡ true → a ≡ b
same_mime-eq none none h = refl
same_mime-eq none (some b) h = ground arith
same_mime-eq (some a) none h = ground arith
same_mime-eq (some a) (some b) h = ap some ((same_text_iff a b).0 h)

same_file-eq : (a b : FileManifestEntry) → same_file a b ≡ true → a ≡ b
same_file-eq a b h =
    let id = same_id-eq a.id b.id (ground arith) in
    let name = (same_text_iff a.name b.name).0 (ground arith) in
    let size = same_number-eq a.size b.size (ground arith) in
    let mime = same_mime-eq a.mime b.mime (ground arith) in
    λ i. record { id = id i; name = name i; size = size i; mime = mime i }

same_files-eq :
    (left right : List FileManifestEntry)
    → length left ≡ length right
    → same_files left right ≡ true
    → left ≡ right
unfolding same_files
same_files-eq [] [] n h = refl
same_files-eq [] (b ∷ right) n h = ground arith
same_files-eq (a ∷ left) [] n h = ground arith
same_files-eq (a ∷ left) (b ∷ right) n h =
    let first = same_file-eq a b (ground arith) in
    let rest = same_files-eq left right (omega (arith, n)) (ground arith) in λ i. first i ∷ rest i

passes-ok : (r : Result (Unit {0})) → passes r ≡ true → r ≡ ok tt
passes-ok (ok tt) h = refl
passes-ok (err e) h = ground arith

nat_injective : {m n : ℕ} → nat m ≡ nat n → m ≡ n
nat_injective h = ground (arith, h)

-- A manifest on the data channel that `assertTransferManifestMatchesAccepted` lets through has the
-- very files that the receiver accepted, in their order, and their total.
pub transfer_manifest_matches_accepted-same :
    (is_format : ℕ → Bool) (accepted : FileManifest) (transfer : TransferManifest)
    → transfer_manifest_matches_accepted is_format accepted transfer ≡ true
    → (transfer.files ≡ accepted.files) × (transfer.total_bytes ≡ accepted.total_bytes)
unfolding transfer_manifest_matches_accepted
transfer_manifest_matches_accepted-same is_format accepted transfer h =
    let valid =
      assert_transfer_manifest_within_limits-IsAccepted is_format accepted
        (passes-ok (assert_transfer_manifest_within_limits is_format accepted) (ground arith)) in
    let count = same_number-eq accepted.file_count (nat (length transfer.files)) (ground arith) in
    let total = same_number-eq accepted.total_bytes transfer.total_bytes (ground arith) in
    let lengths = nat_injective (sym valid.counted ∙ count) in
    (sym (same_files-eq accepted.files transfer.files lengths (ground arith)), sym total)
