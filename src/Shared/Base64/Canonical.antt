-- ===== src/Shared/Base64/Canonical.antt =====
-- shared/messages.ts: the canonical base64 texts and the sequences of bytes.
use p2p_transfer.Base.{ℕ, ◌≡◌, subst, ◌↔◌, true, List, Text, length, All, arith}
use p2p_transfer.Shared.Base64.{is_canonical_base64, is_base64_encoded_bytes}
use p2p_transfer.Shared.Base64.Encoding.{
  encode, IsByte, matches-encode, length_div, canonical-encode, decoded-encode,
}
use p2p_transfer.Shared.Base64.Decoding.{decoded, decode}

encoded_of :
    (s : Text) (n : ℕ)
    → is_base64_encoded_bytes s n ≡ true
    → (bytes : List ℕ) × (length bytes ≡ n) × All IsByte bytes × (encode bytes ≡ s)
unfolding is_base64_encoded_bytes is_canonical_base64
encoded_of s n h = elim (decode s (ground arith) (ground arith)) [
  | decoded bytes all eq ↦ (bytes, ground (arith, decoded-encode bytes), all, eq)
]

accepted_of :
    (bytes : List ℕ) (n : ℕ)
    → length bytes ≡ n
    → All IsByte bytes
    → is_base64_encoded_bytes (encode bytes) n ≡ true
unfolding is_base64_encoded_bytes is_canonical_base64
accepted_of bytes n len all = ground (
  arith,
  length_div bytes,
  matches-encode bytes all,
  canonical-encode bytes all,
  decoded-encode bytes,
)

-- The code accepts a text for a number of bytes exactly when it is the base64 encoding, of RFC 4648,
-- of a sequence of that many bytes.
pub is_base64_encoded_bytes-encode :
    (s : Text) (n : ℕ)
    → (is_base64_encoded_bytes s n ≡ true)
      ↔ ((bytes : List ℕ) × (length bytes ≡ n) × All IsByte bytes × (encode bytes ≡ s))
is_base64_encoded_bytes-encode s n = (
  λ h. encoded_of s n h,
  λ (bytes, len, all, eq).
      subst (λ t. is_base64_encoded_bytes t n ≡ true) eq (accepted_of bytes n len all),
)
