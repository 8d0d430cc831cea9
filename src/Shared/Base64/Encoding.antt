-- ===== src/Shared/Base64/Encoding.antt =====
-- shared/messages.ts: the encoding of RFC 4648, against which the tests of base64 texts are stated.
use p2p_transfer.Base.{
  ℕ, suc, ◌+◌, ◌-◌, ◌*◌, ◌/◌, ◌%◌, ◌≤◌, ◌<◌, ◌≡◌, refl, ap, ◌∙◌, inl, inr, true, false, some, List,
  [], ◌∷◌, Text, ltb, ◌==◌, if◌then◌else◌, length, drop, All, arith, Option-cases,
}
use p2p_transfer.Shared.Base64.{
  base64_index, is_base64_char, is_full_group, is_padded_group, matches_base64, low_bits_clear,
  clear_end, has_canonical_base64_padding, padding_of, base64_decoded_byte_length,
}

-- RFC 4648: the character of a number below 64, and the encoding of bytes.
unfoldable pub base64_char : ℕ → ℕ
base64_char n =
    if ltb n 26
    then n + 65
    else if ltb n 52
    then n + 71
    else if ltb n 62
    then n - 4
    else if n == 62
    then 43
    else 47

unfoldable pub encode : List ℕ → Text
encode [] = []
encode (x ∷ []) = base64_char (x / 4) ∷ base64_char (x % 4 * 16) ∷ 61 ∷ 61 ∷ []
encode (x ∷ y ∷ []) =
    base64_char (x / 4) ∷ base64_char (x % 4 * 16 + y / 16) ∷ base64_char (y % 16 * 4) ∷ 61 ∷ []
encode (x ∷ y ∷ z ∷ rest) =
    base64_char (x / 4)
    ∷ base64_char (x % 4 * 16 + y / 16)
    ∷ base64_char (y % 16 * 4 + z / 64)
    ∷ base64_char (z % 64)
    ∷ encode rest

abbrev pub IsByte : ℕ → Type 0
IsByte b = b < 256

-- A character and its number.
pub base64_index-base64_char : (n : ℕ) → n < 64 → base64_index (base64_char n) ≡ some n
unfolding base64_index base64_char
base64_index-base64_char n h = ground arith

is_base64_char-base64_char : (n : ℕ) → n < 64 → is_base64_char (base64_char n) ≡ true
unfolding is_base64_char base64_char
is_base64_char-base64_char n h = ground arith

-- The number of a character.
pub index_of :
    (c : ℕ)
    → is_base64_char c ≡ true
    → (n : ℕ) × (n < 64) × (base64_char n ≡ c) × (base64_index c ≡ some n)
unfolding is_base64_char base64_char base64_index
index_of c h = elim (Option-cases (base64_index c)) [
  | inl e ↦ ground arith
  | inr (n, e) ↦ (n, ground arith, ground arith, e)
]

base64_char-ne-pad : (n : ℕ) → n < 64 → (base64_char n == 61) ≡ false
unfolding base64_char
base64_char-ne-pad n h = ground arith

is_base64_char-61 : is_base64_char 61 ≡ false
unfolding is_base64_char
is_base64_char-61 = refl

-- The encoding of bytes is accepted.
pub matches-encode : (bytes : List ℕ) → All IsByte bytes → matches_base64 (encode bytes) ≡ true
unfolding encode matches_base64 is_full_group is_padded_group
matches-encode [] h = refl
matches-encode (x ∷ []) (p, h) =
    ground (arith, is_base64_char-base64_char (x / 4), is_base64_char-base64_char (x % 4 * 16))
matches-encode (x ∷ y ∷ []) (p, (q, h)) = ground (
  arith,
  is_base64_char-base64_char (x / 4),
  is_base64_char-base64_char (x % 4 * 16 + y / 16),
  is_base64_char-base64_char (y % 16 * 4),
)
matches-encode (x ∷ y ∷ z ∷ rest) (p, (q, (r, h))) = ground (
  arith,
  is_base64_char-base64_char (x / 4),
  is_base64_char-base64_char (x % 4 * 16 + y / 16),
  is_base64_char-base64_char (y % 16 * 4 + z / 64),
  is_base64_char-base64_char (z % 64),
  matches-encode rest h,
)

pub length_div : (bytes : List ℕ) → length (encode bytes) % 4 ≡ 0
unfolding encode
length_div [] = refl
length_div (x ∷ []) = refl
length_div (x ∷ y ∷ []) = refl
length_div (x ∷ y ∷ z ∷ rest) = omega (arith, length_div rest)

less_three : (n : ℕ) → suc (suc (suc n)) - 3 ≡ n
less_three n = omega arith

less_two : (n : ℕ) → suc (suc n) - 2 ≡ n
less_two n = omega arith

-- The ends of a text of more than one group.
end_of :
    (a b c d e f g : ℕ) (s : Text)
    → let rest = e ∷ f ∷ g ∷ s in
      drop (length (a ∷ b ∷ c ∷ d ∷ rest) - 3) (a ∷ b ∷ c ∷ d ∷ rest) ≡ drop (length rest - 3) rest
end_of a b c d e f g s = rw (less_three (suc (suc (suc (suc (length s))))), less_three (length s))

short_end_of :
    (a b c d e f : ℕ) (s : Text)
    → let rest = e ∷ f ∷ s in
      drop (length (a ∷ b ∷ c ∷ d ∷ rest) - 2) (a ∷ b ∷ c ∷ d ∷ rest) ≡ drop (length rest - 2) rest
short_end_of a b c d e f s = rw (less_two (suc (suc (suc (suc (length s))))), less_two (length s))

-- A text of at least one byte takes a group.
pub data Group (s : Text) : Type 0 where
  group : (a b c d : ℕ) (rest : Text) → s ≡ a ∷ b ∷ c ∷ d ∷ rest → Group s

Group-encode : (x : ℕ) (bytes : List ℕ) → Group (encode (x ∷ bytes))
unfolding encode
Group-encode x [] = group _ _ _ _ _ refl
Group-encode x (y ∷ []) = group _ _ _ _ _ refl
Group-encode x (y ∷ z ∷ rest) = group _ _ _ _ _ refl

pub canonical_step :
    (a b c d : ℕ) (s : Text)
    → Group s
    → has_canonical_base64_padding (a ∷ b ∷ c ∷ d ∷ s) ≡ has_canonical_base64_padding s
unfolding has_canonical_base64_padding
canonical_step a b c d s (group e f g h rest eq) = rw (eq, end_of a b c d e f g (h ∷ rest))

padding_step :
    (a b c d : ℕ) (s : Text)
    → Group s
    → padding_of (drop (length (a ∷ b ∷ c ∷ d ∷ s) - 2) (a ∷ b ∷ c ∷ d ∷ s))
      ≡ padding_of (drop (length s - 2) s)
padding_step a b c d s (group e f g h rest eq) = rw (eq, short_end_of a b c d e f (g ∷ h ∷ rest))

padding-le : (s : Text) → padding_of s ≤ 2
padding-le [] = omega arith
padding-le (x ∷ []) = omega arith
padding-le (x ∷ y ∷ []) = ground arith
padding-le (x ∷ y ∷ z ∷ s) = omega arith

length-Group : (s : Text) → Group s → 4 ≤ length s
length-Group s (group a b c d rest eq) = rw eq (omega arith)

base64_char-clear :
    (n mask : ℕ) → n < 64 → (n % mask == 0) ≡ true → low_bits_clear mask (base64_char n) ≡ true
unfolding low_bits_clear
base64_char-clear n mask h e = rw (low_bits_clear, base64_index-base64_char n h) e

pub canonical-encode :
    (bytes : List ℕ) → All IsByte bytes → has_canonical_base64_padding (encode bytes) ≡ true
unfolding encode has_canonical_base64_padding clear_end
canonical-encode [] h = refl
canonical-encode (x ∷ []) (p, h) = base64_char-clear (x % 4 * 16) 16 (omega arith) (ground arith)
canonical-encode (x ∷ y ∷ []) (p, (q, h)) =
    rw (base64_char-ne-pad (y % 16 * 4) (omega arith))
      (base64_char-clear (y % 16 * 4) 4 (omega arith) (ground arith))
canonical-encode (x ∷ y ∷ z ∷ []) (p, (q, (r, h))) =
    rw (base64_char-ne-pad (z % 64) (omega arith)) (ground arith)
canonical-encode (x ∷ y ∷ z ∷ w ∷ rest) (p, (q, (r, h))) =
    canonical_step _ _ _ _ (encode (w ∷ rest)) (Group-encode w rest) ∙ canonical-encode (w ∷ rest) h

decoded_step :
    (l p : ℕ)
    → 4 ≤ l
    → p ≤ 2
    → suc (suc (suc (suc l))) / 4 * 3 - p ≡ suc (suc (suc (l / 4 * 3 - p)))
decoded_step l p h k = omega arith

pub decoded-encode : (bytes : List ℕ) → base64_decoded_byte_length (encode bytes) ≡ length bytes
unfolding encode base64_decoded_byte_length
decoded-encode [] = refl
decoded-encode (x ∷ []) = refl
decoded-encode (x ∷ y ∷ []) = rw (base64_char-ne-pad (y % 16 * 4) (omega arith))
decoded-encode (x ∷ y ∷ z ∷ []) = rw (base64_char-ne-pad (z % 64) (omega arith)) (ground arith)
decoded-encode (x ∷ y ∷ z ∷ w ∷ rest) =
    let s = encode (w ∷ rest) in
    rw
      (
        padding_step _ _ _ _ s (Group-encode w rest),
        decoded_step (length s) _ (length-Group s (Group-encode w rest))
            (padding-le (drop (length s - 2) s)),
      )
      (ap (λ n. suc (suc (suc n))) (decoded-encode (w ∷ rest)))
