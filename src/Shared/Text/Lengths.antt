-- ===== src/Shared/Text/Lengths.antt =====
-- shared/limits.ts: the UTF-8 lengths of texts that are joined and trimmed.
use p2p_transfer.Base.{
  ℕ, ◌+◌, ◌≤◌, ◌≡◌, refl, ap, ◌∙◌, Bool, true, false, ◌&&◌, List, [], ◌∷◌, ◌++◌, Text,
  if◌then◌else◌, arith,
}
use p2p_transfer.Shared.Text.{
  is_high_surrogate, is_low_surrogate, unit_bytes, utf8_byte_length, characters, trim_characters,
  trim_to_utf8_bytes,
}

low_not_high : (d : ℕ) → is_low_surrogate d ≡ true → is_high_surrogate d ≡ false
low_not_high d h = ground arith

low_bytes : (d : ℕ) → is_low_surrogate d ≡ true → unit_bytes d ≡ 3
low_bytes d h = ground arith

pub unit_bytes-le : (c : ℕ) → unit_bytes c ≤ 3
unit_bytes-le c = ground arith

choice-le :
    (b : Bool) (pair single pair_joined single_joined more : ℕ)
    → pair_joined ≤ pair + more
    → single_joined ≤ single + more
    → (if b then pair_joined else single_joined) ≤ (if b then pair else single) + more
choice-le true pair single pair_joined single_joined more h k = h
choice-le false pair single pair_joined single_joined more h k = k

low-single :
    (d : ℕ) (rest : Text)
    → is_low_surrogate d ≡ true
    → utf8_byte_length (d ∷ rest) ≡ 3 + utf8_byte_length rest
unfolding utf8_byte_length
low-single d [] h = ground arith
low-single d (e ∷ rest) h =
    let low = low_bytes d h in
    let other = ap (λ b. b && is_low_surrogate e) (low_not_high d h) in
    ap
      (λ (b : Bool).
        if b then 4 + utf8_byte_length rest else unit_bytes d + utf8_byte_length (e ∷ rest))
      other
    ∙ ap (λ n. n + utf8_byte_length (e ∷ rest)) low

pub utf8_byte_length-cons :
    (c : ℕ) (s : Text) → utf8_byte_length (c ∷ s) ≤ unit_bytes c + utf8_byte_length s
unfolding utf8_byte_length
utf8_byte_length-cons c [] = omega arith
utf8_byte_length-cons c (d ∷ rest) = ground (arith, low-single d rest)

-- Two texts that are joined take no more bytes than they do apart: a high surrogate that ends the
-- first and a low one that begins the second make one character.
pub utf8_byte_length-append :
    (s t : Text) → utf8_byte_length (s ++ t) ≤ utf8_byte_length s + utf8_byte_length t
unfolding utf8_byte_length
utf8_byte_length-append [] t = omega arith
utf8_byte_length-append (c ∷ []) t = utf8_byte_length-cons c t
utf8_byte_length-append (c ∷ d ∷ rest) t =
    choice-le (is_high_surrogate c && is_low_surrogate d) (4 + utf8_byte_length rest)
      (unit_bytes c + utf8_byte_length (d ∷ rest)) (4 + utf8_byte_length (rest ++ t))
      (unit_bytes c + utf8_byte_length (d ∷ rest ++ t)) (utf8_byte_length t)
      (omega (arith, utf8_byte_length-append rest t))
      (omega (arith, utf8_byte_length-append (d ∷ rest) t))

empty_bytes : utf8_byte_length [] ≡ 0
unfolding utf8_byte_length
empty_bytes = refl

trim_characters-le :
    (bytes max_bytes : ℕ) (cs : List Text)
    → bytes ≤ max_bytes
    → bytes + utf8_byte_length (trim_characters bytes max_bytes cs) ≤ max_bytes
unfolding trim_characters
trim_characters-le bytes max_bytes [] h = omega (arith, empty_bytes)
trim_characters-le bytes max_bytes (char ∷ rest) h =
    let taken = bytes + utf8_byte_length char in
    ground (
      arith,
      trim_characters-le taken max_bytes rest,
      utf8_byte_length-append char (trim_characters taken max_bytes rest),
      empty_bytes,
    )

-- A trimmed text takes at most the bytes that it was trimmed to.
pub trim_to_utf8_bytes-le :
    (value : Text) (max_bytes : ℕ)
    → utf8_byte_length (trim_to_utf8_bytes value max_bytes) ≤ max_bytes
unfolding trim_to_utf8_bytes
trim_to_utf8_bytes-le value max_bytes =
    omega (arith, trim_characters-le 0 max_bytes (characters value) (omega arith))
