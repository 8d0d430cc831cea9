-- ===== src/Shared/Base64/Decoding.antt =====
-- shared/messages.ts: the bytes of a canonical base64 text, group by group.
use p2p_transfer.Base.{
  ℕ, suc, ◌+◌, ◌*◌, ◌/◌, ◌%◌, ◌<◌, ◌≡◌, refl, sym, ◌∙◌, subst, ◌⊎◌, inl, inr, Bool, true, false,
  ◌&&◌, ◌||◌, some, List, [], ◌∷◌, Text, ◌==◌, length, All, arith, Bool-cases,
}
use p2p_transfer.Shared.Base64.{
  base64_index, is_base64_char, is_full_group, is_padded_group, matches_base64, low_bits_clear,
  clear_end, has_canonical_base64_padding,
}
use p2p_transfer.Shared.Base64.Encoding.{encode, IsByte, index_of, Group, group, canonical_step}

-- A group of characters, and the bytes that it encodes.
pub data Decoded (s : Text) : Type 0 where
  decoded : (bytes : List ℕ) → All IsByte bytes → encode bytes ≡ s → Decoded s

regroup :
    (i j k l : ℕ)
    → i < 64
    → j < 64
    → k < 64
    → l < 64
    → let x = i * 4 + j / 16 in
      let y = j % 16 * 16 + k / 4 in
      let z = k % 4 * 64 + l in
      IsByte x
      × IsByte y
      × IsByte z
      × (x / 4 ≡ i)
      × (x % 4 * 16 + y / 16 ≡ j)
      × (y % 16 * 4 + z / 64 ≡ k)
      × (z % 64 ≡ l)
regroup i j k l p q r t =
    (omega arith, omega arith, omega arith, omega arith, omega arith, omega arith, omega arith)

Decoded-full :
    (a b c d : ℕ) (s : Text)
    → is_full_group a b c d ≡ true
    → Decoded s
    → Decoded (a ∷ b ∷ c ∷ d ∷ s)
unfolding is_full_group encode
Decoded-full a b c d s h (decoded bytes all eq) =
    let (i, i64, ie, _) = index_of a (ground arith) in
    let (j, j64, je, _) = index_of b (ground arith) in
    let (k, k64, ke, _) = index_of c (ground arith) in
    let (l, l64, le, _) = index_of d (ground arith) in
    let (x, y, z, xi, yj, zk, zl) = regroup i j k l i64 j64 k64 l64 in
    decoded ((i * 4 + j / 16) ∷ (j % 16 * 16 + k / 4) ∷ (k % 4 * 64 + l) ∷ bytes) (x, (y, (z, all)))
      (rw (xi, yj, zk, zl, eq, ie, je, ke, le))

-- The low bits of a number that the end of the text fixes.
clear_of :
    (c n mask : ℕ) → base64_index c ≡ some n → low_bits_clear mask c ≡ true → (n % mask == 0) ≡ true
unfolding low_bits_clear
clear_of c n mask e h = simp (low_bits_clear, e) at h

regroup_two :
    (i j k : ℕ)
    → i < 64
    → j < 64
    → k < 64
    → k % 4 ≡ 0
    → let x = i * 4 + j / 16 in
      let y = j % 16 * 16 + k / 4 in
      IsByte x × IsByte y × (x / 4 ≡ i) × (x % 4 * 16 + y / 16 ≡ j) × (y % 16 * 4 ≡ k)
regroup_two i j k p q r e = (omega arith, omega arith, omega arith, omega arith, omega arith)

Decoded-two :
    (a b c : ℕ)
    → is_base64_char a ≡ true
    → is_base64_char b ≡ true
    → is_base64_char c ≡ true
    → low_bits_clear 4 c ≡ true
    → Decoded (a ∷ b ∷ c ∷ 61 ∷ [])
unfolding encode
Decoded-two a b c ha hb hc h =
    let (i, i64, ie, _) = index_of a ha in
    let (j, j64, je, _) = index_of b hb in
    let (k, k64, ke, ki) = index_of c hc in
    let (x, y, xi, yj, zk) = regroup_two i j k i64 j64 k64 (ground (arith, clear_of c k 4 ki h)) in
    decoded ((i * 4 + j / 16) ∷ (j % 16 * 16 + k / 4) ∷ []) (x, (y, tt))
      (rw (xi, yj, zk, ie, je, ke))

regroup_one :
    (i j : ℕ)
    → i < 64
    → j < 64
    → j % 16 ≡ 0
    → let x = i * 4 + j / 16 in IsByte x × (x / 4 ≡ i) × (x % 4 * 16 ≡ j)
regroup_one i j p q e = (omega arith, omega arith, omega arith)

Decoded-one :
    (a b : ℕ)
    → is_base64_char a ≡ true
    → is_base64_char b ≡ true
    → low_bits_clear 16 b ≡ true
    → Decoded (a ∷ b ∷ 61 ∷ 61 ∷ [])
unfolding encode
Decoded-one a b ha hb h =
    let (i, i64, ie, _) = index_of a ha in
    let (j, j64, je, ji) = index_of b hb in
    let (x, xi, yj) = regroup_one i j i64 j64 (ground (arith, clear_of b j 16 ji h)) in
    decoded ((i * 4 + j / 16) ∷ []) (x, tt) (rw (xi, yj, ie, je))

Decoded-nil : Decoded []
unfolding encode
Decoded-nil = decoded [] tt refl

char-ne-pad : (c : ℕ) → is_base64_char c ≡ true → (c == 61) ≡ false
unfolding is_base64_char
char-ne-pad c h = ground arith

-- The last group.
last_group :
    (a b c d : ℕ)
    → matches_base64 (a ∷ b ∷ c ∷ d ∷ []) ≡ true
    → is_full_group a b c d ≡ false
    → (is_base64_char a ≡ true)
      × (is_base64_char b ≡ true)
      × (d ≡ 61)
      × ((c ≡ 61) ⊎ (is_base64_char c ≡ true))
unfolding matches_base64 is_padded_group
last_group a b c d h partial = ground arith

pad_clear :
    (a b : ℕ)
    → has_canonical_base64_padding (a ∷ b ∷ 61 ∷ 61 ∷ []) ≡ true
    → low_bits_clear 16 b ≡ true
unfolding has_canonical_base64_padding clear_end
pad_clear a b h = h

last_clear :
    (a b c : ℕ)
    → has_canonical_base64_padding (a ∷ b ∷ c ∷ 61 ∷ []) ≡ true
    → (c == 61) ≡ false
    → low_bits_clear 4 c ≡ true
unfolding has_canonical_base64_padding clear_end
last_clear a b c h third = simp third at h

Decoded-last :
    (a b c d : ℕ)
    → matches_base64 (a ∷ b ∷ c ∷ d ∷ []) ≡ true
    → has_canonical_base64_padding (a ∷ b ∷ c ∷ d ∷ []) ≡ true
    → Decoded (a ∷ b ∷ c ∷ d ∷ [])
Decoded-last a b c d h k = elim (Bool-cases (is_full_group a b c d)) [
  | inl full ↦ Decoded-full a b c d [] full Decoded-nil
  | inr partial ↦
      let (ha, hb, hd, hc) = last_group a b c d h partial in
      let ends = subst (λ e. has_canonical_base64_padding (a ∷ b ∷ c ∷ e ∷ []) ≡ true) hd k in
      elim hc [
        | inl pad ↦
            rw (hd, pad)
              (Decoded-one a b ha hb (
                pad_clear a b (
                  subst (λ e. has_canonical_base64_padding (a ∷ b ∷ e ∷ 61 ∷ []) ≡ true) pad ends)))
        | inr third ↦
            rw hd (Decoded-two a b c ha hb third (last_clear a b c ends (char-ne-pad c third)))
      ]
]

both_of :
    (full more : Bool) (n : ℕ) (pad : Bool)
    → ((full && more) || (suc n == 0 && pad)) ≡ true
    → (full ≡ true) × (more ≡ true)
both_of full more n pad h = ground arith

-- A group before others is full, and they are a group at least.
more_groups :
    (a b c d e : ℕ) (s : Text)
    → matches_base64 (a ∷ b ∷ c ∷ d ∷ e ∷ s) ≡ true
    → (is_full_group a b c d ≡ true) × (matches_base64 (e ∷ s) ≡ true)
unfolding matches_base64
more_groups a b c d e s h =
    both_of (is_full_group a b c d) (matches_base64 (e ∷ s)) (length s) (is_padded_group a b c d) h

Group-matches : (e : ℕ) (s : Text) → matches_base64 (e ∷ s) ≡ true → Group (e ∷ s)
unfolding matches_base64
Group-matches e [] h = cc
Group-matches e (f ∷ []) h = cc
Group-matches e (f ∷ g ∷ []) h = cc
Group-matches e (f ∷ g ∷ i ∷ s) h = group e f g i s refl

no_short : (a : ℕ) (s : Text) → matches_base64 (a ∷ s) ≡ true → length s < 3 → ⊥
unfolding matches_base64
no_short a [] h k = cc
no_short a (b ∷ []) h k = cc
no_short a (b ∷ c ∷ []) h k = cc
no_short a (b ∷ c ∷ d ∷ s) h k = omega arith

pub decode :
    (s : Text) → matches_base64 s ≡ true → has_canonical_base64_padding s ≡ true → Decoded s
decode [] h k = Decoded-nil
decode (a ∷ b ∷ c ∷ d ∷ []) h k = Decoded-last a b c d h k
decode (a ∷ b ∷ c ∷ d ∷ e ∷ s) h k =
    let (full, more) = more_groups a b c d e s h in
    Decoded-full a b c d (e ∷ s) full
      (decode (e ∷ s) more (sym (canonical_step a b c d (e ∷ s) (Group-matches e s more)) ∙ k))
decode (a ∷ []) h k = elim (no_short a [] h (omega arith)) [ ]
decode (a ∷ b ∷ []) h k = elim (no_short a (b ∷ []) h (omega arith)) [ ]
decode (a ∷ b ∷ c ∷ []) h k = elim (no_short a (b ∷ c ∷ []) h (omega arith)) [ ]
