-- ===== src/Base/Maps.antt =====
-- JavaScript's Map as an association list in insertion order: `set` on a present key keeps its
-- place, on an absent key it appends, and `delete` removes the key.
use Prim.Native.Nat.{ℕ, suc, ◌≤◌, ◌<◌}
use mathlib.Core.Path.{◌≡◌, refl, subst}
use mathlib.Core.Logic.{◌↔◌, ◌⊎◌, inl, inr}
use mathlib.Core.Bool.{Bool, true, false, ◌&&◌}
use mathlib.Core.List.{List, [], ◌∷◌}
use mathlib.Core.Option.{Option, none, some}
use native.Mathlib.Omega.{arith}
use p2p_transfer.Base.Tests.{◌==◌, ==_iff, if◌then◌else◌}
use p2p_transfer.Base.Lists.{length}

-- Keys are compared by a test that decides equality.
pub record Eq {ℓ} (A : Type ℓ) : Type ℓ where
  pub beq : A → A → Bool
  pub beq_iff : (a b : A) → (beq a b ≡ true) ↔ (a ≡ b)

instance abbrev pub nat_eq : Eq ℕ
nat_eq = record { beq = ◌==◌; beq_iff = ==_iff }

-- Text is a list of UTF-16 code units.
abbrev pub Text : Type 0
Text = List ℕ

abbrev pub same_text : Text → Text → Bool
same_text [] [] = true
same_text [] (_ ∷ _) = false
same_text (_ ∷ _) [] = false
same_text (a ∷ s) (b ∷ t) = a == b && same_text s t

pub same_text_iff : (s t : Text) → (same_text s t ≡ true) ↔ (s ≡ t)
same_text_iff [] [] = (λ _. refl, λ _. refl)
same_text_iff [] (b ∷ t) = (λ e. cc, λ e. cc)
same_text_iff (a ∷ s) [] = (λ e. cc, λ e. cc)
same_text_iff (a ∷ s) (b ∷ t) =
    (λ e. ground (arith, same_text_iff s t), λ e. ground (arith, same_text_iff s t))

instance abbrev pub text_eq : Eq Text
text_eq = record { beq = same_text; beq_iff = same_text_iff }

abbrev pub Map : Type 0 → Type 0 → Type 0
Map K V = List (K × V)

pub beq_refl : {K : Type 0} ⦃e : Eq K⦄ (k : K) → e.beq k k ≡ true
beq_refl ⦃e⦄ k = (e.beq_iff k k).1 refl

abbrev pub size : {K V : Type 0} → Map K V → ℕ
size = length

module _ {K V : Type 0} ⦃e : Eq K⦄ where
  unfoldable pub lookup : K → Map K V → Option V
  lookup k [] = none
  lookup k ((j, v) ∷ m) = if e.beq j k then some v else lookup k m

  unfoldable pub insert : K → V → Map K V → Map K V
  insert k v [] = (k, v) ∷ []
  insert k v ((j, w) ∷ m) = if e.beq j k then (j, v) ∷ m else (j, w) ∷ insert k v m

  unfoldable pub remove : K → Map K V → Map K V
  remove k [] = []
  remove k ((j, v) ∷ m) = if e.beq j k then remove k m else (j, v) ∷ remove k m

  pub lookup-insert :
      (k j : K) (v : V) (m : Map K V)
      → lookup j (insert k v m) ≡ (if e.beq k j then some v else lookup j m)
  unfolding lookup insert
  lookup-insert k j v [] = refl
  lookup-insert k j v ((i, w) ∷ m) =
      ground (arith, e.beq_iff k j, e.beq_iff i k, e.beq_iff i j, lookup-insert k j v m)

  pub lookup-remove :
      (k j : K) (m : Map K V) → lookup j (remove k m) ≡ (if e.beq k j then none else lookup j m)
  unfolding lookup remove
  lookup-remove k j [] = ground arith
  lookup-remove k j ((i, w) ∷ m) =
      ground (arith, e.beq_iff k j, e.beq_iff i k, e.beq_iff i j, lookup-remove k j m)

  pub lookup-insert_self : (k : K) (v : V) (m : Map K V) → lookup k (insert k v m) ≡ some v
  lookup-insert_self k v m = rw (lookup-insert k k v m, beq_refl k)

  pub lookup-remove_self : (k : K) (m : Map K V) → lookup k (remove k m) ≡ none
  lookup-remove_self k m = rw (lookup-remove k k m, beq_refl k)

  pub size-remove-le : (k : K) (m : Map K V) → size (remove k m) ≤ size m
  unfolding remove
  size-remove-le k [] = omega arith
  size-remove-le k ((j, v) ∷ m) = ground (arith, size-remove-le k m)

  pub size-remove-lt :
      (k : K) (m : Map K V) (v : V) → lookup k m ≡ some v → size (remove k m) < size m
  unfolding lookup remove
  size-remove-lt k [] v h = cc
  size-remove-lt k ((j, w) ∷ m) v h = ground (arith, size-remove-le k m, size-remove-lt k m v)

  pub size-insert-le : (k : K) (v : V) (m : Map K V) → size (insert k v m) ≤ suc (size m)
  unfolding insert
  size-insert-le k v [] = omega arith
  size-insert-le k v ((j, w) ∷ m) = ground (arith, size-insert-le k v m)

  pub size-insert_old :
      (k : K) (v w : V) (m : Map K V) → lookup k m ≡ some w → size (insert k v m) ≡ size m
  unfolding insert lookup
  size-insert_old k v w [] h = cc
  size-insert_old k v w ((j, u) ∷ m) h = ground (arith, size-insert_old k v w m)

module _ {K V : Type 0} ⦃e : Eq K⦄ where
  pub lookup-insert-some :
      (k j : K) (v w : V) (m : Map K V)
      → lookup j (insert k v m) ≡ some w
      → ((k ≡ j) × (v ≡ w)) ⊎ (lookup j m ≡ some w)
  lookup-insert-some k j v w m h = ground (arith, lookup-insert k j v m, e.beq_iff k j)

  pub lookup-remove-some :
      (k j : K) (w : V) (m : Map K V) → lookup j (remove k m) ≡ some w → lookup j m ≡ some w
  lookup-remove-some k j w m h = ground (arith, lookup-remove k j m)

  -- Every entry that a lookup finds has a property.
  abbrev pub Every {ℓ} : (K → V → Type ℓ) → Map K V → Type ℓ
  Every P m = (k : K) (v : V) → lookup k m ≡ some v → P k v

  pub Every-remove {ℓ} :
      (P : K → V → Type ℓ) (k : K) (m : Map K V) → Every P m → Every P (remove k m)
  Every-remove P k m h j w found = h j w (lookup-remove-some k j w m found)

  pub Every-insert {ℓ} :
      (P : K → V → Type ℓ) (k : K) (v : V) (m : Map K V)
      → P k v
      → Every P m
      → Every P (insert k v m)
  Every-insert P k v m p h j w found = elim (lookup-insert-some k j v w m found) [
    | inl (same, value) ↦ subst (λ i. P i w) same (subst (P k) value p)
    | inr old ↦ h j w old
  ]
