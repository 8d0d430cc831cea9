-- ===== src/Base/Covers.antt =====
-- Maps whose keys are distinct, and when such a map has the keys of another.
use Prim.Native.Nat.{ℕ, suc, ◌≤◌}
use mathlib.Core.Path.{◌≡◌, refl, sym, ◌∙◌, subst}
use mathlib.Core.Logic.{inl, inr}
use mathlib.Core.List.{[], ◌∷◌}
use mathlib.Core.Option.{none, some}
use native.Mathlib.Omega.{arith}
use p2p_transfer.Base.Tests.{Bool-cases}
use p2p_transfer.Base.Maps.{
  Eq, Map, lookup, insert, remove, size, lookup-insert, lookup-remove, size-remove-lt,
}

module _ {K V : Type 0} ⦃e : Eq K⦄ where
  abbrev pub IsDistinct : Map K V → Type 0
  IsDistinct [] = Unit
  IsDistinct ((k, v) ∷ m) = (lookup k m ≡ none) × IsDistinct m

  pub IsDistinct-insert : (k : K) (v : V) (m : Map K V) → IsDistinct m → IsDistinct (insert k v m)
  unfolding insert lookup
  IsDistinct-insert k v [] h = (refl, tt)
  IsDistinct-insert k v ((j, w) ∷ m) (absent, h) = elim (Bool-cases (e.beq j k)) [
    | inl same ↦ rw same (absent, h)
    | inr apart ↦ rw apart (
      ground (arith, lookup-insert k j v m, e.beq_iff j k, e.beq_iff k j),
      IsDistinct-insert k v m h,
    )
  ]

module _ {K V W : Type 0} ⦃e : Eq K⦄ where
  -- A map whose keys are all in another one that is not larger has the keys of the other one.
  pub lookup_covers :
      (m : Map K V) (n : Map K W)
      → IsDistinct m
      → size n ≤ size m
      → ((k : K) (v : V) → lookup k m ≡ some v → (w : W) × (lookup k n ≡ some w))
      → (k : K) (w : W) → lookup k n ≡ some w
      → (v : V) × (lookup k m ≡ some v)
  unfolding lookup
  lookup_covers [] [] d le h k w found = ground arith
  lookup_covers [] (x ∷ n) d le h k w found = elim (no_room (size n) le) [ ]
    where
      no_room : (a : ℕ) → suc a ≤ 0 → ⊥
      no_room a le = omega arith
  lookup_covers ((j, v) ∷ m) n (absent, d) le h k w found =
      let (x, there) = h j v (rw ((e.beq_iff j j).1 refl) refl) in
      let less = size-remove-lt j n x there in
      let inside : (i : K) (u : V)
          → lookup i m ≡ some u
          → (y : W) × (lookup i (remove j n) ≡ some y) =
        λ i u at. elim (Bool-cases (e.beq j i)) [
          | inl same ↦
              elim (absurd_none
                (sym (subst (λ a. lookup a m ≡ none) ((e.beq_iff j i).0 same) absent) ∙ at)) [ ]
          | inr apart ↦ let (y, is) = h i u (rw apart at) in (y, lookup-remove j i n ∙ rw apart is)
        ] in
      elim (Bool-cases (e.beq j k)) [
        | inl same ↦ (v, rw same refl)
        | inr apart ↦
            let (u, at) =
              lookup_covers m (remove j n) d (omega (arith, less, le)) inside k w
                (lookup-remove j k n ∙ rw apart found) in
            (u, rw apart at)
      ]
    where
      absurd_none : {A : Type 0} {a : A} → none ≡ some a → ⊥
      absurd_none h = cc
