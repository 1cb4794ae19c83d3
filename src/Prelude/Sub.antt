-- ===== src/Prelude/Sub.antt =====
-- Lists with some elements left out.
use mathlib.Core.Path.{◌≡◌, refl}
use mathlib.Core.Bool.{Bool}
use mathlib.Core.List.{List, [], ◌∷◌, ◌++◌, map}
use sih.Prelude.Tests.{Bool-cases}
use mathlib.Core.Logic.{inl, inr}
use sih.Prelude.Lists.{length, All, Pairwise, filter}
use Prim.Native.Nat.{◌≤◌}
use native.Mathlib.Omega.{arith}

-- The first list is the second with some elements left out.
pub data Sub {ℓ} {L : Type ℓ} : List L → List L → Type ℓ where
  stop : Sub [] []
  keep : {x : L} {xs ys : List L} → Sub xs ys → Sub (x ∷ xs) (x ∷ ys)
  skip : {x : L} {xs ys : List L} → Sub xs ys → Sub xs (x ∷ ys)

pub Sub-refl {ℓ} : {L : Type ℓ} (xs : List L) → Sub xs xs
Sub-refl [] = stop
Sub-refl (x ∷ xs) = keep (Sub-refl xs)

pub Sub-prefix {ℓ} :
    {L : Type ℓ} {xs ys : List L} (before : List L) → Sub xs ys → Sub (before ++ xs) (before ++ ys)
Sub-prefix [] s = s
Sub-prefix (x ∷ before) s = keep (Sub-prefix before s)

pub Sub-nil {ℓ} : {L : Type ℓ} {xs : List L} → Sub xs [] → xs ≡ []
Sub-nil stop = refl

module _ {ℓ} {L : Type ℓ} where
  pub Sub-All {κ} : (P : L → Type κ) {xs ys : List L} → Sub xs ys → All P ys → All P xs
  Sub-All P stop h = h
  Sub-All P (keep s) h = (h.0, Sub-All P s h.1)
  Sub-All P (skip s) h = Sub-All P s h.1

  pub Sub-Pairwise {κ} :
      (R : L → L → Type κ) {xs ys : List L} → Sub xs ys → Pairwise R ys → Pairwise R xs
  Sub-Pairwise R stop h = h
  Sub-Pairwise R (keep {x} s) h = (Sub-All (R x) s h.0, Sub-Pairwise R s h.1)
  Sub-Pairwise R (skip s) h = Sub-Pairwise R s h.1

  pub Sub-length : {xs ys : List L} → Sub xs ys → length xs ≤ length ys
  Sub-length stop = omega arith
  Sub-length (keep s) = omega (arith, Sub-length s)
  Sub-length (skip s) = omega (arith, Sub-length s)

  pub Sub-filter : (p : L → Bool) (xs : List L) → Sub (filter p xs) xs
  Sub-filter p [] = stop
  Sub-filter p (x ∷ xs) = elim (Bool-cases (p x)) [
    | inl t ↦ rw (t, filter) (keep (Sub-filter p xs))
    | inr f ↦ rw (f, filter) (skip (Sub-filter p xs))
  ]

pub Sub-map {ℓ κ} :
    {A : Type ℓ} {B : Type κ} (f : A → B) {xs ys : List A} → Sub xs ys → Sub (map f xs) (map f ys)
Sub-map f stop = stop
Sub-map f (keep s) = keep (Sub-map f s)
Sub-map f (skip s) = skip (Sub-map f s)
