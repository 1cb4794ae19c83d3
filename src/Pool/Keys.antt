-- ===== src/Pool/Keys.antt =====
-- Assignments are compared by value, and `hamming` is a distance on them.
use sih.Prelude.{◌+◌, ◌≤◌, ◌≡◌, ◌↔◌, true, List, [], ◌∷◌, refl, arith, length}
use sih.Prelude.Int.{ℤ, ℤ_eq_iff}
use sih.Pool.{same_key, hamming}

pub same_key_iff : (a b : List ℤ) → (same_key a b ≡ true) ↔ (a ≡ b)
unfolding same_key
same_key_iff [] [] = ground arith
same_key_iff [] (y ∷ b) = ground arith
same_key_iff (x ∷ a) [] = ground arith
same_key_iff (x ∷ a) (y ∷ b) = ground (arith, ℤ_eq_iff x y, same_key_iff a b)

pub same_key_sym : (a b : List ℤ) → same_key a b ≡ same_key b a
same_key_sym a b = ground (arith, same_key_iff a b, same_key_iff b a)

hamming_sym : (a b : List ℤ) → hamming a b ≡ hamming b a
unfolding hamming
hamming_sym [] [] = refl
hamming_sym [] (y ∷ b) = refl
hamming_sym (x ∷ a) [] = refl
hamming_sym (x ∷ a) (y ∷ b) = ground (arith, ℤ_eq_iff x y, ℤ_eq_iff y x, hamming_sym a b)

hamming-zero : (a b : List ℤ) → (hamming a b ≡ 0) ↔ (a ≡ b)
unfolding hamming
hamming-zero [] [] = ground arith
hamming-zero [] (y ∷ b) = ground arith
hamming-zero (x ∷ a) [] = ground arith
hamming-zero (x ∷ a) (y ∷ b) = ground (arith, ℤ_eq_iff x y, hamming-zero a b)

hamming-nil : (a : List ℤ) → hamming a [] ≡ length a
unfolding hamming
hamming-nil [] = refl
hamming-nil (x ∷ a) = refl

hamming_triangle : (a b c : List ℤ) → hamming a c ≤ hamming a b + hamming b c
unfolding hamming
hamming_triangle [] [] c = omega arith
hamming_triangle [] (y ∷ b) [] = omega arith
hamming_triangle [] (y ∷ b) (z ∷ c) = ground (arith, hamming_triangle [] b c)
hamming_triangle (x ∷ a) [] [] = omega arith
hamming_triangle (x ∷ a) [] (z ∷ c) = ground (arith, hamming_triangle a [] c, hamming-nil a)
hamming_triangle (x ∷ a) (y ∷ b) [] =
    ground (arith, hamming_triangle a b [], hamming-nil a, hamming-nil b)
hamming_triangle (x ∷ a) (y ∷ b) (z ∷ c) =
    ground (arith, ℤ_eq_iff x y, ℤ_eq_iff y z, ℤ_eq_iff x z, hamming_triangle a b c)

-- `hamming` is a metric on assignments of any lengths, and zero exactly where the pool's own
-- comparison of keys says that they are one plan.
pub hamming_metric :
    (a b c : List ℤ)
    → ((hamming a b ≡ 0) ↔ (same_key a b ≡ true))
      × (hamming a b ≡ hamming b a)
      × (hamming a c ≤ hamming a b + hamming b c)
hamming_metric a b c =
    (ground (arith, hamming-zero a b, same_key_iff a b), hamming_sym a b, hamming_triangle a b c)
