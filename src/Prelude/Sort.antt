-- ===== src/Prelude/Sort.antt =====
-- What `std::sort` gives under a strict weak order, and where the members of a list go.
use Prim.Native.Nat.{suc, ◌<◌}
use mathlib.Core.Path.{◌≡◌, refl, ap, ◌∙◌}
use mathlib.Core.Logic.{inl, inr}
use mathlib.Core.Bool.{Bool, true, false}
use mathlib.Core.List.{List, [], ◌∷◌, map, Memᴰ}
use mathlib.Core.List.Memᴰ.{head, tail}
use native.Mathlib.Omega.{arith}
use sih.Prelude.Tests.{if◌then◌else◌, Bool-cases}
use sih.Prelude.Lists.{length, length-filter, All, All-impl, Pairwise, filter}

module _ {ℓ} {A : Type ℓ} where
  pub All-of_Mem {κ} : (P : A → Type κ) (xs : List A) → ((a : A) → Memᴰ a xs → P a) → All P xs
  All-of_Mem P [] f = tt
  All-of_Mem P (x ∷ xs) f = (f x (head refl), All-of_Mem P xs (λ a m. f a (tail m)))

  pub All-Mem {κ} : (P : A → Type κ) (xs : List A) (a : A) → All P xs → Memᴰ a xs → P a
  All-Mem P [] a h m = elim m [ ]
  All-Mem P (x ∷ xs) a h (head e) = rw e h.0
  All-Mem P (x ∷ xs) a h (tail m) = All-Mem P xs a h.1 m

  pub Mem-filter :
      (p : A → Bool) (xs : List A) (a : A) → Memᴰ a (filter p xs) → Memᴰ a xs × (p a ≡ true)
  Mem-filter p [] a m = elim m [ ]
  Mem-filter p (x ∷ xs) a m = elim (Bool-cases (p x)) [
    | inl t ↦ elim (rw (t, filter) at m) [
      | head e ↦ (head e, rw e t)
      | tail n ↦ let (there, h) = Mem-filter p xs a n in (tail there, h)
    ]
    | inr f ↦ let (there, h) = Mem-filter p xs a (rw (f, filter) at m) in (tail there, h)
  ]

  pub Mem-filter_of :
      (p : A → Bool) (xs : List A) (a : A) → Memᴰ a xs → p a ≡ true → Memᴰ a (filter p xs)
  Mem-filter_of p [] a m h = elim m [ ]
  Mem-filter_of p (x ∷ xs) a (head e) h = let t : p x ≡ true = rw e at h in rw (t, filter) (head e)
  Mem-filter_of p (x ∷ xs) a (tail m) h = elim (Bool-cases (p x)) [
    | inl t ↦ rw (t, filter) (tail (Mem-filter_of p xs a m h))
    | inr f ↦ rw (f, filter) (Mem-filter_of p xs a m h)
  ]

  pub length-filter_lt :
      (p : A → Bool) (xs : List A) (a : A)
      → Memᴰ a xs
      → p a ≡ false
      → length (filter p xs) < length xs
  length-filter_lt p [] a m h = elim m [ ]
  length-filter_lt p (x ∷ xs) a (head e) h =
      let f : p x ≡ false = rw e at h in rw (f, filter) (omega (arith, length-filter p xs))
  length-filter_lt p (x ∷ xs) a (tail m) h = ground (arith, length-filter_lt p xs a m h)

pub Mem-map {ℓ κ} :
    {A : Type ℓ} {B : Type κ} (f : A → B) (xs : List A) (a : A) → Memᴰ a xs → Memᴰ (f a) (map f xs)
Mem-map f [] a m = elim m [ ]
Mem-map f (x ∷ xs) a (head e) = head (ap f e)
Mem-map f (x ∷ xs) a (tail m) = tail (Mem-map f xs a m)

pub All-map {ℓ κ ι} :
    {A : Type ℓ} {B : Type κ} (f : A → B) (P : B → Type ι) (xs : List A)
    → All (λ a. P (f a)) xs
    → All P (map f xs)
All-map f P [] h = tt
All-map f P (x ∷ xs) h = (h.0, All-map f P xs h.1)

module _ {ℓ} {A : Type ℓ} (before : A → A → Bool) where
  -- The new element behind those before it and in front of its equals.
  unfoldable pub insert_sorted : A → List A → List A
  insert_sorted x [] = x ∷ []
  insert_sorted x (y ∷ ys) = if before y x then y ∷ insert_sorted x ys else x ∷ y ∷ ys

  unfoldable pub sort : List A → List A
  sort [] = []
  sort (x ∷ xs) = insert_sorted x (sort xs)

  -- A strict weak order: `not before` is total and transitive.
  pub record IsWeakOrder : Type ℓ where
    pub asym : (a b : A) → before a b ≡ true → before b a ≡ false
    pub skips : (a b c : A) → before b a ≡ false → before c b ≡ false → before c a ≡ false

  -- None of the elements behind one goes before it.
  abbrev pub Sorted : List A → Type 0
  Sorted = Pairwise (λ a b. before b a ≡ false)

  insert_sorted-All {κ} :
      (P : A → Type κ) (x : A) (xs : List A) → P x → All P xs → All P (insert_sorted x xs)
  unfolding insert_sorted
  insert_sorted-All P x [] p ps = (p, tt)
  insert_sorted-All P x (y ∷ ys) p ps = elim (Bool-cases (before y x)) [
    | inl t ↦ rw t (ps.0, insert_sorted-All P x ys p ps.1)
    | inr f ↦ rw f (p, ps)
  ]

  insert_sorted-Sorted :
      (x : A) (xs : List A) → IsWeakOrder → Sorted xs → Sorted (insert_sorted x xs)
  unfolding insert_sorted
  insert_sorted-Sorted x [] o s = (tt, tt)
  insert_sorted-Sorted x (y ∷ ys) o s = elim (Bool-cases (before y x)) [
    | inl t ↦ rw t (
      insert_sorted-All (λ b. before b y ≡ false) x ys (o.asym y x t) s.0,
      insert_sorted-Sorted x ys o s.1,
    )
    | inr f ↦ rw f ((f, All-impl _ _ ys (λ b. o.skips x y b f) s.0), s)
  ]

  pub sort-Sorted : (xs : List A) → IsWeakOrder → Sorted (sort xs)
  unfolding sort
  sort-Sorted [] o = tt
  sort-Sorted (x ∷ xs) o = insert_sorted-Sorted x (sort xs) o (sort-Sorted xs o)

  Mem-insert_sorted : (x : A) (xs : List A) (a : A) → Memᴰ a (x ∷ xs) → Memᴰ a (insert_sorted x xs)
  unfolding insert_sorted
  Mem-insert_sorted x [] a m = m
  Mem-insert_sorted x (y ∷ ys) a m = elim (Bool-cases (before y x)) [
    | inl t ↦ rw t (elim m [
      | head e ↦ tail (Mem-insert_sorted x ys a (head e))
      | tail n ↦ elim n [ head e ↦ head e | tail o ↦ tail (Mem-insert_sorted x ys a (tail o)) ]
    ])
    | inr f ↦ rw f m
  ]

  Mem_of-insert_sorted :
      (x : A) (xs : List A) (a : A) → Memᴰ a (insert_sorted x xs) → Memᴰ a (x ∷ xs)
  unfolding insert_sorted
  Mem_of-insert_sorted x [] a m = m
  Mem_of-insert_sorted x (y ∷ ys) a m = elim (Bool-cases (before y x)) [
    | inl t ↦ elim (rw t at m) [
      | head e ↦ tail (head e)
      | tail n ↦ elim (Mem_of-insert_sorted x ys a n) [ head e ↦ head e | tail o ↦ tail (tail o) ]
    ]
    | inr f ↦ rw f at m
  ]

  pub Mem-sort : (xs : List A) (a : A) → Memᴰ a xs → Memᴰ a (sort xs)
  unfolding sort
  Mem-sort [] a m = m
  Mem-sort (x ∷ xs) a (head e) = Mem-insert_sorted x (sort xs) a (head e)
  Mem-sort (x ∷ xs) a (tail m) = Mem-insert_sorted x (sort xs) a (tail (Mem-sort xs a m))

  pub Mem_of-sort : (xs : List A) (a : A) → Memᴰ a (sort xs) → Memᴰ a xs
  unfolding sort
  Mem_of-sort [] a m = m
  Mem_of-sort (x ∷ xs) a m = elim (Mem_of-insert_sorted x (sort xs) a m) [
    | head e ↦ head e
    | tail n ↦ tail (Mem_of-sort xs a n)
  ]

  length-insert_sorted : (x : A) (xs : List A) → length (insert_sorted x xs) ≡ suc (length xs)
  unfolding insert_sorted
  length-insert_sorted x [] = refl
  length-insert_sorted x (y ∷ ys) = ground (arith, length-insert_sorted x ys)

  pub length-sort : (xs : List A) → length (sort xs) ≡ length xs
  unfolding sort
  length-sort [] = refl
  length-sort (x ∷ xs) = length-insert_sorted x (sort xs) ∙ ap suc (length-sort xs)
