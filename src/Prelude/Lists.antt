-- ===== src/Prelude/Lists.antt =====
-- Lists measured and indexed by native numbers, under the library's names.
use Prim.Native.Nat.{ℕ, zero, suc, ◌+◌, ◌<◌, ◌≤◌}
use mathlib.Core.Path.{◌≡◌, refl, ap}
use mathlib.Core.Logic.{◌≢◌, ◌⊎◌}
use sih.Prelude.Tests.{◌==◌, if◌then◌else◌}
use mathlib.Core.Bool.{Bool, true, false}
use mathlib.Core.List.{List, [], ◌∷◌, ◌++◌, map}
use mathlib.Core.Option.{Option, none, some}
use native.Mathlib.Omega.{arith}

module _ {ℓ} {A : Type ℓ} where
  abbrev pub length : List A → ℕ
  length [] = 0
  length (x ∷ xs) = suc (length xs)

  abbrev pub get_elem? : List A → ℕ → Option A
  get_elem? [] i = none
  get_elem? (x ∷ xs) zero = some x
  get_elem? (x ∷ xs) (suc i) = get_elem? xs i

  abbrev pub get_or : List A → ℕ → A → A
  get_or [] i d = d
  get_or (x ∷ xs) zero d = x
  get_or (x ∷ xs) (suc i) d = get_or xs i d

  -- A write out of bounds changes nothing.
  abbrev pub set : List A → ℕ → A → List A
  set [] i v = []
  set (x ∷ xs) zero v = v ∷ xs
  set (x ∷ xs) (suc i) v = x ∷ set xs i v

  abbrev pub replicate : ℕ → A → List A
  replicate zero a = []
  replicate (suc n) a = a ∷ replicate n a

  -- The list without the element at a position; unchanged out of bounds.
  abbrev pub erase_at : List A → ℕ → List A
  erase_at [] i = []
  erase_at (x ∷ xs) zero = xs
  erase_at (x ∷ xs) (suc i) = x ∷ erase_at xs i

  abbrev pub All {κ} : (A → Type κ) → List A → Type κ
  All P [] = Unit
  All P (x ∷ xs) = P x × All P xs

  pub length-append : (xs ys : List A) → length (xs ++ ys) ≡ length xs + length ys
  length-append [] ys = omega arith
  length-append (x ∷ xs) ys = omega (arith, length-append xs ys)

  pub length-set : (xs : List A) (i : ℕ) (v : A) → length (set xs i v) ≡ length xs
  length-set [] i v = refl
  length-set (x ∷ xs) zero v = refl
  length-set (x ∷ xs) (suc i) v = ap suc (length-set xs i v)

  pub length-replicate : (n : ℕ) (a : A) → length (replicate n a) ≡ n
  length-replicate zero a = refl
  length-replicate (suc n) a = ap suc (length-replicate n a)

  pub length-erase_at :
      (xs : List A) (i : ℕ) → i < length xs → suc (length (erase_at xs i)) ≡ length xs
  length-erase_at [] i h = absurd (omega arith)
  length-erase_at (x ∷ xs) zero h = refl
  length-erase_at (x ∷ xs) (suc i) h = ap suc (length-erase_at xs i (omega arith))

  pub All-append {κ} : (P : A → Type κ) (xs ys : List A) → All P xs → All P ys → All P (xs ++ ys)
  All-append P [] ys _ q = q
  All-append P (x ∷ xs) ys (p, ps) q = (p, All-append P xs ys ps q)

  pub All-split {κ} : (P : A → Type κ) (xs ys : List A) → All P (xs ++ ys) → All P xs × All P ys
  All-split P [] ys h = (tt, h)
  All-split P (x ∷ xs) ys (p, ps) = let (l, r) = All-split P xs ys ps in ((p, l), r)

  pub All-erase_at {κ} : (P : A → Type κ) (xs : List A) (i : ℕ) → All P xs → All P (erase_at xs i)
  All-erase_at P [] i h = tt
  All-erase_at P (x ∷ xs) zero h = h.1
  All-erase_at P (x ∷ xs) (suc i) h = (h.0, All-erase_at P xs i h.1)

  pub All-impl {κ ι} :
      (P : A → Type κ) (Q : A → Type ι) (xs : List A) → ((a : A) → P a → Q a) → All P xs → All Q xs
  All-impl P Q [] f h = tt
  All-impl P Q (x ∷ xs) f h = (f x h.0, All-impl P Q xs f h.1)

module _ {ℓ} {A : Type ℓ} where
  -- Every element stands in the relation to each one behind it.
  abbrev pub Pairwise {κ} : (A → A → Type κ) → List A → Type κ
  Pairwise R [] = Unit
  Pairwise R (x ∷ xs) = All (R x) xs × Pairwise R xs

  pub Pairwise-append {κ} :
      (R : A → A → Type κ) (xs ys : List A)
      → Pairwise R xs
      → Pairwise R ys
      → All (λ x. All (R x) ys) xs
      → Pairwise R (xs ++ ys)
  Pairwise-append R [] ys h k c = k
  Pairwise-append R (x ∷ xs) ys h k c =
      (All-append (R x) xs ys h.0 c.0, Pairwise-append R xs ys h.1 k c.1)

  pub Pairwise-erase_at {κ} :
      (R : A → A → Type κ) (xs : List A) (i : ℕ) → Pairwise R xs → Pairwise R (erase_at xs i)
  Pairwise-erase_at R [] i h = tt
  Pairwise-erase_at R (x ∷ xs) zero h = h.1
  Pairwise-erase_at R (x ∷ xs) (suc i) h =
      (All-erase_at (R x) xs i h.0, Pairwise-erase_at R xs i h.1)

module _ {ℓ} {A : Type ℓ} where
  pub get_or-set_self :
      (xs : List A) (i : ℕ) (v d : A) → i < length xs → get_or (set xs i v) i d ≡ v
  get_or-set_self [] i v d h = absurd (omega arith)
  get_or-set_self (x ∷ xs) zero v d h = refl
  get_or-set_self (x ∷ xs) (suc i) v d h = get_or-set_self xs i v d (omega arith)

  pub get_or-set_ne :
      (xs : List A) (i j : ℕ) (v d : A) → i ≢ j → get_or (set xs i v) j d ≡ get_or xs j d
  get_or-set_ne [] i j v d h = refl
  get_or-set_ne (x ∷ xs) zero zero v d h = absurd (h refl)
  get_or-set_ne (x ∷ xs) zero (suc j) v d h = refl
  get_or-set_ne (x ∷ xs) (suc i) zero v d h = refl
  get_or-set_ne (x ∷ xs) (suc i) (suc j) v d h = get_or-set_ne xs i j v d (λ e. h (ap suc e))

  -- Both cases of a write in range, as one equation.
  pub get_or-set :
      (xs : List A) (i j : ℕ) (v d : A)
      → i < length xs
      → get_or (set xs i v) j d ≡ (if i == j then v else get_or xs j d)
  get_or-set [] i j v d h = absurd (omega arith)
  get_or-set (x ∷ xs) zero zero v d h = refl
  get_or-set (x ∷ xs) zero (suc j) v d h = ground arith
  get_or-set (x ∷ xs) (suc i) zero v d h = ground arith
  get_or-set (x ∷ xs) (suc i) (suc j) v d h = ground (arith, get_or-set xs i j v d)

  pub get_or-replicate : (n i : ℕ) (a : A) → get_or (replicate n a) i a ≡ a
  get_or-replicate zero i a = refl
  get_or-replicate (suc n) zero a = refl
  get_or-replicate (suc n) (suc i) a = get_or-replicate n i a

  -- The elements that a Boolean test keeps, in order.
  abbrev pub filter : (A → Bool) → List A → List A
  filter p [] = []
  filter p (x ∷ xs) = elim (p x) [ true ↦ x ∷ filter p xs | false ↦ filter p xs ]

  pub length-filter : (p : A → Bool) (xs : List A) → length (filter p xs) ≤ length xs
  length-filter p [] = omega arith
  length-filter p (x ∷ xs) = ground (arith, length-filter p xs)

  pub All-filter {κ} :
      (P : A → Type κ) (p : A → Bool) (xs : List A) → All P xs → All P (filter p xs)
  All-filter P p [] h = tt
  All-filter P p (x ∷ xs) h = ground (arith, All-filter P p xs h.1)

pub length-map {ℓ κ} :
    {A : Type ℓ} {B : Type κ} (f : A → B) (xs : List A) → length (map f xs) ≡ length xs
length-map f [] = refl
length-map f (x ∷ xs) = ap suc (length-map f xs)

module _ {ℓ} {A : Type ℓ} where
  abbrev pub take : ℕ → List A → List A
  take zero xs = []
  take (suc n) [] = []
  take (suc n) (x ∷ xs) = x ∷ take n xs

  abbrev pub drop : ℕ → List A → List A
  drop zero xs = xs
  drop (suc n) [] = []
  drop (suc n) (x ∷ xs) = drop n xs

  pub take-length : (n : ℕ) (xs : List A) → length xs ≤ n → take n xs ≡ xs
  take-length zero [] h = refl
  take-length zero (x ∷ xs) h = absurd (omega arith)
  take-length (suc n) [] h = refl
  take-length (suc n) (x ∷ xs) h = ap (λ l. x ∷ l) (take-length n xs (omega arith))

  pub take-append : (xs ys : List A) → take (length xs) (xs ++ ys) ≡ xs
  take-append [] ys = refl
  take-append (x ∷ xs) ys = ap (λ l. x ∷ l) (take-append xs ys)

  pub drop-append : (xs ys : List A) → drop (length xs) (xs ++ ys) ≡ ys
  drop-append [] ys = refl
  drop-append (x ∷ xs) ys = drop-append xs ys

  -- A write at the end of a part, and one outside of it.
  pub take-set_end :
      (begin size : ℕ) (xs : List A) (a : A)
      → begin + size < length xs
      → take (suc size) (drop begin (set xs (begin + size) a)) ≡ take size (drop begin xs) ++ a ∷ []
  take-set_end begin size [] a h = absurd (omega arith)
  take-set_end zero zero (x ∷ xs) a h = ground arith
  take-set_end zero (suc size) (x ∷ xs) a h = ground (arith, take-set_end 0 size xs a)
  take-set_end (suc begin) size (x ∷ xs) a h = ground (arith, take-set_end begin size xs a)

  pub take-set_outside :
      (begin size slot : ℕ) (xs : List A) (a : A)
      → (slot < begin) ⊎ (begin + size ≤ slot)
      → take size (drop begin (set xs slot a)) ≡ take size (drop begin xs)
  take-set_outside begin size slot [] a h = refl
  take-set_outside zero zero slot (x ∷ xs) a h = refl
  take-set_outside zero (suc size) zero (x ∷ xs) a h = absurd (ground arith)
  take-set_outside zero (suc size) (suc slot) (x ∷ xs) a h =
      ap (λ l. x ∷ l) (take-set_outside 0 size slot xs a (ground arith))
  take-set_outside (suc begin) size zero (x ∷ xs) a h = refl
  take-set_outside (suc begin) size (suc slot) (x ∷ xs) a h =
      take-set_outside begin size slot xs a (ground arith)

  pub get_or-take : (n i : ℕ) (xs : List A) (d : A) → i < n → get_or (take n xs) i d ≡ get_or xs i d
  get_or-take zero i xs d h = absurd (omega arith)
  get_or-take (suc n) i [] d h = refl
  get_or-take (suc n) zero (x ∷ xs) d h = refl
  get_or-take (suc n) (suc i) (x ∷ xs) d h = get_or-take n i xs d (omega arith)

  pub length-take : (n : ℕ) (xs : List A) → n ≤ length xs → length (take n xs) ≡ n
  length-take zero xs h = refl
  length-take (suc n) [] h = absurd (omega arith)
  length-take (suc n) (x ∷ xs) h = ap suc (length-take n xs (omega arith))

module _ {ℓ} {A : Type ℓ} where
  abbrev pub concat : List (List A) → List A
  concat [] = []
  concat (xs ∷ xss) = xs ++ concat xss

-- `n` numbers from `i` on.
abbrev pub range : ℕ → ℕ → List ℕ
range i zero = []
range i (suc n) = i ∷ range (suc i) n

pub length-range : (i n : ℕ) → length (range i n) ≡ n
length-range i zero = refl
length-range i (suc n) = ap suc (length-range (suc i) n)

module _ {ℓ} {A : Type ℓ} where
  pub get_or-map-range :
      (f : ℕ → A) (i n j : ℕ) (d : A) → j < n → get_or (map f (range i n)) j d ≡ f (i + j)
  get_or-map-range f i zero j d h = absurd (omega arith)
  get_or-map-range f i (suc n) zero d h = ap f (omega arith)
  get_or-map-range f i (suc n) (suc j) d h =
      let moved : suc i + j ≡ i + suc j = omega arith in
      rw moved at (get_or-map-range f (suc i) n j d (omega arith))

  -- Two functions that agree on the range.
  pub map-range-eq :
      (f g : ℕ → A) (i n : ℕ)
      → ((j : ℕ) → i ≤ j → j < i + n → f j ≡ g j)
      → map f (range i n) ≡ map g (range i n)
  map-range-eq f g i zero h = refl
  map-range-eq f g i (suc n) h =
      rw
        (
          h i (omega arith) (omega arith),
          map-range-eq f g (suc i) n (λ j l u. h j (omega arith) (omega arith)),
        )
        refl

  pub map-range-All {κ} :
      (P : A → Type κ) (f : ℕ → A) (i n : ℕ)
      → ((j : ℕ) → i ≤ j → j < i + n → P (f j))
      → All P (map f (range i n))
  map-range-All P f i zero h = tt
  map-range-All P f i (suc n) h = (
    h i (omega arith) (omega arith),
    map-range-All P f (suc i) n (λ j l u. h j (omega arith) (omega arith)),
  )
