-- ===== src/Mps/Valid/Lookups.antt =====
-- What the lookups of src/io/mps_reader.cpp find, and how writes change the parallel arrays.
use sih.Prelude.{
  ℕ, zero, suc, ◌≤◌, ◌<◌, ◌≡◌, ◌==◌, Option, none, some, List, [], ◌∷◌, ◌++◌, refl, arith, inl, inr,
  Bool-cases, if◌then◌else◌, get_or, set, length, length-append, All,
}
use sih.Text.{Bytes, same_bytes}
use sih.Mps.{
  MpsParser, RowRef, constraint, lookup, find_row, find_column, objective_row, ignored_row,
  unknown_row,
}
use sih.Mps.Valid.{IsRow, Rows, Cols}

-- What is found was put in.
abbrev Found {ℓ κ} : {A : Type ℓ} → (A → Type κ) → Option A → Type κ
Found P none = Unit
Found P (some a) = P a

lookup-Found {ℓ κ} :
    {A : Type ℓ} (P : A → Type κ) (xs : List (Bytes × A)) (name : Bytes)
    → All (λ x. P x.1) xs
    → Found P (lookup xs name)
unfolding lookup
lookup-Found P [] name h = tt
lookup-Found P (x ∷ xs) name h = elim (Bool-cases (same_bytes x.0 name)) [
  | inl t ↦ rw t h.0
  | inr f ↦ rw f (lookup-Found P xs name h.1)
]

module _ {ℓ} {D : Type ℓ} where
  pub find_row-IsRow :
      (p : MpsParser D) (name : Bytes) → Rows p → IsRow (length p.row_type) (find_row p name)
  unfolding find_row
  find_row-IsRow p name v =
      go (lookup p.row_index name) (lookup-Found _ p.row_index name v.row_refs)
    where
      go :
          (found : Option RowRef)
          → Found (IsRow (length p.row_type)) found
          → IsRow (length p.row_type) (elim found [ some row ↦ row | none ↦ unknown_row ])
      go none h = tt
      go (some row) h = h

  pub find_column-lt :
      (p : MpsParser D) (name : Bytes) (u : ℕ)
      → Cols p
      → find_column p name ≡ some u
      → u < length p.col_cost
  unfolding find_column
  find_column-lt p name u v h =
      let found = lookup-Found (λ c. c < length p.col_cost) p.col_index name v.col_refs in
      rw h at found

module _ {ℓ} {A : Type ℓ} where
  -- A write at a position that is in range, and an element behind the last.
  pub get_or-set :
      (xs : List A) (i j : ℕ) (v d : A)
      → i < length xs
      → get_or (set xs i v) j d ≡ (if i == j then v else get_or xs j d)
  get_or-set [] i j v d h = absurd (omega arith)
  get_or-set (x ∷ xs) zero zero v d h = refl
  get_or-set (x ∷ xs) zero (suc j) v d h = ground arith
  get_or-set (x ∷ xs) (suc i) zero v d h = ground arith
  get_or-set (x ∷ xs) (suc i) (suc j) v d h = ground (arith, get_or-set xs i j v d)

  pub get_or-snoc :
      (xs : List A) (j : ℕ) (v d : A)
      → get_or (xs ++ v ∷ []) j d ≡ (if length xs == j then v else get_or xs j d)
  get_or-snoc [] zero v d = refl
  get_or-snoc [] (suc j) v d = ground arith
  get_or-snoc (x ∷ xs) zero v d = ground arith
  get_or-snoc (x ∷ xs) (suc j) v d = ground (arith, get_or-snoc xs j v d)

  pub size-snoc {κ} :
      {B : Type κ} (xs : List A) (ys : List B) (x : A) (y : B)
      → length xs ≡ length ys
      → length (xs ++ x ∷ []) ≡ length (ys ++ y ∷ [])
  size-snoc xs ys x y h = omega (arith, length-append xs (x ∷ []), length-append ys (y ∷ []))

  pub size-snoc_le : (xs : List A) (x : A) → length xs ≤ length (xs ++ x ∷ [])
  size-snoc_le xs x = omega (arith, length-append xs (x ∷ []))

pub IsRow-le : (m n : ℕ) → m ≤ n → (r : RowRef) → IsRow m r → IsRow n r
IsRow-le m n h (constraint i) k = omega arith
IsRow-le m n h objective_row k = tt
IsRow-le m n h ignored_row k = tt
IsRow-le m n h unknown_row k = tt
