-- ===== src/Sparse/Frozen.antt =====
-- src/la/sparse.cpp: the columns that the frozen arrays hold.
use sih.Prelude.{
  ℕ, zero, suc, ◌+◌, ◌-◌, ◌≤◌, ◌<◌, ◌≡◌, ◌∙◌, true, List, [], ◌∷◌, ◌++◌, map, refl, ap, arith,
  length, get_or, take, drop, concat, range, All, Pairwise, length-map, take-append,
}
use sih.Sparse.{SparseMatrix, starts_from, zip_entries, freeze, column, columns}
use sih.Sparse.Counting.{slice}

-- Rows in range, in strictly ascending order.
abbrev pub IsColumn {ℓ} : {D : Type ℓ} → ℕ → List (ℕ × D) → Type 0
IsColumn num_rows c = All (λ e. e.0 < num_rows) c × Pairwise (λ a b. a.0 < b.0) c

-- A frozen matrix whose arrays hold the given columns.
pub record Represents {ℓ} {D : Type ℓ} (m : SparseMatrix D) (cols : List (List (ℕ × D)))
    : Type ℓ where
  pub frozen : m.frozen ≡ true
  pub size : length cols ≡ m.num_cols
  pub total : length m.values ≡ length (concat cols)
  pub column_eq : (j : ℕ) → j < m.num_cols → column m j ≡ get_or cols j []
  pub well_formed : All (IsColumn m.num_rows) cols

module _ {ℓ κ} {A : Type ℓ} {B : Type κ} (f : A → B) where
  take-map : (n : ℕ) (xs : List A) → take n (map f xs) ≡ map f (take n xs)
  take-map zero xs = refl
  take-map (suc n) [] = refl
  take-map (suc n) (x ∷ xs) = ap (λ l. f x ∷ l) (take-map n xs)

  drop-map : (n : ℕ) (xs : List A) → drop n (map f xs) ≡ map f (drop n xs)
  drop-map zero xs = refl
  drop-map (suc n) [] = refl
  drop-map (suc n) (x ∷ xs) = drop-map n xs

  pub slice-map :
      (xs : List A) (begin end : ℕ) → slice (map f xs) begin end ≡ map f (slice xs begin end)
  unfolding slice
  slice-map xs begin end = rw (drop-map begin xs, take-map (end - begin) (drop begin xs)) refl

module _ {ℓ} {A : Type ℓ} where
  -- The number of elements in the lists before a position.
  abbrev size_before : List (List A) → ℕ → ℕ
  size_before [] j = 0
  size_before (c ∷ cs) zero = 0
  size_before (c ∷ cs) (suc j) = length c + size_before cs j

  starts_from-get :
      (total : ℕ) (cs : List (List A)) (j : ℕ)
      → j ≤ length cs
      → get_or (starts_from total cs) j 0 ≡ total + size_before cs j
  unfolding starts_from
  starts_from-get total [] zero h = omega arith
  starts_from-get total [] (suc j) h = absurd (omega arith)
  starts_from-get total (c ∷ cs) zero h = omega arith
  starts_from-get total (c ∷ cs) (suc j) h =
      omega (arith, starts_from-get (total + length c) cs j (omega arith))

  size_before-suc :
      (cs : List (List A)) (j : ℕ)
      → j < length cs
      → size_before cs (suc j) ≡ size_before cs j + length (get_or cs j [])
  size_before-suc [] j h = absurd (omega arith)
  size_before-suc (c ∷ []) zero h = omega arith
  size_before-suc (c ∷ d ∷ cs) zero h = omega arith
  size_before-suc (c ∷ cs) (suc j) h = omega (arith, size_before-suc cs j (omega arith))

  drop-plus : (xs ys : List A) (n : ℕ) → drop (length xs + n) (xs ++ ys) ≡ drop n ys
  drop-plus [] ys n = ap (λ k. drop k ys) zero_plus
    where
      zero_plus : 0 + n ≡ n
      zero_plus = omega arith
  drop-plus (x ∷ xs) ys n =
      let moved : length (x ∷ xs) + n ≡ suc (length xs + n) = omega arith in
      rw moved (drop-plus xs ys n)

  concat-part :
      (cs : List (List A)) (j : ℕ)
      → j < length cs
      → take (length (get_or cs j [])) (drop (size_before cs j) (concat cs)) ≡ get_or cs j []
  concat-part [] j h = absurd (omega arith)
  concat-part (c ∷ cs) zero h = take-append c (concat cs)
  concat-part (c ∷ cs) (suc j) h =
      rw (drop-plus c (concat cs) (size_before cs j)) (concat-part cs j (omega arith))

  -- The part of the concatenation between two consecutive starts.
  pub slice-concat :
      (cs : List (List A)) (j : ℕ)
      → j < length cs
      → slice (concat cs) (get_or (starts_from 0 cs) j 0) (get_or (starts_from 0 cs) (suc j) 0)
        ≡ get_or cs j []
  unfolding slice
  slice-concat cs j h =
      let begin : get_or (starts_from 0 cs) j 0 ≡ size_before cs j =
        omega (arith, starts_from-get 0 cs j (omega arith)) in
      let end : get_or (starts_from 0 cs) (suc j) 0 ≡ size_before cs j + length (get_or cs j []) =
        omega (arith, starts_from-get 0 cs (suc j) (omega arith), size_before-suc cs j h) in
      let size : size_before cs j + length (get_or cs j []) - size_before cs j
          ≡ length (get_or cs j []) =
        omega arith in
      rw (begin, end, size) (concat-part cs j h)

pub zip_entries-map {ℓ} :
    {D : Type ℓ} (c : List (ℕ × D)) → zip_entries (map (λ e. e.0) c) (map (λ e. e.1) c) ≡ c
unfolding zip_entries
zip_entries-map [] = refl
zip_entries-map ((r, v) ∷ c) = ap (λ l. (r, v) ∷ l) (zip_entries-map c)

module _ {ℓ} {D : Type ℓ} where
  pub freeze-Represents :
      (cols : List (List (ℕ × D))) (m : SparseMatrix D)
      → length cols ≡ m.num_cols
      → All (IsColumn m.num_rows) cols
      → Represents (freeze cols m) cols
  unfolding freeze column
  freeze-Represents cols m n w = record {
    frozen = refl;
    size = n;
    total = length-map (λ e. e.1) (concat cols);
    column_eq = λ j l.
        let begin = get_or (starts_from 0 cols) j 0 in
        let end = get_or (starts_from 0 cols) (suc j) 0 in
        rw
          (
            slice-map (λ e. e.0) (concat cols) begin end,
            slice-map (λ e. e.1) (concat cols) begin end,
            slice-concat cols j (omega arith),
            zip_entries-map (get_or cols j []),
          )
          refl;
    well_formed = w;
  }

  map-get_or-range :
      (cols : List (List (ℕ × D))) (i : ℕ)
      → (f : ℕ → List (ℕ × D)) → ((j : ℕ) → j < length cols → f (i + j) ≡ get_or cols j [])
      → map f (range i (length cols)) ≡ cols
  map-get_or-range [] i f h = refl
  map-get_or-range (c ∷ cols) i f h =
      let first : f i ≡ c = (ap f (omega arith)) ∙ h 0 (omega arith) in
      rw
        (
          first,
          map-get_or-range cols (suc i) f (λ j l.
              let moved : suc i + j ≡ i + suc j = omega arith in
              rw moved (h (suc j) (omega arith))),
        )
        refl

  -- The columns that are read back are the ones that are held.
  pub columns-Represents :
      (m : SparseMatrix D) (cols : List (List (ℕ × D))) → Represents m cols → columns m ≡ cols
  unfolding columns
  columns-Represents m cols r = rw (← r.size) (
      map-get_or-range cols 0 (column m) (λ j l.
        let zeroth : 0 + j ≡ j = omega arith in rw zeroth (r.column_eq j (omega (arith, r.size)))))
