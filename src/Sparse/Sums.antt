-- ===== src/Sparse/Sums.antt =====
-- src/la/sparse.cpp: what pass 3 of `finalize` makes of the sorted entries of one column.
use mathlib.Core.List.{append-nil}
use sih.Sparse.Counting.Slots.{of_key-eq, of_key-ne}
use sih.Prelude.{
  ℕ, ◌≤◌, ◌<◌, ◌≡◌, ◌∙◌, Bool, true, false, List, [], ◌∷◌, ◌++◌, refl, arith, ltb, ◌==◌,
  if◌then◌else◌, All, All-append, All-impl, Pairwise, inl, inr, Bool-cases,
}
use sih.Prelude.Double.{Double}
use sih.Sparse.{keep_entry, sum_run, sum_rows, find_row}
use sih.Sparse.Counting.{of_key}

module _ {ℓ} {D : Type ℓ} where
  -- Rows in ascending order, equal ones side by side.
  abbrev pub RowsAscend : List (ℕ × D) → Type 0
  RowsAscend = Pairwise (λ a b. a.0 ≤ b.0)

  pub of_key-none : (k : ℕ) (es : List (ℕ × D)) → All (λ e. k < e.0) es → of_key k es ≡ []
  of_key-none k [] h = refl
  of_key-none k ((r, v) ∷ es) h = ground (arith, of_key-none k es h.1)

if-same {ℓ} : {A : Type ℓ} (b : Bool) (a : A) → (if b then a else a) ≡ a
if-same true a = refl
if-same false a = refl

module _ {ℓ} {D : Type ℓ} ⦃d : Double D⦄ (drop_tol : D) where
  -- What is stored for values at one place: their sum from zero in their order, unless it is negligible
  -- or there is none.
  abbrev pub add_all : D → List D → D
  add_all sum [] = sum
  add_all sum (v ∷ vs) = add_all (d.add sum v) vs

  abbrev pub unless_negligible : D → D
  unless_negligible sum = if d.lt (d.abs sum) drop_tol then d.nought else sum

  abbrev pub stored : List D → D
  stored [] = d.nought
  stored (v ∷ vs) = unless_negligible (add_all (d.add d.nought v) vs)

  keep_entry-All :
      (P : ℕ × D → Type 0) (row : ℕ) (sum : D)
      → ((v : D) → P (row, v))
      → All P (keep_entry drop_tol row sum)
  unfolding keep_entry
  keep_entry-All P row sum h = elim (Bool-cases (d.lt (d.abs sum) drop_tol)) [
    | inl t ↦ rw t tt
    | inr f ↦ rw f (h sum, tt)
  ]

  sum_run-All :
      (P : ℕ → Type 0) (row : ℕ) (sum : D) (es : List (ℕ × D))
      → P row
      → All (λ e. P e.0) es
      → All (λ e. P e.0) (sum_run drop_tol row sum es)
  unfolding sum_run
  sum_run-All P row sum [] p h = keep_entry-All (λ e. P e.0) row sum (λ v. p)
  sum_run-All P row sum ((r, v) ∷ es) p h = elim (Bool-cases (r == row)) [
    | inl t ↦ rw t (sum_run-All P row (d.add sum v) es p h.1)
    | inr f ↦ rw f (
        All-append _ (keep_entry drop_tol row sum) _ (keep_entry-All (λ e. P e.0) row sum (λ w. p))
          (sum_run-All P r (d.add d.nought v) es h.0 h.1))
  ]

  keep_entry-ascends :
      (row : ℕ) (sum : D) (c : List (ℕ × D))
      → All (λ e. row < e.0) c
      → Pairwise (λ a b. a.0 < b.0) c
      → Pairwise (λ a b. a.0 < b.0) (keep_entry drop_tol row sum ++ c)
  unfolding keep_entry
  keep_entry-ascends row sum c h p = elim (Bool-cases (d.lt (d.abs sum) drop_tol)) [
    | inl t ↦ rw t p
    | inr f ↦ rw f (h, p)
  ]

  sum_run-ascends :
      (row : ℕ) (sum : D) (es : List (ℕ × D))
      → All (λ e. row ≤ e.0) es
      → RowsAscend es
      → Pairwise (λ a b. a.0 < b.0) (sum_run drop_tol row sum es)
  unfolding sum_run
  sum_run-ascends row sum [] h p = rw append-nil at (keep_entry-ascends row sum [] tt tt)
  sum_run-ascends row sum ((r, v) ∷ es) h p = elim (Bool-cases (r == row)) [
    | inl t ↦ rw t (sum_run-ascends row (d.add sum v) es h.1 p.1)
    | inr f ↦
        let above : row < r = ground arith in
        rw f (
          keep_entry-ascends row sum _
            (sum_run-All (λ k. row < k) r (d.add d.nought v) es above
              (All-impl _ _ es (λ e l. omega arith) p.0))
            (sum_run-ascends r (d.add d.nought v) es p.0 p.1))
  ]

  pub find_row-above :
      (row : ℕ) (c : List (ℕ × D)) → All (λ e. row < e.0) c → find_row row c ≡ d.nought
  unfolding find_row
  find_row-above row [] h = refl
  find_row-above row ((r, v) ∷ c) h = ground arith

  find_row-keep_entry :
      (k row : ℕ) (sum : D) (c : List (ℕ × D))
      → All (λ e. row < e.0) c
      → find_row k (keep_entry drop_tol row sum ++ c)
        ≡ (if row == k then unless_negligible sum else if ltb k row then d.nought else find_row k c)
  unfolding find_row keep_entry
  find_row-keep_entry k row sum c h =
      let above : ltb row k ≡ false → find_row k c ≡ d.nought =
        λ t. find_row-above k c (All-impl _ _ c (λ e l. ground arith) h) in
      elim (Bool-cases (ltb row k)) [
        | inl t ↦ elim (Bool-cases (d.lt (d.abs sum) drop_tol)) [
          | inl n ↦ rw n (ground arith)
          | inr n ↦ rw n (ground arith)
        ]
        | inr t ↦
            let none_there = above t in
            elim (Bool-cases (d.lt (d.abs sum) drop_tol)) [
              | inl n ↦ rw n (ground arith)
              | inr n ↦ rw n (ground arith)
            ]
      ]

  next_row :
      (k row r : ℕ) (sum v : D) (es : List (ℕ × D)) (found : D)
      → row < r
      → All (λ e. row < e.0) es
      → found ≡ (
          if r == k
          then unless_negligible (add_all (d.add d.nought v) (of_key k es))
          else stored (of_key k es))
      → (if row == k then unless_negligible sum else if ltb k row then d.nought else found) ≡ (
          if row == k
          then unless_negligible (add_all sum (of_key k ((r, v) ∷ es)))
          else stored (of_key k ((r, v) ∷ es)))
  next_row k row r sum v es found above others h =
      let gone : k ≤ row → of_key k ((r, v) ∷ es) ≡ [] = λ l.
        of_key-none k ((r, v) ∷ es) (omega arith, All-impl _ _ es (λ e m. omega arith) others) in
      elim (Bool-cases (row == k)) [
        | inl q ↦ rw (q, gone (ground arith)) refl
        | inr q ↦ elim (Bool-cases (ltb k row)) [
          | inl t ↦ rw (q, t, gone (ground arith)) refl
          | inr t ↦ elim (Bool-cases (r == k)) [
            | inl here ↦ rw (q, t, of_key-eq r k v es here) (rw here at h)
            | inr there ↦ rw (q, t, of_key-ne r k v es there) (rw there at h)
          ]
        ]
      ]

  find_row-sum_run :
      (k row : ℕ) (sum : D) (es : List (ℕ × D))
      → All (λ e. row ≤ e.0) es
      → RowsAscend es
      → find_row k (sum_run drop_tol row sum es)
        ≡ (if row == k then unless_negligible (add_all sum (of_key k es)) else stored (of_key k es))
  unfolding sum_run find_row
  find_row-sum_run k row sum [] h p =
      let alone = rw append-nil at (find_row-keep_entry k row sum [] tt) in
      elim (Bool-cases (row == k)) [
        | inl q ↦ rw q (rw q at alone)
        | inr q ↦ rw q (alone ∙ rw q (if-same (ltb k row) d.nought))
      ]
  find_row-sum_run k row sum ((r, v) ∷ es) h p = elim (Bool-cases (r == row)) [
    | inl t ↦
        let later = find_row-sum_run k row (d.add sum v) es h.1 p.1 in
        let e : r ≡ row = ground arith in
        elim (Bool-cases (row == k)) [
          | inl q ↦
              let here : (r == k) ≡ true = rw e q in rw (t, of_key-eq r k v es here, later, q) refl
          | inr q ↦
              let here : (r == k) ≡ false = rw e q in rw (t, of_key-ne r k v es here, later, q) refl
        ]
    | inr f ↦
        let above : row < r = ground arith in
        let rest = sum_run drop_tol r (d.add d.nought v) es in
        let others : All (λ e. row < e.0) es = All-impl _ _ es (λ e l. omega arith) p.0 in
        let split =
          find_row-keep_entry k row sum rest
            (sum_run-All (λ j. row < j) r (d.add d.nought v) es above others) in
        let later = find_row-sum_run k r (d.add d.nought v) es p.0 p.1 in
        rw (f, split) (next_row k row r sum v es (find_row k rest) above others later)
  ]

  -- The stored value of a row is that of the entries of the row.
  pub find_row-sum_rows :
      (k : ℕ) (es : List (ℕ × D))
      → RowsAscend es
      → find_row k (sum_rows drop_tol es) ≡ stored (of_key k es)
  unfolding sum_rows find_row
  find_row-sum_rows k [] p = refl
  find_row-sum_rows k ((r, v) ∷ es) p =
      let later = find_row-sum_run k r (d.add d.nought v) es p.0 p.1 in
      elim (Bool-cases (r == k)) [
        | inl q ↦ rw (of_key-eq r k v es q) (rw q at later)
        | inr q ↦ rw (of_key-ne r k v es q) (rw q at later)
      ]

  -- The summed rows are among the rows, in strictly ascending order.
  pub sum_rows-ascends :
      (es : List (ℕ × D)) → RowsAscend es → Pairwise (λ a b. a.0 < b.0) (sum_rows drop_tol es)
  unfolding sum_rows
  sum_rows-ascends [] p = tt
  sum_rows-ascends ((r, v) ∷ es) p = sum_run-ascends r (d.add d.nought v) es p.0 p.1

  pub sum_rows-All :
      (P : ℕ → Type 0) (es : List (ℕ × D))
      → All (λ e. P e.0) es
      → All (λ e. P e.0) (sum_rows drop_tol es)
  unfolding sum_rows
  sum_rows-All P [] h = tt
  sum_rows-All P ((r, v) ∷ es) h = sum_run-All P r (d.add d.nought v) es h.0 h.1
