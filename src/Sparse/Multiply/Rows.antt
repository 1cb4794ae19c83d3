-- ===== src/Sparse/Multiply/Rows.antt =====
-- The product by columns adds, in each row, the terms of the row in ascending order of the columns.
use sih.Prelude.{
  ℕ, suc, ◌≤◌, ◌<◌, ◌≡◌, ◌∙◌, Bool, true, false, List, [], ◌∷◌, ◌++◌, map, refl, sym, ap, arith,
  ◌==◌, if◌then◌else◌, length, length-set, get_or, get_or-set, set, All, All-impl, inl, inr,
  Bool-cases,
}
use sih.Prelude.Double.{Double, eq}
use sih.Sparse.{SparseMatrix, column, by_rows}
use sih.Sparse.Counting.{of_key}
use sih.Sparse.Counting.Slots.{of_key-eq, of_key-ne}
use sih.Sparse.Frozen.{Represents, IsColumn, columns-Represents}
use sih.Sparse.Multiply.{row, build, multiply_column, multiply_from, multiply_add}
use sih.Sparse.Vector.Gather.{if-same}
use sih.Sparse.Rows.{row_of, row_of-cons}
use sih.Sparse.Transpose.{column-transpose}

module _ {ℓ} {A : Type ℓ} where
  collapse :
      (b : Bool) (x y : A) (f : A → A)
      → (if b then (if b then x else y) else f (if b then x else y)) ≡ (if b then x else f y)
  collapse true x y f = refl
  collapse false x y f = refl

  if-get :
      (b : Bool) (xs ys : List A) (i : ℕ) (a : A)
      → get_or (if b then xs else ys) i a ≡ (if b then get_or xs i a else get_or ys i a)
  if-get true xs ys i a = refl
  if-get false xs ys i a = refl

  if-length :
      (b : Bool) (xs ys : List A)
      → length xs ≡ length ys
      → length (if b then ys else xs) ≡ length ys
  if-length true xs ys h = refl
  if-length false xs ys h = h

module _ {ℓ} {D : Type ℓ} ⦃d : Double D⦄ where
  -- The terms of the entries of a row, added one after the other; a column whose factor is zero has none.
  abbrev pub add_terms : D → List D → D → List (ℕ × D) → D
  add_terms alpha x sum [] = sum
  add_terms alpha x sum ((j, v) ∷ es) =
      let xj = d.mul alpha (get_or x j d.nought) in
      add_terms alpha x (if eq xj d.nought then sum else d.add sum (d.mul v xj)) es

  abbrev add_values : D → D → List D → D
  add_values xj sum [] = sum
  add_values xj sum (v ∷ vs) = add_values xj (d.add sum (d.mul v xj)) vs

  length-multiply_column :
      (xj : D) (c : List (ℕ × D)) (y : List D) → length (multiply_column xj c y) ≡ length y
  unfolding multiply_column
  length-multiply_column xj [] y = refl
  length-multiply_column xj ((r, v) ∷ c) y =
      length-multiply_column xj c _ ∙ length-set y r (d.add (get_or y r d.nought) (d.mul v xj))

  multiply_column-get :
      (xj : D) (c : List (ℕ × D)) (y : List D) (i : ℕ)
      → All (λ e. e.0 < length y) c
      → get_or (multiply_column xj c y) i d.nought
        ≡ add_values xj (get_or y i d.nought) (of_key i c)
  unfolding multiply_column
  multiply_column-get xj [] y i h = refl
  multiply_column-get xj ((r, v) ∷ c) y i h =
      let next = d.add (get_or y r d.nought) (d.mul v xj) in
      let size = length-set y r next in
      let within = All-impl _ (λ e. e.0 < length (set y r next)) c (λ e l. omega arith) h.1 in
      let later = multiply_column-get xj c (set y r next) i within in
      let write = get_or-set y r i next d.nought h.0 in
      elim (Bool-cases (r == i)) [
        | inl t ↦
            let same : r ≡ i = ground arith in
            later
            ∙ ap (λ s. add_values xj s (of_key i c)) (write ∙ rw (t, same) refl)
            ∙ ap (add_values xj (get_or y i d.nought)) (sym (of_key-eq r i v c t))
        | inr f ↦
            later
            ∙ ap (λ s. add_values xj s (of_key i c)) (write ∙ rw f refl)
            ∙ ap (add_values xj (get_or y i d.nought)) (sym (of_key-ne r i v c f))
      ]

  add_terms-column :
      (alpha : D) (x : List D) (j : ℕ) (vs : List D) (sum : D) (es : List (ℕ × D))
      → let xj = d.mul alpha (get_or x j d.nought) in
        add_terms alpha x sum (map (λ v. (j, v)) vs ++ es)
        ≡ add_terms alpha x (if eq xj d.nought then sum else add_values xj sum vs) es
  add_terms-column alpha x j [] sum es =
      ap (λ s. add_terms alpha x s es)
        (sym (if-same (eq (d.mul alpha (get_or x j d.nought)) d.nought) sum))
  add_terms-column alpha x j (v ∷ vs) sum es =
      let xj = d.mul alpha (get_or x j d.nought) in
      let skip = eq xj d.nought in
      add_terms-column alpha x j vs (if skip then sum else d.add sum (d.mul v xj)) es
      ∙ ap (λ s. add_terms alpha x s es)
          (collapse skip sum (d.add sum (d.mul v xj)) (λ s. add_values xj s vs))

  multiply_from-get :
      (alpha : D) (n j : ℕ) (cols : List (List (ℕ × D))) (x y : List D) (i : ℕ)
      → All (IsColumn n) cols
      → n ≤ length y
      → get_or (multiply_from alpha j cols x y) i d.nought
        ≡ add_terms alpha x (get_or y i d.nought) (row_of i j cols)
  unfolding multiply_from by_rows
  multiply_from-get alpha n j [] x y i h l = refl
  multiply_from-get alpha n j (c ∷ cols) x y i h l =
      let xj = d.mul alpha (get_or x j d.nought) in
      let skip = eq xj d.nought in
      let size = if-length skip (multiply_column xj c y) y (length-multiply_column xj c y) in
      let within = All-impl _ (λ e. e.0 < length y) c (λ e k. omega arith) h.0.0 in
      let here =
        if-get skip y (multiply_column xj c y) i d.nought
        ∙ ap (λ s. if skip then get_or y i d.nought else s) (multiply_column-get xj c y i within) in
      multiply_from-get alpha n (suc j) cols x (if skip then y else multiply_column xj c y) i h.1
        (omega (arith, size))
      ∙ ap (λ s. add_terms alpha x s (row_of i (suc j) cols)) here
      ∙ sym (add_terms-column alpha x j (of_key i c) (get_or y i d.nought) (row_of i (suc j) cols))
      ∙ ap (add_terms alpha x (get_or y i d.nought)) (sym (row_of-cons i j c cols))

  -- For a frozen matrix whose columns ascend and a result with room for its rows, `multiply_add` gives a
  -- row its value plus the terms of the row of the view, in ascending order of the columns, where a
  -- column whose factor is zero adds nothing.
  pub multiply_add_lem :
      (m : SparseMatrix D) (cols : List (List (ℕ × D))) (x y : List D) (alpha : D) (i : ℕ)
      → Represents m cols
      → m.num_rows ≤ length y
      → i < m.num_rows
      → get_or (multiply_add m x y alpha) i d.nought
        ≡ add_terms alpha x (get_or y i d.nought) (row (build m) i)
  unfolding multiply_add row build column
  multiply_add_lem m cols x y alpha i r l h =
      ap (λ cs. get_or (multiply_from alpha 0 cs x y) i d.nought) (columns-Represents m cols r)
      ∙ multiply_from-get alpha m.num_rows 0 cols x y i r.well_formed l
      ∙ ap (add_terms alpha x (get_or y i d.nought)) (sym (column-transpose m cols r i h))
