-- ===== src/Sparse/Transpose.antt =====
-- src/la/sparse.cpp: `transpose` exchanges the places.
use sih.Prelude.{
  ℕ, zero, suc, ◌+◌, ◌<◌, ◌≡◌, ◌∙◌, List, [], map, refl, sym, ap, arith, length, length-append,
  length-map, get_or, replicate, range, length-range, get_or-map-range, map-range-All, concat,
  All-impl, length-replicate,
}
use sih.Prelude.Double.{Double}
use sih.Sparse.{SparseMatrix, transpose, by_rows, at, column, find_row}
use sih.Sparse.Counting.{of_key, starts_of, sort_by_key}
use sih.Sparse.Counting.Starts.{below, below-suc, below-zero, below_total}
use sih.Sparse.Counting.Sorted.{slice-sort_by_key, length-sort_by_key}
use sih.Sparse.Rows.{
  row_of, by_rows-All, length-by_rows, row_of-from, find_row-row_of, by_rows-columns,
}
use sih.Sparse.Frozen.{Represents, IsColumn, slice-map, zip_entries-map, columns-Represents}

module _ {ℓ} {D : Type ℓ} ⦃d : Double D⦄ where
  -- Between the starts of a row stand its entries, in the order of the columns.
  pub column-transpose :
      (m : SparseMatrix D) (cols : List (List (ℕ × D)))
      → Represents m cols
      → (i : ℕ) → i < m.num_rows
      → column (transpose m) i ≡ row_of i 0 cols
  unfolding transpose column
  column-transpose m cols r i h =
      let entries = by_rows 0 cols in
      let scratch = replicate (length m.values) (0, d.nought) in
      let size : length scratch ≡ length entries =
        length-replicate (length m.values) (0, d.nought) ∙ r.total ∙ sym (length-by_rows 0 cols) in
      let placed = sort_by_key m.num_rows entries scratch in
      let begin = get_or (starts_of m.num_rows entries) i 0 in
      let end = get_or (starts_of m.num_rows entries) (suc i) 0 in
      rw
        (
          columns-Represents m cols r,
          slice-map (λ e. e.0) placed begin end,
          slice-map (λ e. e.1) placed begin end,
          slice-sort_by_key m.num_rows entries scratch i
              (by_rows-All m.num_rows 0 cols r.well_formed) size h,
        )
        (zip_entries-map (row_of i 0 cols))

  -- The parts of the keys in a range have together as many elements as there are keys in it.
  length-parts :
      (es : List (ℕ × (ℕ × D))) (i n : ℕ)
      → below i es + length (concat (map (λ k. of_key k es) (range i n))) ≡ below (i + n) es
  length-parts es i zero = let same : i + 0 ≡ i = omega arith in rw same (omega arith)
  length-parts es i (suc n) =
      let moved : suc i + n ≡ i + suc n = omega arith in
      let later = rw moved at (length-parts es (suc i) n) in
      omega (
        arith,
        later,
        below-suc i es,
        length-append (of_key i es) (concat (map (λ k. of_key k es) (range (suc i) n))),
      )

  total-transpose :
      (m : SparseMatrix D) (cols : List (List (ℕ × D)))
      → Represents m cols
      → length (transpose m).values
        ≡ length (concat (map (λ i. row_of i 0 cols) (range 0 m.num_rows)))
  unfolding transpose
  total-transpose m cols r =
      let entries = by_rows 0 cols in
      let scratch : List (ℕ × D) = replicate (length m.values) (0, d.nought) in
      let empty : List (ℕ × D) → ℕ = λ xs. length (map (λ e. e.1) xs) in
      let zeroth : 0 + m.num_rows ≡ m.num_rows = omega arith in
      let parts = rw zeroth at (length-parts entries 0 m.num_rows) in
      rw (columns-Represents m cols r) (
        omega (
          arith,
          length-map (λ (e : ℕ × D). e.1) (sort_by_key m.num_rows entries scratch),
          length-sort_by_key m.num_rows entries scratch,
          length-replicate {A = ℕ × D} (length m.values) (0, d.nought),
          r.total,
          length-by_rows 0 cols,
          parts,
          below-zero entries,
          below_total m.num_rows entries (by_rows-All m.num_rows 0 cols r.well_formed),
        ))

  -- The transpose holds the rows, in range and in strictly ascending order of the columns.
  pub transpose-Represents :
      (m : SparseMatrix D) (cols : List (List (ℕ × D)))
      → Represents m cols
      → Represents (transpose m) (map (λ i. row_of i 0 cols) (range 0 m.num_rows))
  unfolding transpose
  transpose-Represents m cols r = record {
    frozen = refl;
    size = length-map (λ i. row_of i 0 cols) (range 0 m.num_rows) ∙ length-range 0 m.num_rows;
    total = total-transpose m cols r;
    column_eq = λ i h.
        column-transpose m cols r i h
        ∙ sym (
            get_or-map-range (λ k. row_of k 0 cols) 0 m.num_rows i [] h
            ∙ ap (λ k. row_of k 0 cols) (omega arith));
    well_formed =
        map-range-All (IsColumn m.num_cols) (λ i. row_of i 0 cols) 0 m.num_rows
          (λ i l u. (
            All-impl _ _ (row_of i 0 cols) (λ e n. omega (arith, r.size))
                (by_rows-columns i 0 cols),
            (row_of-from m.num_rows i 0 cols r.well_formed).1,
          ));
  }

  exchanged :
      (m : SparseMatrix D) (cols : List (List (ℕ × D))) (row col : ℕ)
      → Represents m cols
      → row < m.num_rows
      → col < m.num_cols
      → at (transpose m) col row ≡ at m row col
  unfolding at
  exchanged m cols row col r h k =
      ap (find_row col) (column-transpose m cols r row h)
      ∙ ap (λ k. find_row k (row_of row 0 cols)) (omega arith)
      ∙ find_row-row_of m.num_rows row 0 col cols r.well_formed
      ∙ ap (find_row row) (sym (r.column_eq col k))

  -- At a place in range of a frozen matrix whose columns ascend, the transpose reads as the matrix does
  -- at the exchanged place, and the transpose of the transpose as the matrix itself.
  pub at-transpose :
      (m : SparseMatrix D) (cols : List (List (ℕ × D))) (row col : ℕ)
      → Represents m cols
      → row < m.num_rows
      → col < m.num_cols
      → (at (transpose m) col row ≡ at m row col)
        × (at (transpose (transpose m)) row col ≡ at m row col)
  unfolding transpose
  at-transpose m cols row col r h k =
      let once = exchanged m cols row col r h k in
      let rows = map (λ i. row_of i 0 cols) (range 0 m.num_rows) in
      (once, exchanged (transpose m) rows col row (transpose-Represents m cols r) k h ∙ once)
