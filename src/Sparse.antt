-- ===== src/Sparse.antt =====
-- src/la/sparse.cpp and include/sankhya/sparse.hpp: the compressed-column matrix. What `std::sort`
-- makes of one column's entries is a parameter, since it may leave equal rows in any order. The
-- capacity hints are left out, and `assert`s are hypotheses of the theorems.
use sih.Prelude.{
  ℕ, zero, suc, ◌+◌, ◌-◌, Bool, true, false, not, ◌&&◌, ◌||◌, List, [], ◌∷◌, ◌++◌, map,
  if◌then◌else◌, ltb, leb, ◌==◌, length, get_or, set, take, replicate, concat, range,
}
use sih.Prelude.Double
use sih.Prelude.Int.{ℤ, pos, negsuc}
use sih.Prelude.Double.{Double, eq}
use sih.Sparse.Counting.{starts_of, sort_by_key, slice}
pub mod Counting
pub mod Frozen
pub mod Build
pub mod Finalize
pub mod Multiply
pub mod Offers
pub mod Sums
pub mod Sorting
pub mod Rows
pub mod Transpose
pub mod Vector

pub record SparseMatrix {ℓ} (D : Type ℓ) : Type ℓ where
  pub num_rows : ℕ
  pub num_cols : ℕ
  pub frozen : Bool
  pub nonzero_limit : ℕ
  pub overflowed : Bool
  pub column_starts : List ℕ
  pub row_indices : List ℕ
  pub values : List D
  pub build_rows : List ℕ
  pub build_cols : List ℕ
  pub build_values : List D

-- `kMaxNonzeros`, the largest `Index`.
abbrev pub max_nonzeros : ℕ
max_nonzeros = 2_147_483_647

-- The starts of consecutive parts of the given lengths.
unfoldable pub starts_from {ℓ} : {A : Type ℓ} → ℕ → List (List A) → List ℕ
starts_from total [] = total ∷ []
starts_from total (c ∷ cs) = total ∷ starts_from (total + length c) cs

unfoldable pub zip_entries {ℓ} : {A : Type ℓ} → List ℕ → List A → List (ℕ × A)
zip_entries [] vs = []
zip_entries (r ∷ rs) [] = []
zip_entries (r ∷ rs) (v ∷ vs) = (r, v) ∷ zip_entries rs vs

module _ {ℓ} {D : Type ℓ} where
  unfoldable pub reset : ℕ → ℕ → SparseMatrix D → SparseMatrix D
  reset num_rows num_cols m = record m {
    num_rows = num_rows;
    num_cols = num_cols;
    frozen = false;
    overflowed = false;
    column_starts = [];
    row_indices = [];
    values = [];
    build_rows = [];
    build_cols = [];
    build_values = [];
  }

  -- A limit below zero is none, and one above the largest index is that.
  unfoldable pub set_nonzero_limit : ℤ → SparseMatrix D → SparseMatrix D
  set_nonzero_limit (pos n) m = record m {
    nonzero_limit = if ltb max_nonzeros n then max_nonzeros else n;
  }
  set_nonzero_limit (negsuc n) m = record m { nonzero_limit = 0 }

  unfoldable pub add_entry : ℕ → ℕ → D → SparseMatrix D → SparseMatrix D
  add_entry row col value m =
      if leb m.nonzero_limit (length m.build_values)
      then record m { overflowed = true }
      else record m {
        build_rows = m.build_rows ++ row ∷ [];
        build_cols = m.build_cols ++ col ∷ [];
        build_values = m.build_values ++ value ∷ [];
      }

  -- The triplets, each behind its column.
  unfoldable pub triplets : SparseMatrix D → List (ℕ × (ℕ × D))
  triplets m = zip_entries m.build_cols (zip_entries m.build_rows m.build_values)

  unfoldable pub freeze_empty : SparseMatrix D → SparseMatrix D
  freeze_empty m = record m {
    overflowed = true;
    build_rows = [];
    build_cols = [];
    build_values = [];
    column_starts = replicate (suc m.num_cols) 0;
    row_indices = [];
    values = [];
    frozen = true;
  }

  -- The frozen arrays that hold the given columns.
  unfoldable pub freeze : List (List (ℕ × D)) → SparseMatrix D → SparseMatrix D
  freeze columns m = record m {
    column_starts = starts_from 0 columns;
    row_indices = map (λ e. e.0) (concat columns);
    values = map (λ e. e.1) (concat columns);
    build_rows = [];
    build_cols = [];
    build_values = [];
    frozen = true;
  }

  unfoldable pub num_nonzeros : SparseMatrix D → ℕ
  num_nonzeros m = if m.frozen then length m.values else length m.build_values

  -- `column(j)`: the rows and values between two starts.
  unfoldable pub column : SparseMatrix D → ℕ → List (ℕ × D)
  column m j =
      let begin = get_or m.column_starts j 0 in
      let end = get_or m.column_starts (suc j) 0 in
      zip_entries (slice m.row_indices begin end) (slice m.values begin end)

  -- The entries column by column, each behind its row, as `transpose` walks them.
  unfoldable pub by_rows : ℕ → List (List (ℕ × D)) → List (ℕ × (ℕ × D))
  by_rows j [] = []
  by_rows j (c ∷ cs) = map (λ e. (e.0, (j, e.1))) c ++ by_rows (suc j) cs

  -- The columns of the frozen arrays.
  unfoldable pub columns : SparseMatrix D → List (List (ℕ × D))
  unfolding column
  columns m = map (column m) (range 0 m.num_cols)

module _ {ℓ} {D : Type ℓ} ⦃d : Double D⦄ where
  -- An entry of a column, unless its sum is negligible.
  unfoldable pub keep_entry : D → ℕ → D → List (ℕ × D)
  keep_entry drop_tol row sum = if d.lt (d.abs sum) drop_tol then [] else (row, sum) ∷ []

  -- The sums of the runs of equal rows, in a run of `row` with the sum so far.
  unfoldable pub sum_run : D → ℕ → D → List (ℕ × D) → List (ℕ × D)
  sum_run drop_tol row sum [] = keep_entry drop_tol row sum
  sum_run drop_tol row sum ((r, v) ∷ es) =
      let same = sum_run drop_tol row (d.add sum v) es in
      let fresh = keep_entry drop_tol row sum ++ sum_run drop_tol r (d.add d.nought v) es in
      if r == row then same else fresh

  unfoldable pub sum_rows : D → List (ℕ × D) → List (ℕ × D)
  sum_rows drop_tol [] = []
  sum_rows drop_tol ((r, v) ∷ es) = sum_run drop_tol r (d.add d.nought v) es

  module _ (sort : List (ℕ × D) → List (ℕ × D)) where
    -- Passes 1 and 2 give each column its part of the scratch array, pass 3 sorts and sums a part.
    unfoldable pub assembled : D → SparseMatrix D → List (List (ℕ × D))
    assembled drop_tol m =
        let entries = triplets m in
        let starts = starts_of m.num_cols entries in
        let scratch =
          sort_by_key m.num_cols entries (replicate (length m.build_values) (0, d.nought)) in
        map
          (λ j.
            sum_rows drop_tol (sort (slice scratch (get_or starts j 0) (get_or starts (suc j) 0))))
          (range 0 m.num_cols)

    unfoldable pub finalize : D → SparseMatrix D → SparseMatrix D
    finalize drop_tol m =
        if m.frozen
        then m
        else if m.overflowed || ltb max_nonzeros (length m.build_values)
        then freeze_empty m
        else freeze (assembled drop_tol m) m

  -- `std::lower_bound` on the rows, and the value there if the row is found.
  unfoldable pub find_row : ℕ → List (ℕ × D) → D
  find_row row [] = d.nought
  find_row row ((r, v) ∷ es) =
      if ltb r row then find_row row es else if r == row then v else d.nought

  unfoldable pub at : SparseMatrix D → ℕ → ℕ → D
  at m row col = find_row row (column m col)

  -- A counting sort by row; what it walks in ascending order of the columns needs no other sort.
  unfoldable pub transpose : SparseMatrix D → SparseMatrix D
  transpose m =
      let entries = by_rows 0 (columns m) in
      let placed = sort_by_key m.num_rows entries (replicate (length m.values) (0, d.nought)) in
      record {
        num_rows = m.num_cols;
        num_cols = m.num_rows;
        frozen = true;
        nonzero_limit = max_nonzeros;
        overflowed = false;
        column_starts = starts_of m.num_rows entries;
        row_indices = map (λ e. e.0) placed;
        values = map (λ e. e.1) placed;
        build_rows = [];
        build_cols = [];
        build_values = [];
      }
