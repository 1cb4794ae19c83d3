-- ===== src/Sparse/Multiply.antt =====
-- src/la/sparse.cpp: the products of a frozen matrix and a dense vector, the view by rows, and the way
-- back from the frozen to the build representation.
use sih.Prelude.{
  ℕ, zero, suc, ◌≡◌, Bool, true, false, List, [], ◌∷◌, ◌++◌, map, if◌then◌else◌, length, get_or,
  set, replicate, drop,
}
use sih.Prelude.Double
use sih.Prelude.Double.{Double, eq}
use sih.Sparse.{SparseMatrix, columns, by_rows, transpose, zip_entries}
use sih.Sparse.Counting.{slice}
pub mod Rows

-- `CsrView`
pub record CsrView {ℓ} (D : Type ℓ) : Type ℓ where
  pub num_rows : ℕ
  pub num_cols : ℕ
  pub row_starts : List ℕ
  pub column_indices : List ℕ
  pub values : List D

module _ {ℓ} {D : Type ℓ} where
  unfoldable pub row : CsrView D → ℕ → List (ℕ × D)
  row v i =
      let begin = get_or v.row_starts i 0 in
      let end = get_or v.row_starts (suc i) 0 in
      zip_entries (slice v.column_indices begin end) (slice v.values begin end)

  -- The entries column by column, each behind its row.
  unfoldable pub unfreeze : SparseMatrix D → SparseMatrix D
  unfreeze m =
      let entries = by_rows 0 (columns m) in
      if m.frozen
      then record m {
        build_rows = map (λ e. e.0) entries;
        build_cols = map (λ e. e.1.0) entries;
        build_values = map (λ e. e.1.1) entries;
        column_starts = [];
        row_indices = [];
        values = [];
        frozen = false;
      }
      else m

module _ {ℓ} {D : Type ℓ} ⦃d : Double D⦄ where
  unfoldable pub build : SparseMatrix D → CsrView D
  build m =
      let t = transpose m in
      record {
        num_rows = m.num_rows;
        num_cols = m.num_cols;
        row_starts = t.column_starts;
        column_indices = t.row_indices;
        values = t.values;
      }

  -- `y[row] += value * xj` for the entries of a column.
  unfoldable pub multiply_column : D → List (ℕ × D) → List D → List D
  multiply_column xj [] y = y
  multiply_column xj ((r, v) ∷ c) y =
      multiply_column xj c (set y r (d.add (get_or y r d.nought) (d.mul v xj)))

  -- The columns from the `j`th on; one whose factor is zero is skipped.
  unfoldable pub multiply_from : D → ℕ → List (List (ℕ × D)) → List D → List D → List D
  multiply_from alpha j [] x y = y
  multiply_from alpha j (c ∷ cols) x y =
      let xj = d.mul alpha (get_or x j d.nought) in
      multiply_from alpha (suc j) cols x (if eq xj d.nought then y else multiply_column xj c y)

  unfoldable pub multiply_add : SparseMatrix D → List D → List D → D → List D
  multiply_add m x y alpha = multiply_from alpha 0 (columns m) x y

  unfoldable pub multiply : SparseMatrix D → List D → List D → D → List D
  multiply m x y alpha = multiply_add m x (replicate m.num_rows d.nought ++ drop m.num_rows y) alpha

  unfoldable pub dot_from : D → List (ℕ × D) → List D → D
  dot_from dot [] x = dot
  dot_from dot ((r, v) ∷ c) x = dot_from (d.add dot (d.mul v (get_or x r d.nought))) c x

  -- `y[j] += alpha * dot` for the columns from the `j`th on.
  unfoldable pub gather_columns : D → ℕ → List (List (ℕ × D)) → List D → List D → List D
  gather_columns alpha j [] x y = y
  gather_columns alpha j (c ∷ cols) x y =
      let sum = d.add (get_or y j d.nought) (d.mul alpha (dot_from d.nought c x)) in
      gather_columns alpha (suc j) cols x (set y j sum)

  unfoldable pub transpose_multiply_add : SparseMatrix D → List D → List D → D → List D
  transpose_multiply_add m x y alpha = gather_columns alpha 0 (columns m) x y

  unfoldable pub transpose_multiply : SparseMatrix D → List D → List D → D → List D
  transpose_multiply m x y alpha =
      transpose_multiply_add m x (replicate m.num_cols d.nought ++ drop m.num_cols y) alpha

  unfoldable pub largest_from : D → List D → D
  largest_from best [] = best
  largest_from best (x ∷ xs) = largest_from (Double.max best (d.abs x)) xs

  unfoldable pub max_abs_value : SparseMatrix D → D
  max_abs_value m = largest_from d.nought (if m.frozen then m.values else m.build_values)
