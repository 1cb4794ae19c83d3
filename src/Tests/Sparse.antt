-- ===== src/Tests/Sparse.antt =====
-- src/la/sparse.cpp on matrices of a few entries over exact integers.
use sih.Prelude.{
  ℕ, suc, true, false, ◌≡◌, ◌≤◌, ◌<◌, List, [], ◌∷◌, none, map, refl, arith, length, get_or, All,
  if◌then◌else◌, ltb,
}
use sih.Prelude.Double.{Extended, num, high, extended_double}
use sih.Prelude.Int.{pos, negsuc, ◌+ℤ◌}
use mathlib.Core.List.{Permᴰ}
use sih.Sparse.{
  SparseMatrix, max_nonzeros, reset, add_entry, finalize, freeze, transpose, at, num_nonzeros,
  column, find_row, starts_from, zip_entries, sum_rows, sum_run, keep_entry, assembled, triplets,
}
use sih.Sparse.Counting.{of_key, slice, starts_of, sort_by_key, place, count_keys, prefix_sums}
use sih.Sparse.Frozen.{Represents, freeze-Represents}
use sih.Sparse.Multiply.{row, build, multiply_add}
use sih.Sparse.Multiply.Rows.{add_terms, multiply_add_lem}
use sih.Sparse.Offers.{add_entries, at-finalize-add_entries, finalize-overflow}
use sih.Sparse.Sorting.{sort_rows, sort_rows-IsSort}
use sih.Sparse.Sums.{stored}
use sih.Sparse.Transpose.{at-transpose}
use sih.Sparse.Vector.{resize, value_at, scatter_to_dense}
use sih.Sparse.Vector.Replay.{IsVector, held, Operation, run, replay}
use sih.Sparse.Vector.Scatter.{run_lem}

abbrev start : SparseMatrix Extended
start = record {
  num_rows = 0;
  num_cols = 0;
  frozen = false;
  nonzero_limit = max_nonzeros;
  overflowed = false;
  column_starts = [];
  row_indices = [];
  values = [];
  build_rows = [];
  build_cols = [];
  build_values = [];
}

abbrev entry : ℕ → ℕ → ℕ → ℕ × (ℕ × Extended)
entry col row value = (col, (row, num (pos value)))

-- Two entries at one place, and a column out of order.
abbrev offers : List (ℕ × (ℕ × Extended))
offers = entry 1 2 5 ∷ entry 0 1 7 ∷ entry 1 0 4 ∷ entry 1 2 6 ∷ []

abbrev tolerance : Extended
tolerance = num (pos 1)

abbrev assembled_matrix : SparseMatrix Extended
assembled_matrix = finalize sort_rows tolerance (add_entries offers (reset 3 2 start))

sum_of_duplicates : at assembled_matrix 2 1 ≡ num (pos 11)
unfolding finalize add_entry reset assembled triplets zip_entries freeze starts_from at column
    find_row sum_rows sum_run keep_entry starts_of sort_by_key place count_keys prefix_sums slice
    sih.Prelude.Sort.sort sih.Prelude.Sort.insert_sorted ◌+ℤ◌
sum_of_duplicates = refl

at-finalize-add_entries_example :
    (vs : List Extended) × Permᴰ (of_key 2 (of_key 1 offers)) vs
    × (at assembled_matrix 2 1 ≡ stored tolerance vs)
at-finalize-add_entries_example =
    at-finalize-add_entries sort_rows tolerance 3 2 offers start 2 1 sort_rows-IsSort (omega arith)
      (ground arith) (ground arith) (omega arith)

abbrev small : SparseMatrix Extended
small = record start { nonzero_limit = 3 }

finalize-overflow_example :
    let q = finalize sort_rows tolerance (add_entries offers (reset 3 2 small)) in
    (q.overflowed ≡ true)
    × (q.frozen ≡ true)
    × (num_nonzeros q ≡ 0)
    × ((row col : ℕ) → at q row col ≡ num (pos 0))
finalize-overflow_example = finalize-overflow sort_rows tolerance 3 2 offers small (omega arith)

abbrev held_columns : List (List (ℕ × Extended))
held_columns = ((1, num (pos 7)) ∷ []) ∷ ((0, num (pos 4)) ∷ (2, num (pos 11)) ∷ []) ∷ []

abbrev frozen_matrix : SparseMatrix Extended
frozen_matrix = freeze held_columns (record start { num_rows = 3; num_cols = 2 })

frozen_matrix-Represents : Represents frozen_matrix held_columns
frozen_matrix-Represents =
    freeze-Represents held_columns (record start { num_rows = 3; num_cols = 2 }) refl (ground arith)

at-transpose_example :
    (at (transpose frozen_matrix) 1 2 ≡ at frozen_matrix 2 1)
    × (at (transpose (transpose frozen_matrix)) 2 1 ≡ at frozen_matrix 2 1)
unfolding freeze
at-transpose_example =
    at-transpose frozen_matrix held_columns 2 1 frozen_matrix-Represents (omega arith) (omega arith)

abbrev point : List Extended
point = num (pos 2) ∷ num (pos 3) ∷ []

abbrev target : List Extended
target = num (pos 1) ∷ num (pos 0) ∷ num (pos 0) ∷ []

multiply_add_lem_example :
    get_or (multiply_add frozen_matrix point target (num (pos 1))) 2 (num (pos 0))
    ≡ add_terms (num (pos 1)) point (num (pos 0)) (row (build frozen_matrix) 2)
unfolding freeze
multiply_add_lem_example =
    multiply_add_lem frozen_matrix held_columns point target (num (pos 1)) 2
      frozen_matrix-Represents (omega arith) (omega arith)

abbrev operations : List (Operation Extended)
operations =
    Operation.adding 2 (num (pos 5))
    ∷ Operation.adding 2 (num (negsuc 4))
    ∷ Operation.setting 0 (num (pos 3))
    ∷ Operation.compressing (num (pos 1))
    ∷ Operation.adding 1 high
    ∷ []

run_lem_example :
    let v = run operations (resize 3) in
    IsVector v
    × ((j : ℕ) → held v j ≡ replay 3 operations (λ _. none) j)
    × ((out : List Extended) (j : ℕ)
        → 3 ≤ length out
        → get_or (scatter_to_dense v out) j (num (pos 0))
          ≡ (if ltb j 3 then value_at v j else get_or out j (num (pos 0))))
run_lem_example = run_lem 3 operations (ground arith)
