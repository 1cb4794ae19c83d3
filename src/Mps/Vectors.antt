-- ===== src/Mps/Vectors.antt =====
-- src/io/mps_reader.cpp and src/io/mps_bounds.cpp: `do_rhs` and `do_ranges`. Only the first named
-- vector of each section is honoured.
use sih.Prelude.{
  ℕ, ◌%◌, Bool, true, false, not, ◌==◌, List, [], ◌∷◌, if◌then◌else◌, get_or, set, length,
}
use sih.Prelude.Double.{Double}
use sih.Prelude.Outcome.{Outcome, done, ◌>>=◌, ◌>>◌, raise_if}
use sih.Text.{Bytes, same_bytes, is_empty}
use sih.Mps.{
  MpsParser, MpsError, RowRef, objective_row, constraint, find_row, is_unknown, row_not_found,
  no_pair, range_on_objective,
}
use sih.Mps.Columns.{number, rest_of}

-- The name of the vector that is honoured, once a line names one.
unfoldable pub honour : Bytes → Bytes → Bytes
honour vector name = if is_empty vector then name else vector

abbrev pub no_fields : List Bytes → Bool
no_fields [] = true
no_fields (t ∷ ts) = false

abbrev pub is_objective : RowRef → Bool
is_objective objective_row = true
is_objective _ = false

module _ {ℓ} {D : Type ℓ} where
  unfoldable pub store_rhs : MpsParser D → RowRef → D → MpsParser D
  store_rhs p objective_row value = record p { objective_rhs = value }
  store_rhs p (constraint row) value = record p { row_rhs = set p.row_rhs row value }
  store_rhs p _ value = p

  unfoldable pub store_range : MpsParser D → RowRef → D → MpsParser D
  store_range p (constraint row) value = record p {
    row_range = set p.row_range row value;
    row_has_range = set p.row_has_range row true;
  }
  store_range p _ value = p

module _ {ℓ} {D : Type ℓ} ⦃d : Double D⦄ (strtod : Bytes → D × ℕ) where
  unfoldable pub rhs_pair : MpsParser D → Bytes → Bytes → Outcome MpsError (MpsParser D)
  rhs_pair p name text = do
    raise_if (is_unknown (find_row p name)) row_not_found
    value ← number strtod text
    done (store_rhs p (find_row p name) value)

  unfoldable pub rhs_pairs : List Bytes → MpsParser D → Outcome MpsError (MpsParser D)
  rhs_pairs (name ∷ text ∷ rest) p = do q ← rhs_pair p name text; rhs_pairs rest q
  rhs_pairs _ p = done p

  unfoldable pub rhs_fields : List Bytes → MpsParser D → Outcome MpsError (MpsParser D)
  rhs_fields fields p = do raise_if (no_fields fields) no_pair; rhs_pairs fields p

  unfoldable pub do_rhs : MpsParser D → Outcome MpsError (MpsParser D)
  do_rhs p =
      let name = get_or p.tok 0 [] in
      let first = honour p.rhs_vector name in
      let named : MpsParser D = record p { rhs_vector = first } in
      if not (length p.tok % 2 == 1)
      then rhs_fields p.tok p
      else if same_bytes name first
      then rhs_fields (rest_of p.tok) named
      else done (record named { warned_extra_vector = true })

  unfoldable pub range_pair : MpsParser D → Bytes → Bytes → Outcome MpsError (MpsParser D)
  range_pair p name text = do
    raise_if (is_unknown (find_row p name)) row_not_found
    value ← number strtod text
    raise_if (is_objective (find_row p name)) range_on_objective
    done (store_range p (find_row p name) value)

  unfoldable pub range_pairs : List Bytes → MpsParser D → Outcome MpsError (MpsParser D)
  range_pairs (name ∷ text ∷ rest) p = do q ← range_pair p name text; range_pairs rest q
  range_pairs _ p = done p

  unfoldable pub range_fields : List Bytes → MpsParser D → Outcome MpsError (MpsParser D)
  range_fields fields p = do raise_if (no_fields fields) no_pair; range_pairs fields p

  unfoldable pub do_ranges : MpsParser D → Outcome MpsError (MpsParser D)
  do_ranges p =
      let name = get_or p.tok 0 [] in
      let first = honour p.range_vector name in
      let named : MpsParser D = record p { range_vector = first } in
      if not (length p.tok % 2 == 1)
      then range_fields p.tok p
      else if same_bytes name first
      then range_fields (rest_of p.tok) named
      else done named
