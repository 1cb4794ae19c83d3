-- ===== src/Mps/Rows.antt =====
-- src/io/mps_reader.cpp: `do_rows`, the handler of a line of ROWS.
use sih.Prelude.{
  suc, Bool, true, false, not, ◌||◌, ◌==◌, Option, none, some, [], ◌∷◌, ◌++◌, if◌then◌else◌, get_or,
  length,
}
use sih.Prelude.Double.{Double}
use sih.Prelude.Outcome.{Outcome, done, ◌>>◌, raise_if}
use sih.Text.{Bytes, bytes, same_bytes, to_upper}
use sih.Mps.{
  MpsParser, MpsError, RowRef, RowType, less, greater, equal, objective_row, ignored_row,
  constraint, lookup, wrong_field_count, unknown_row_type, duplicate_row,
}

unfoldable pub row_type_of : Bytes → RowType
row_type_of type =
    if same_bytes type (bytes "L")
    then less
    else if same_bytes type (bytes "G")
    then greater
    else equal

unfoldable pub is_row_type : Bytes → Bool
is_row_type type =
    same_bytes type (bytes "N")
    || same_bytes type (bytes "L")
    || same_bytes type (bytes "G")
    || same_bytes type (bytes "E")

abbrev pub is_some {ℓ} : {A : Type ℓ} → Option A → Bool
is_some none = false
is_some (some a) = true

module _ {ℓ} {D : Type ℓ} ⦃d : Double D⦄ where
  unfoldable pub push_row : MpsParser D → RowType → Bytes → MpsParser D
  push_row p type name = record p {
    row_type = p.row_type ++ type ∷ [];
    row_rhs = p.row_rhs ++ d.nought ∷ [];
    row_range = p.row_range ++ d.nought ∷ [];
    row_has_range = p.row_has_range ++ false ∷ [];
    row_names = p.row_names ++ name ∷ [];
  }

  -- The first N row is the objective, a later one is dropped, and any other is a constraint.
  unfoldable pub assign_row : MpsParser D → Bytes → Bytes → RowRef × MpsParser D
  assign_row p type name =
      if not (same_bytes type (bytes "N"))
      then (constraint (length p.row_type), push_row p (row_type_of type) name)
      else if not p.have_objective_row
      then (objective_row, record p { have_objective_row = true })
      else (ignored_row, record p { free_rows_dropped = suc p.free_rows_dropped })

  unfoldable pub do_rows : MpsParser D → Outcome MpsError (MpsParser D)
  do_rows p = do
    raise_if (not (length p.tok == 2)) wrong_field_count
    let type = to_upper (get_or p.tok 0 [])
    let name = get_or p.tok 1 []
    raise_if (not (is_row_type type)) unknown_row_type
    raise_if (is_some (lookup p.row_index name)) duplicate_row
    let (assigned, q) = assign_row p type name
    done (record q { row_index = (name, assigned) ∷ q.row_index })
