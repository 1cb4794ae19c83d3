-- ===== src/Mps/Columns.antt =====
-- src/io/mps_reader.cpp: `do_columns`, the handler of a line of COLUMNS.
use sih.Prelude.{
  ℕ, Bool, true, false, not, ◌&&◌, ◌||◌, ◌==◌, none, some, List, [], ◌∷◌, ◌++◌, if◌then◌else◌,
  get_or, length,
}
use sih.Prelude.Double.{Double}
use sih.Prelude.Outcome.{Outcome, failed, done, ◌>>=◌, ◌>>◌, raise_if}
use sih.Text.{Bytes, bytes, same_bytes, to_upper, unquote, parse_double}
use sih.Mps.{
  MpsParser, MpsError, integer, continuous, find_row, find_column, is_unknown, record_entry,
  wrong_field_count, bad_marker, row_not_found, not_a_number,
}

unfoldable pub mentions : List Bytes → Bytes → Bool
mentions [] word = false
mentions (t ∷ ts) word = same_bytes (to_upper (unquote t)) word || mentions ts word

module _ {ℓ} {D : Type ℓ} ⦃d : Double D⦄ where
  unfoldable pub do_marker : MpsParser D → Outcome MpsError (MpsParser D)
  do_marker p =
      if mentions p.tok (bytes "INTORG")
      then done (record p { integer_marker_active = true })
      else if mentions p.tok (bytes "INTEND")
      then done (record p { integer_marker_active = false })
      else failed bad_marker

  unfoldable pub push_column : MpsParser D → Bytes → MpsParser D
  push_column p name = record p {
    col_index = (name, length p.col_cost) ∷ p.col_index;
    col_names = p.col_names ++ name ∷ [];
    col_cost = p.col_cost ++ d.nought ∷ [];
    col_lower = p.col_lower ++ d.nought ∷ [];
    col_upper = p.col_upper ++ d.infinity ∷ [];
    col_type = p.col_type ++ (if p.integer_marker_active then integer else continuous) ∷ [];
    col_lower_explicit = p.col_lower_explicit ++ false ∷ [];
  }

  -- The column's index, a new column where the name is new.
  unfoldable pub open_column : MpsParser D → Bytes → ℕ × MpsParser D
  open_column p name = elim (find_column p name) [
    | some col ↦ (col, p)
    | none ↦ (length p.col_cost, push_column p name)
  ]

-- The fields behind the first.
abbrev pub rest_of : List Bytes → List Bytes
rest_of [] = []
rest_of (t ∷ ts) = ts

module _ {ℓ} {D : Type ℓ} ⦃d : Double D⦄ (strtod : Bytes → D × ℕ) where
  unfoldable pub number : Bytes → Outcome MpsError D
  number text = elim (parse_double strtod text) [ some v ↦ done v | none ↦ failed not_a_number ]

  unfoldable pub entry_pair : ℕ → MpsParser D → Bytes → Bytes → Outcome MpsError (MpsParser D)
  entry_pair col p name text = do
    raise_if (is_unknown (find_row p name)) row_not_found
    value ← number text
    record_entry p (find_row p name) col value

  unfoldable pub entry_pairs : ℕ → List Bytes → MpsParser D → Outcome MpsError (MpsParser D)
  entry_pairs col (name ∷ text ∷ rest) p = do q ← entry_pair col p name text; entry_pairs col rest q
  entry_pairs col _ p = done p

  unfoldable pub do_entries : MpsParser D → Outcome MpsError (MpsParser D)
  do_entries p = do
    raise_if (not (length p.tok == 3) && not (length p.tok == 5)) wrong_field_count
    let (col, q) = open_column p (get_or p.tok 0 [])
    entry_pairs col (rest_of p.tok) q

  unfoldable pub do_columns : MpsParser D → Outcome MpsError (MpsParser D)
  do_columns p =
      if mentions p.tok (bytes "MARKER")
        || mentions p.tok (bytes "INTORG")
        || mentions p.tok (bytes "INTEND")
      then do_marker p
      else do_entries p
