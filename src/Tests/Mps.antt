-- ===== src/Tests/Mps.antt =====
-- src/io on small files, whose numbers are single digits.
use sih.Prelude.{ℕ, ◌-◌, ◌≡◌, Bool, true, false, List, [], ◌∷◌, refl, All}
use sih.Prelude.Double.{Extended, low, num, Extended-IsOrdered, extended_double}
use sih.Prelude.Int.{pos, ◌+ℤ◌, ◌-ℤ◌}
use sih.Prelude.Outcome.{Outcome, done, ◌>>=◌, ◌>>◌, raise_if}
use sih.Text.{
  Bytes, bytes, is_space, same_bytes, tokenize, scan, is_empty, trim_start, trim_end, trim, upper,
  to_upper, fortran_exponent, until_nul, all_space, drop, parse_double, unquote,
}
use sih.Text.Tokens.{IsToken, concat, visible, spaced, tokenize_lem}
use sih.Mps.{
  MpsError, free_format, auto_format, continuous, lookup, entry_key, is_unknown, initial_parser,
  find_row, find_column, record_objective, push_entry, record_constraint, record_entry,
}
use sih.Mps.Finish.{MpsModel, plain_bounds, row_bounds, finish_from, finish_rows, finish_model}
use sih.Mps.Parse.{
  read_mps, read_as, parse, says_maximize, is_skipped, is_indented, awaits_objsense, open_objsense,
  open_section, handle, data_line, fields_line, parse_line, parse_lines, initial_state,
}
use sih.Mps.Split.{
  section_from_keyword, take, fields_from, starts_with, cut_comment, is_header_line, split_line,
  split,
}
use sih.Mps.Rows.{row_type_of, is_row_type, push_row, assign_row, do_rows}
use sih.Mps.Columns.{
  mentions, push_column, open_column, number, entry_pair, entry_pairs, do_entries, do_columns,
}
use sih.Mps.Vectors.{honour, store_rhs, rhs_pair, rhs_pairs, rhs_fields, do_rhs}
use sih.Mps.Bounds.{
  bound_type, takes_value, column_field, set_upper, set_upper_freeing, apply_bound, bound_value,
  bound_column, bound_line, do_bounds,
}
use sih.Mps.Valid.Read.{Chosen, read_mps-ModelOk}
use sih.Mps.Valid.Parse.{ModelOk, parse-ModelOk}

tokenize_lem_example :
    let line = bytes " x  cost 1" in
    All IsToken (tokenize line)
    × (concat (tokenize line) ≡ visible line)
    × ((blank : ℕ) (words : List Bytes)
        → is_space blank ≡ true
        → All IsToken words
        → tokenize (spaced blank words) ≡ words)
tokenize_lem_example = tokenize_lem (bytes " x  cost 1")

abbrev strtod : Bytes → Extended × ℕ
strtod [] = (num (pos 0), 0)
strtod (c ∷ cs) = (num (pos (c - 48)), 1)

abbrev file : List Bytes
file =
    bytes "NAME tiny"
    ∷ bytes "ROWS"
    ∷ bytes " N cost"
    ∷ bytes " L cap"
    ∷ bytes "COLUMNS"
    ∷ bytes " x cost 2 cap 3"
    ∷ bytes "RHS"
    ∷ bytes " r cap 6"
    ∷ bytes "BOUNDS"
    ∷ bytes " UP b x 4"
    ∷ bytes "ENDATA"
    ∷ []

abbrev accepts_all : MpsModel Extended → Bool
accepts_all m = true

abbrev read : Outcome MpsError (MpsModel Extended)
read = parse strtod accepts_all free_format file

abbrev expected : MpsModel Extended
expected = record {
  name = bytes "tiny";
  row_names = bytes "cap" ∷ [];
  row_lower = low ∷ [];
  row_upper = num (pos 6) ∷ [];
  col_names = bytes "x" ∷ [];
  col_cost = num (pos 2) ∷ [];
  col_lower = num (pos 0) ∷ [];
  col_upper = num (pos 4) ∷ [];
  col_type = continuous ∷ [];
  maximize = false;
  objective_offset = num (pos 0);
  entry_rows = 0 ∷ [];
  entry_cols = 0 ∷ [];
  entry_values = num (pos 3) ∷ [];
  hessian_rows = [];
  hessian_cols = [];
  hessian_values = [];
}

file_read : read ≡ done expected
unfolding same_bytes is_empty is_space trim_start trim_end trim upper to_upper scan tokenize
    fortran_exponent until_nul all_space drop parse_double lookup entry_key is_unknown
    initial_parser find_row find_column record_objective push_entry record_constraint record_entry
    section_from_keyword take fields_from starts_with cut_comment is_header_line split_line split
    row_type_of is_row_type push_row assign_row do_rows mentions push_column open_column number
    entry_pair entry_pairs do_entries do_columns honour store_rhs rhs_pair rhs_pairs rhs_fields
    do_rhs bound_type takes_value column_field set_upper set_upper_freeing apply_bound bound_value
    bound_column bound_line do_bounds plain_bounds row_bounds finish_from finish_rows finish_model
    says_maximize is_skipped is_indented awaits_objsense open_objsense open_section handle data_line
    fields_line parse_line parse_lines initial_state parse unquote ◌>>=◌ ◌>>◌ raise_if ◌-ℤ◌ ◌+ℤ◌
file_read = refl

parse-ModelOk_example : ModelOk strtod expected × (accepts_all expected ≡ true)
parse-ModelOk_example =
    parse-ModelOk strtod accepts_all free_format file expected Extended-IsOrdered file_read

file_read_as : read_mps strtod accepts_all auto_format file ≡ done (free_format, expected)
unfolding read_mps read_as ◌>>=◌
file_read_as = rw (file_read, read_mps, read_as) refl

read_mps-ModelOk_example :
    ModelOk strtod expected
    × (accepts_all expected ≡ true)
    × Chosen strtod accepts_all auto_format free_format file expected
read_mps-ModelOk_example =
    read_mps-ModelOk strtod accepts_all auto_format free_format file expected Extended-IsOrdered
      file_read_as
