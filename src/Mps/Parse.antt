-- ===== src/Mps/Parse.antt =====
-- src/io/mps_reader.cpp: `parse` and `read_mps`. A file is the list of its lines; `validate` is
-- `Model::validate`, as a test.
use sih.Prelude.{
  ℕ, Bool, true, false, not, ◌||◌, ◌==◌, none, some, List, [], ◌∷◌, if◌then◌else◌, leb, get_or,
  length,
}
use sih.Prelude.Double.{Double}
use sih.Prelude.Outcome.{Outcome, failed, done, ◌>>=◌, ◌>>◌, raise_if}
use sih.Text.{Bytes, bytes, same_bytes, is_space, to_upper}
use sih.Mps.{
  MpsParser, MpsError, MpsFormat, auto_format, free_format, fixed_format, initial_parser,
  no_section, no_endata, invalid_model,
}
use sih.Mps.Split.{
  Section, no_section_yet, name_section, objsense, objsense_value, rows, columns, rhs, ranges,
  bounds, quadratic, end_section, section_from_keyword, split,
}
use sih.Mps.Rows.{do_rows}
use sih.Mps.Columns.{do_columns}
use sih.Mps.Vectors.{do_rhs, do_ranges, no_fields}
use sih.Mps.Bounds.{do_bounds}
use sih.Mps.Quadratic.{do_quadratic}
use sih.Mps.Finish.{MpsModel, finish_rows, finish_model}

-- The locals of `parse` that live across lines, with the model fields it sets on the way.
pub record ParseState {ℓ} (D : Type ℓ) : Type ℓ where
  pub parser : MpsParser D
  pub section : Section
  pub name : Bytes
  pub maximize : Bool

pub data Step {ℓ} (D : Type ℓ) : Type ℓ where
  proceed finished : ParseState D → Step D

unfoldable pub says_maximize : Bytes → Bool
says_maximize text =
    let value = to_upper text in
    same_bytes value (bytes "MAX") || same_bytes value (bytes "MAXIMIZE")

-- The first byte of a line that decides its treatment.
unfoldable pub is_skipped : Bytes → Bool
is_skipped [] = true
is_skipped (c ∷ cs) = c == b'*'

unfoldable pub is_indented : Bytes → Bool
is_indented [] = false
is_indented (c ∷ cs) = is_space c

unfoldable pub awaits_objsense : Section → Bool
awaits_objsense objsense_value = true
awaits_objsense _ = false

module _ {ℓ} {D : Type ℓ} where
  unfoldable pub open_objsense : ParseState D → ParseState D
  open_objsense s =
      if leb 2 (length s.parser.tok)
      then record s {
        maximize = says_maximize (get_or s.parser.tok 1 []);
        section = no_section_yet;
      }
      else record s { section = objsense_value }

  unfoldable pub open_section : ParseState D → Section → Step D
  open_section s end_section = finished s
  open_section s name_section =
      proceed (record s { name = get_or s.parser.tok 1 []; section = no_section_yet })
  open_section s objsense = proceed (open_objsense s)
  open_section s next = proceed (record s { section = next })

module _ {ℓ} {D : Type ℓ} ⦃d : Double D⦄ (strtod : Bytes → D × ℕ) where
  unfoldable pub handle : Section → MpsParser D → Outcome MpsError (MpsParser D)
  handle rows p = do_rows p
  handle columns p = do_columns strtod p
  handle rhs p = do_rhs strtod p
  handle ranges p = do_ranges strtod p
  handle bounds p = do_bounds strtod p
  handle quadratic p = do_quadratic strtod p
  handle _ p = failed no_section

  unfoldable pub data_line : ParseState D → Outcome MpsError (Step D)
  data_line s =
      let handled : Outcome MpsError (Step D) = (do
        q ← handle s.section s.parser
        done (proceed (record s { parser = q }))) in
      let value : ParseState D = record s {
        maximize = says_maximize (get_or s.parser.tok 0 []);
        section = no_section_yet;
      } in
      if awaits_objsense s.section then done (proceed value) else handled

  unfoldable pub fields_line : ParseState D → Bytes → Outcome MpsError (Step D)
  fields_line s line =
      let keyword = section_from_keyword (get_or s.parser.tok 0 []) in
      if is_indented line
      then data_line s
      else (elim keyword [ some next ↦ done (open_section s next) | none ↦ data_line s ])

  unfoldable pub parse_line : ParseState D → Bytes → Outcome MpsError (Step D)
  parse_line s line =
      let t : ParseState D = record s { parser = split s.parser line } in
      if is_skipped line
      then done (proceed s)
      else if no_fields t.parser.tok
      then done (proceed t)
      else fields_line t line

  -- Whether ENDATA was seen, and the state there.
  unfoldable pub parse_lines : List Bytes → ParseState D → Outcome MpsError (Bool × ParseState D)
  parse_lines [] s = done (false, s)
  parse_lines (line ∷ lines) s = do
    step ← parse_line s line
    elim step [ finished t ↦ done (true, t) | proceed t ↦ parse_lines lines t ]

  unfoldable pub initial_state : MpsFormat → ParseState D
  initial_state format = record {
    parser = initial_parser format;
    section = no_section_yet;
    name = [];
    maximize = false;
  }

  module _ (validate : MpsModel D → Bool) where
    unfoldable pub parse : MpsFormat → List Bytes → Outcome MpsError (MpsModel D)
    parse format lines = do
      read ← parse_lines lines (initial_state format)
      raise_if (not read.0) no_endata
      row_bounds ← finish_rows read.1.parser
      let model = finish_model read.1.parser read.1.name read.1.maximize row_bounds
      raise_if (not (validate model)) invalid_model
      done model

    -- The model with the format that was used.
    unfoldable pub read_as : MpsFormat → List Bytes → Outcome MpsError (MpsFormat × MpsModel D)
    read_as format lines = do model ← parse format lines; done (format, model)

    unfoldable pub read_mps : MpsFormat → List Bytes → Outcome MpsError (MpsFormat × MpsModel D)
    read_mps auto_format lines = elim (read_as free_format lines) [
      | done model ↦ done model
      | failed e ↦ elim (read_as fixed_format lines) [
        | done model ↦ done model
        | failed _ ↦ failed e
      ]
    ]
    read_mps format lines = read_as format lines
