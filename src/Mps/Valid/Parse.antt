-- ===== src/Mps/Valid/Parse.antt =====
-- What a file that `parse` of src/io/mps_reader.cpp accepts has become.
use sih.Prelude.{
  ℕ, suc, ◌≡◌, ◌∙◌, Bool, true, false, not, List, [], ◌∷◌, refl, arith, inl, inr, Bool-cases,
  Option-cases, leb, length, length-map, get_or,
}
use sih.Prelude.Double.{Double, IsOrdered, normalize_infinity}
use sih.Prelude.Outcome.{
  done, Holds, Holds-raise_if, Holds-bind, done-Holds, failed-Holds, Holds-done,
}
use sih.Text.{Bytes}
use sih.Mps.{MpsParser, MpsFormat, RowType}
use sih.Mps.Split.{
  Section, no_section_yet, name_section, objsense, objsense_value, rows, columns, rhs, ranges,
  bounds, quadratic, end_section, section_from_keyword, split, split_line,
}
use sih.Mps.Vectors.{no_fields}
use sih.Mps.Finish.{MpsModel, finish_from, finish_rows, finish_model}
use sih.Mps.Parse.{
  ParseState, Step, proceed, finished, is_skipped, is_indented, awaits_objsense, open_objsense,
  open_section, handle, data_line, fields_line, parse_line, parse_lines, initial_state, parse,
}
use sih.Mps.Triplets.{Triplets}
use sih.Mps.Valid.{IsValid, Lower, initial_parser-IsValid}
use sih.Mps.Valid.Rows.{do_rows-IsValid}
use sih.Mps.Valid.Columns.{do_columns-IsValid}
use sih.Mps.Valid.Vectors.{do_rhs-IsValid, do_ranges-IsValid}
use sih.Mps.Valid.BoundLine.{do_bounds-IsValid}
use sih.Mps.Valid.Quadratic.{do_quadratic-IsValid}

true_of_not : (b : Bool) → not b ≡ false → b ≡ true
true_of_not b h = ground arith

module _ {ℓ} {D : Type ℓ} ⦃d : Double D⦄ where
  abbrev StepOk : Step D → Type ℓ
  StepOk (proceed s) = IsValid s.parser
  StepOk (finished s) = IsValid s.parser

  open_section-StepOk :
      (s : ParseState D) (next : Section) → IsValid s.parser → StepOk (open_section s next)
  unfolding open_section open_objsense
  open_section-StepOk s end_section v = v
  open_section-StepOk s name_section v = v
  open_section-StepOk s objsense v = elim (Bool-cases (leb 2 (length s.parser.tok))) [
    | inl t ↦ rw t v
    | inr f ↦ rw f v
  ]
  open_section-StepOk s no_section_yet v = v
  open_section-StepOk s objsense_value v = v
  open_section-StepOk s rows v = v
  open_section-StepOk s columns v = v
  open_section-StepOk s rhs v = v
  open_section-StepOk s ranges v = v
  open_section-StepOk s bounds v = v
  open_section-StepOk s quadratic v = v

  -- No interval of a row is empty.
  abbrev pub Ordered : List D → List D → Type 0
  Ordered (lo ∷ los) (hi ∷ his) = (d.lt hi lo ≡ false) × Ordered los his
  Ordered _ _ = Unit

  abbrev FinishOk : ℕ → List D × List D → Type 0
  FinishOk m ends = (length ends.0 ≡ m) × (length ends.1 ≡ m) × Ordered ends.0 ends.1

  finish_from-FinishOk :
      (p : MpsParser D) (i : ℕ) (types : List RowType)
      → Holds (FinishOk (length types)) (finish_from p i types)
  unfolding finish_from
  finish_from-FinishOk p i [] = done-Holds _ _ _ (refl, refl, tt)
  finish_from-FinishOk p i (type ∷ types) = Holds-raise_if _ _ _ _ (λ f.
      Holds-bind (FinishOk (length types)) _ _ _ (finish_from-FinishOk p (suc i) types)
        (λ rest _ (lows, highs, order).
          done-Holds _ _ _ (omega (arith, lows), omega (arith, highs), (f, order))))

module _ {ℓ} {D : Type ℓ} ⦃d : Double D⦄ (strtod : Bytes → D × ℕ) where
  handle-IsValid :
      (section : Section) (p : MpsParser D)
      → IsOrdered D
      → IsValid p
      → Holds IsValid (handle strtod section p)
  unfolding handle
  handle-IsValid rows p o v = do_rows-IsValid p v
  handle-IsValid columns p o v = do_columns-IsValid strtod p o v
  handle-IsValid rhs p o v = do_rhs-IsValid strtod p v
  handle-IsValid ranges p o v = do_ranges-IsValid strtod p v
  handle-IsValid bounds p o v = do_bounds-IsValid strtod p o v
  handle-IsValid quadratic p o v = do_quadratic-IsValid strtod p v
  handle-IsValid no_section_yet p o v = failed-Holds _ _
  handle-IsValid name_section p o v = failed-Holds _ _
  handle-IsValid objsense p o v = failed-Holds _ _
  handle-IsValid objsense_value p o v = failed-Holds _ _
  handle-IsValid end_section p o v = failed-Holds _ _

  data_line-StepOk :
      (s : ParseState D) → IsOrdered D → IsValid s.parser → Holds StepOk (data_line strtod s)
  unfolding data_line
  data_line-StepOk s o v = elim (Bool-cases (awaits_objsense s.section)) [
    | inl t ↦ rw t (done-Holds _ _ _ v)
    | inr f ↦ rw f (
        Holds-bind IsValid _ _ _ (handle-IsValid s.section s.parser o v)
          (λ q _ w. done-Holds _ _ _ w))
  ]

  fields_line-StepOk :
      (s : ParseState D) (line : Bytes)
      → IsOrdered D
      → IsValid s.parser
      → Holds StepOk (fields_line strtod s line)
  unfolding fields_line
  fields_line-StepOk s line o v = elim (Bool-cases (is_indented line)) [
    | inl t ↦ rw t (data_line-StepOk s o v)
    | inr f ↦ elim (Option-cases (section_from_keyword (get_or s.parser.tok 0 []))) [
      | inl e ↦ rw (f, e) (data_line-StepOk s o v)
      | inr (next, e) ↦ rw (f, e) (done-Holds _ _ _ (open_section-StepOk s next v))
    ]
  ]

  parse_line-StepOk :
      (s : ParseState D) (line : Bytes)
      → IsOrdered D
      → IsValid s.parser
      → Holds StepOk (parse_line strtod s line)
  unfolding parse_line split
  parse_line-StepOk s line o v = elim (Bool-cases (is_skipped line)) [
    | inl t ↦ rw t (done-Holds _ _ _ v)
    | inr f ↦ elim (Bool-cases (no_fields (split_line s.parser.format line))) [
      | inl t ↦ rw (f, t) (done-Holds _ _ _ v)
      | inr g ↦ rw (f, g) (fields_line-StepOk _ line o v)
    ]
  ]

  next :
      (lines : List Bytes) (step : Step D)
      → ((t : ParseState D)
          → IsValid t.parser
          → Holds (λ read. IsValid read.1.parser) (parse_lines strtod lines t))
      → StepOk step
      → Holds
          (λ read. IsValid read.1.parser)
          (elim step [ finished t ↦ done (true, t) | proceed t ↦ parse_lines strtod lines t ])
  next lines (proceed t) f w = f t w
  next lines (finished t) f w = done-Holds _ _ _ w

  parse_lines-IsValid :
      (lines : List Bytes) (s : ParseState D)
      → IsOrdered D
      → IsValid s.parser
      → Holds (λ read. IsValid read.1.parser) (parse_lines strtod lines s)
  unfolding parse_lines
  parse_lines-IsValid [] s o v = done-Holds _ _ _ v
  parse_lines-IsValid (line ∷ lines) s o v =
      Holds-bind StepOk _ _ _ (parse_line-StepOk s line o v)
        (λ step _. next lines step (λ t. parse_lines-IsValid lines t o))

  -- The arrays of the model are parallel, its entries lie in the matrix, and so on.
  pub record ModelOk (model : MpsModel D) : Type ℓ where
    pub row_upper_size : length model.row_upper ≡ length model.row_lower
    pub row_names_size : length model.row_names ≡ length model.row_lower
    pub col_lower_size : length model.col_lower ≡ length model.col_cost
    pub col_upper_size : length model.col_upper ≡ length model.col_cost
    pub col_type_size : length model.col_type ≡ length model.col_cost
    pub col_names_size : length model.col_names ≡ length model.col_cost
    pub row_order : Ordered model.row_lower model.row_upper
    pub entries :
        (seen : List ℕ) × Triplets
          (length model.row_lower)
          (length model.col_cost)
          model.entry_rows
          model.entry_cols
          model.entry_values
          seen
    pub hessian :
        (seen : List ℕ) × Triplets
          (length model.col_cost)
          (length model.col_cost)
          model.hessian_rows
          model.hessian_cols
          model.hessian_values
          seen
    pub lower_triangle : Lower model.hessian_rows model.hessian_cols

  finish_model-ModelOk :
      (p : MpsParser D) (name : Bytes) (maximize : Bool) (ends : List D × List D)
      → IsValid p
      → FinishOk (length p.row_type) ends
      → ModelOk (finish_model p name maximize ends)
  unfolding finish_model
  finish_model-ModelOk p name maximize ends (row_part, col_part, entries, hessian, lower, _)
        (lows, highs, order) =
      record {
        row_upper_size = omega (arith, lows, highs);
        row_names_size = omega (arith, lows, row_part.row_names_size);
        col_lower_size = length-map normalize_infinity p.col_lower ∙ col_part.lower_size;
        col_upper_size = length-map normalize_infinity p.col_upper ∙ col_part.upper_size;
        col_type_size = col_part.type_size;
        col_names_size = col_part.col_names_size;
        row_order = order;
        entries = (p.seen_entries, rw lows entries);
        hessian = (p.seen_quad_entries, hessian);
        lower_triangle = lower;
      }

  -- A model that the reader accepts is well formed, whatever the file: the arrays of the rows and
  -- of the columns are parallel, no row has its lower bound above its upper one, every entry and
  -- every Hessian entry has its indices in range and is finite and not zero, no two stand at one
  -- place, no Hessian entry is above the diagonal, and `validate` accepted the model.
  pub parse-ModelOk :
      (validate : MpsModel D → Bool) (format : MpsFormat) (lines : List Bytes) (model : MpsModel D)
      → IsOrdered D
      → parse strtod validate format lines ≡ done model
      → ModelOk model × (validate model ≡ true)
  unfolding parse initial_state finish_rows
  parse-ModelOk validate format lines model o h =
      Holds-done (λ m. ModelOk m × (validate m ≡ true)) _ model
        (Holds-bind (λ read. IsValid read.1.parser) _ _ _
          (parse_lines-IsValid lines (initial_state strtod format) o
            (initial_parser-IsValid format o))
          (λ read _ v. Holds-raise_if _ _ _ _ (λ _.
            Holds-bind (FinishOk (length read.1.parser.row_type)) _ _ _
              (finish_from-FinishOk read.1.parser 0 read.1.parser.row_type)
              (λ ends _ e. Holds-raise_if _ _ _ _ (λ accepted. done-Holds _ _ _ (
                finish_model-ModelOk read.1.parser read.1.name read.1.maximize ends v e,
                true_of_not _ accepted,
              ))))))
        h
