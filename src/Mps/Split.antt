-- ===== src/Mps/Split.antt =====
-- src/io/mps_reader.cpp: the section keywords and `split`, which makes the fields of a line.
use sih.Prelude.{
  ℕ, zero, suc, Bool, false, not, ◌||◌, ◌==◌, Option, none, some, List, [], ◌∷◌, if◌then◌else◌, leb,
  length,
}
use sih.Text.{Bytes, bytes, same_bytes, is_empty, is_space, trim, to_upper, tokenize, drop}
use sih.Mps.{MpsParser, MpsFormat, fixed_format}

pub data Section : Type 0 where
  no_section_yet name_section objsense objsense_value rows columns rhs ranges bounds quadratic
        end_section :
      Section

pub record FixedField : Type 0 where
  pub offset : ℕ
  pub width : ℕ

abbrev field : ℕ → ℕ → FixedField
field offset width = record { offset = offset; width = width }

abbrev fixed_fields : List FixedField
fixed_fields = field 1 2 ∷ field 4 8 ∷ field 14 8 ∷ field 24 12 ∷ field 39 8 ∷ field 49 12 ∷ []

unfoldable pub section_from_keyword : Bytes → Option Section
section_from_keyword keyword =
    let k = to_upper keyword in
    if same_bytes k (bytes "NAME")
    then some name_section
    else if same_bytes k (bytes "OBJSENSE") || same_bytes k (bytes "OBJSENS")
    then some objsense
    else if same_bytes k (bytes "ROWS")
    then some rows
    else if same_bytes k (bytes "COLUMNS")
    then some columns
    else if same_bytes k (bytes "RHS")
    then some rhs
    else if same_bytes k (bytes "RANGES")
    then some ranges
    else if same_bytes k (bytes "BOUNDS")
    then some bounds
    else if same_bytes k (bytes "QUADOBJ")
        || same_bytes k (bytes "QMATRIX")
        || same_bytes k (bytes "QSECTION")
        || same_bytes k (bytes "QUADS")
    then some quadratic
    else if same_bytes k (bytes "ENDATA")
    then some end_section
    else none

unfoldable pub take : ℕ → Bytes → Bytes
take zero s = []
take (suc n) [] = []
take (suc n) (c ∷ cs) = c ∷ take n cs

-- The loop over the column windows; it ends at the first one past the line.
unfoldable pub fields_from : List FixedField → Bytes → List Bytes
fields_from [] line = []
fields_from (f ∷ fs) line =
    let rest = fields_from fs line in
    let text = trim (take f.width (drop f.offset line)) in
    if leb (length line) f.offset then [] else if is_empty text then rest else text ∷ rest

unfoldable pub starts_with : ℕ → Bytes → Bool
starts_with c [] = false
starts_with c (d ∷ ds) = d == c

-- The tokens in front of a comment.
unfoldable pub cut_comment : List Bytes → List Bytes
cut_comment [] = []
cut_comment (t ∷ ts) = let rest = cut_comment ts in if starts_with b'$' t then [] else t ∷ rest

unfoldable pub is_header_line : Bytes → Bool
is_header_line [] = false
is_header_line (c ∷ cs) = not (is_space c)

unfoldable pub split_line : MpsFormat → Bytes → List Bytes
split_line fixed_format line =
    if is_header_line line then tokenize line else fields_from fixed_fields line
split_line _ line = cut_comment (tokenize line)

unfoldable pub split {ℓ} : {D : Type ℓ} → MpsParser D → Bytes → MpsParser D
split p line = record p { tok = split_line p.format line }
