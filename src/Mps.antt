-- ===== src/Mps.antt =====
-- src/io/mps_parser.hpp and src/io/mps_reader.cpp: the state of the MPS parser, its lookups and the
-- record of a matrix entry. A handler gives the new state or an error; after an error the reader
-- drops the state, so what the failing handler had written is left out. Messages are constructors.
use Prim.Native.String.{String}
use sih.Prelude.{
  ℕ, zero, suc, ◌+◌, ◌*◌, ◌%◌, Bool, true, false, not, ◌&&◌, ◌||◌, ◌==◌, Option, none, some, List,
  [], ◌∷◌, ◌++◌, if◌then◌else◌, get_or, set,
}
use sih.Prelude.Double
use sih.Prelude.Double.{Double, is_finite, eq}
use sih.Prelude.Outcome.{Outcome, failed, done, ◌>>=◌, ◌>>◌, raise_if}
use sih.Text.{Bytes, bytes, same_bytes}
pub mod Split
pub mod Rows
pub mod Columns
pub mod Vectors
pub mod Bounds
pub mod Quadratic
pub mod Finish
pub mod Parse
pub mod Triplets
pub mod Valid

pub data MpsFormat : Type 0 where
  auto_format free_format fixed_format : MpsFormat

pub data VarType : Type 0 where
  continuous integer : VarType

-- A row index: a constraint, or one of the sentinels -1, -2 and -3.
pub data RowRef : Type 0 where
  objective_row ignored_row unknown_row : RowRef
  constraint : ℕ → RowRef

-- 'L', 'G' and 'E'
pub data RowType : Type 0 where
  less greater equal : RowType

pub data MpsError : Type 0 where
  wrong_field_count unknown_row_type duplicate_row bad_marker : MpsError
  row_not_found column_not_found not_a_number not_finite duplicate_entry : MpsError
  no_pair range_on_objective unknown_bound_type semi_continuous : MpsError
  duplicate_hessian_entry empty_range no_section no_endata invalid_model : MpsError

pub record MpsParser {ℓ} (D : Type ℓ) : Type ℓ where
  pub format : MpsFormat
  pub tok : List Bytes
  pub row_index : List (Bytes × RowRef)
  pub row_type : List RowType
  pub row_rhs : List D
  pub row_range : List D
  pub row_has_range : List Bool
  pub row_names : List Bytes
  pub have_objective_row : Bool
  pub objective_rhs : D
  pub col_index : List (Bytes × ℕ)
  pub col_cost : List D
  pub col_lower : List D
  pub col_upper : List D
  pub col_type : List VarType
  pub col_lower_explicit : List Bool
  pub col_names : List Bytes
  pub integer_marker_active : Bool
  pub tri_row : List ℕ
  pub tri_col : List ℕ
  pub tri_value : List D
  pub seen_entries : List ℕ
  pub seen_objective : List ℕ
  pub quad_row : List ℕ
  pub quad_col : List ℕ
  pub quad_value : List D
  pub seen_quad_entries : List ℕ
  pub rhs_vector : Bytes
  pub range_vector : Bytes
  pub bound_vector : Bytes
  pub warned_extra_vector : Bool
  pub free_rows_dropped : ℕ

-- `unordered_map::find`
unfoldable pub lookup {ℓ} : {A : Type ℓ} → List (Bytes × A) → Bytes → Option A
lookup [] name = none
lookup (x ∷ xs) name = let rest = lookup xs name in if same_bytes x.0 name then some x.1 else rest

abbrev pub contains : List ℕ → ℕ → Bool
contains [] k = false
contains (x ∷ xs) k = x == k || contains xs k

-- The key of a pair of indices, each cast to 32 bits.
unfoldable pub entry_key : ℕ → ℕ → ℕ
entry_key row col = (row % 4_294_967_296) * 4_294_967_296 + col % 4_294_967_296

unfoldable pub is_unknown : RowRef → Bool
is_unknown unknown_row = true
is_unknown _ = false

unfoldable pub initial_parser {ℓ} : {D : Type ℓ} ⦃d : Double D⦄ → MpsFormat → MpsParser D
initial_parser ⦃d⦄ format = record {
  format = format;
  tok = [];
  row_index = [];
  row_type = [];
  row_rhs = [];
  row_range = [];
  row_has_range = [];
  row_names = [];
  have_objective_row = false;
  objective_rhs = d.nought;
  col_index = [];
  col_cost = [];
  col_lower = [];
  col_upper = [];
  col_type = [];
  col_lower_explicit = [];
  col_names = [];
  integer_marker_active = false;
  tri_row = [];
  tri_col = [];
  tri_value = [];
  seen_entries = [];
  seen_objective = [];
  quad_row = [];
  quad_col = [];
  quad_value = [];
  seen_quad_entries = [];
  rhs_vector = [];
  range_vector = [];
  bound_vector = [];
  warned_extra_vector = false;
  free_rows_dropped = 0;
}

module _ {ℓ} {D : Type ℓ} where
  unfoldable pub find_row : MpsParser D → Bytes → RowRef
  find_row p name = elim (lookup p.row_index name) [ some row ↦ row | none ↦ unknown_row ]

  unfoldable pub find_column : MpsParser D → Bytes → Option ℕ
  find_column p name = lookup p.col_index name

module _ {ℓ} {D : Type ℓ} ⦃d : Double D⦄ where
  unfoldable pub record_objective : MpsParser D → ℕ → D → Outcome MpsError (MpsParser D)
  record_objective p col value = do
    raise_if (contains p.seen_objective col) duplicate_entry
    done (record p { seen_objective = col ∷ p.seen_objective; col_cost = set p.col_cost col value })

  unfoldable pub push_entry : MpsParser D → ℕ → ℕ → D → MpsParser D
  push_entry p row col value = record p {
    tri_row = p.tri_row ++ row ∷ [];
    tri_col = p.tri_col ++ col ∷ [];
    tri_value = p.tri_value ++ value ∷ [];
  }

  unfoldable pub record_constraint : MpsParser D → ℕ → ℕ → D → Outcome MpsError (MpsParser D)
  record_constraint p row col value = do
    raise_if (contains p.seen_entries (entry_key row col)) duplicate_entry
    let marked = record p { seen_entries = entry_key row col ∷ p.seen_entries }
    done (if eq value d.nought then marked else push_entry marked row col value)

  -- An unknown row is refused by the callers; it would index the names with -3 here.
  unfoldable pub record_entry : MpsParser D → RowRef → ℕ → D → Outcome MpsError (MpsParser D)
  record_entry p ignored_row col value = done p
  record_entry p unknown_row col value = failed row_not_found
  record_entry p objective_row col value = do
    raise_if (not (is_finite value)) not_finite
    record_objective p col value
  record_entry p (constraint row) col value = do
    raise_if (not (is_finite value)) not_finite
    record_constraint p row col value
