-- ===== src/Mps/Finish.antt =====
-- src/io/mps_reader.cpp: `finish_rows` and `finish_model`. The matrix and the Hessian are the
-- entries handed to `SparseMatrix::add_entry`, in their order.
use sih.Prelude.{ℕ, suc, Bool, false, not, List, [], ◌∷◌, map, if◌then◌else◌, get_or}
use sih.Prelude.Double.{Double, sub, normalize_infinity, normalize_zero}
use sih.Prelude.Outcome.{Outcome, done, ◌>>=◌, ◌>>◌, raise_if}
use sih.Text.{Bytes}
use sih.Mps.{MpsParser, MpsError, RowType, less, greater, equal, VarType, empty_range}

pub record MpsModel {ℓ} (D : Type ℓ) : Type ℓ where
  pub name : Bytes
  pub maximize : Bool
  pub objective_offset : D
  pub col_cost : List D
  pub col_lower : List D
  pub col_upper : List D
  pub col_type : List VarType
  pub col_names : List Bytes
  pub row_lower : List D
  pub row_upper : List D
  pub row_names : List Bytes
  pub entry_rows : List ℕ
  pub entry_cols : List ℕ
  pub entry_values : List D
  pub hessian_rows : List ℕ
  pub hessian_cols : List ℕ
  pub hessian_values : List D

module _ {ℓ} {D : Type ℓ} ⦃d : Double D⦄ where
  unfoldable pub plain_bounds : RowType → D → D × D
  plain_bounds less b = (d.neg d.infinity, b)
  plain_bounds greater b = (b, d.infinity)
  plain_bounds equal b = (b, b)

  unfoldable pub ranged_bounds : RowType → D → D → D × D
  ranged_bounds greater b r = (b, d.add b (d.abs r))
  ranged_bounds less b r = (sub b (d.abs r), b)
  ranged_bounds equal b r = if d.le d.nought r then (b, d.add b r) else (d.add b r, b)

  unfoldable pub row_bounds : MpsParser D → RowType → ℕ → D × D
  row_bounds p type i =
      let b = normalize_infinity (get_or p.row_rhs i d.nought) in
      if not (get_or p.row_has_range i false)
      then plain_bounds type b
      else ranged_bounds type b (get_or p.row_range i d.nought)

  unfoldable pub finish_from : MpsParser D → ℕ → List RowType → Outcome MpsError (List D × List D)
  finish_from p i [] = done ([], [])
  finish_from p i (type ∷ types) = do
    let (lo, hi) = row_bounds p type i
    raise_if (d.lt hi lo) empty_range
    rest ← finish_from p (suc i) types
    done (lo ∷ rest.0, hi ∷ rest.1)

  unfoldable pub finish_rows : MpsParser D → Outcome MpsError (List D × List D)
  finish_rows p = finish_from p 0 p.row_type

  unfoldable pub finish_model : MpsParser D → Bytes → Bool → List D × List D → MpsModel D
  finish_model p name maximize bounds = record {
    name = name;
    maximize = maximize;
    objective_offset = normalize_zero (d.neg p.objective_rhs);
    col_cost = p.col_cost;
    col_lower = map normalize_infinity p.col_lower;
    col_upper = map normalize_infinity p.col_upper;
    col_type = p.col_type;
    col_names = p.col_names;
    row_lower = bounds.0;
    row_upper = bounds.1;
    row_names = p.row_names;
    entry_rows = p.tri_row;
    entry_cols = p.tri_col;
    entry_values = p.tri_value;
    hessian_rows = p.quad_row;
    hessian_cols = p.quad_col;
    hessian_values = p.quad_value;
  }
