-- ===== src/Mps/Quadratic.antt =====
-- src/io/mps_reader.cpp: `do_quadratic`, the handler of a line of QUADOBJ.
use sih.Prelude.{ℕ, not, Option, none, some, [], ◌∷◌, ◌++◌, if◌then◌else◌, ltb, get_or, length}
use sih.Prelude.Double.{Double, is_finite, eq}
use sih.Prelude.Outcome.{Outcome, failed, done, ◌>>=◌, ◌>>◌, raise_if}
use sih.Text.{Bytes}
use sih.Mps.{
  MpsParser, MpsError, contains, entry_key, find_column, wrong_field_count, column_not_found,
  not_finite, duplicate_hessian_entry,
}
use sih.Mps.Columns.{number}

unfoldable pub larger : ℕ → ℕ → ℕ
larger a b = if ltb a b then b else a

unfoldable pub smaller : ℕ → ℕ → ℕ
smaller a b = if ltb b a then b else a

unfoldable pub require_column : Option ℕ → Outcome {0, 0} MpsError ℕ
require_column none = failed column_not_found
require_column (some col) = done col

module _ {ℓ} {D : Type ℓ} ⦃d : Double D⦄ where
  unfoldable pub push_hessian : MpsParser D → ℕ → ℕ → D → MpsParser D
  push_hessian p row col value = record p {
    quad_row = p.quad_row ++ row ∷ [];
    quad_col = p.quad_col ++ col ∷ [];
    quad_value = p.quad_value ++ value ∷ [];
  }

  -- The entry of the lower triangle.
  unfoldable pub record_hessian : MpsParser D → ℕ → ℕ → D → Outcome MpsError (MpsParser D)
  record_hessian p row col value = do
    raise_if (not (is_finite value)) not_finite
    raise_if (contains p.seen_quad_entries (entry_key row col)) duplicate_hessian_entry
    let marked = record p { seen_quad_entries = entry_key row col ∷ p.seen_quad_entries }
    done (if eq value d.nought then marked else push_hessian marked row col value)

module _ {ℓ} {D : Type ℓ} ⦃d : Double D⦄ (strtod : Bytes → D × ℕ) where
  unfoldable pub do_quadratic : MpsParser D → Outcome MpsError (MpsParser D)
  do_quadratic p = do
    raise_if (ltb (length p.tok) 3) wrong_field_count
    first ← require_column (find_column p (get_or p.tok 0 []))
    second ← require_column (find_column p (get_or p.tok 1 []))
    value ← number strtod (get_or p.tok 2 [])
    record_hessian p (larger first second) (smaller first second) value
