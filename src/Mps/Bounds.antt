-- ===== src/Mps/Bounds.antt =====
-- src/io/mps_bounds.cpp: `do_bounds`, the handler of a line of BOUNDS.
use sih.Prelude.{
  ℕ, suc, Bool, true, false, not, ◌&&◌, ◌==◌, Option, none, some, [], if◌then◌else◌, ltb, leb,
  get_or, set, length,
}
use sih.Prelude.Double.{Double, normalize_infinity}
use sih.Prelude.Outcome.{Outcome, failed, done, ◌>>=◌, ◌>>◌, raise_if}
use sih.Text.{Bytes, bytes, same_bytes, to_upper}
use sih.Mps.{
  MpsParser, MpsError, integer, find_column, wrong_field_count, unknown_bound_type,
  column_not_found, semi_continuous,
}
use sih.Mps.Columns.{number}
use sih.Mps.Vectors.{honour}

pub data BoundType : Type 0 where
  up lo fx fr mi pl bv li ui sc : BoundType

unfoldable pub bound_type : Bytes → Option BoundType
bound_type type =
    if same_bytes type (bytes "UP")
    then some up
    else if same_bytes type (bytes "LO")
    then some lo
    else if same_bytes type (bytes "FX")
    then some fx
    else if same_bytes type (bytes "LI")
    then some li
    else if same_bytes type (bytes "UI")
    then some ui
    else if same_bytes type (bytes "SC")
    then some sc
    else if same_bytes type (bytes "FR")
    then some fr
    else if same_bytes type (bytes "MI")
    then some mi
    else if same_bytes type (bytes "PL")
    then some pl
    else if same_bytes type (bytes "BV")
    then some bv
    else none

unfoldable pub takes_value : BoundType → Bool
takes_value fr = false
takes_value mi = false
takes_value pl = false
takes_value bv = false
takes_value _ = true

-- The field of the column: behind the vector's name, where the line has one.
unfoldable pub column_field : BoundType → ℕ → Option ℕ
column_field type fields =
    if takes_value type
    then (if fields == 4 then some 2 else if fields == 3 then some 1 else none)
    else if leb 3 fields
    then some 2
    else some 1

module _ {ℓ} {D : Type ℓ} ⦃d : Double D⦄ where
  unfoldable pub set_lower : MpsParser D → ℕ → D → MpsParser D
  set_lower p u value = record p {
    col_lower = set p.col_lower u value;
    col_lower_explicit = set p.col_lower_explicit u true;
  }

  unfoldable pub set_upper : MpsParser D → ℕ → D → MpsParser D
  set_upper p u value = record p { col_upper = set p.col_upper u value }

  -- A negative upper bound frees a lower bound that is still the implicit one.
  unfoldable pub set_upper_freeing : MpsParser D → ℕ → D → MpsParser D
  set_upper_freeing p u value =
      let q = set_upper p u value in
      if d.lt value d.nought && not (get_or p.col_lower_explicit u false)
      then record q { col_lower = set p.col_lower u (d.neg d.infinity) }
      else q

  unfoldable pub set_integer : MpsParser D → ℕ → MpsParser D
  set_integer p u = record p { col_type = set p.col_type u integer }

  unfoldable pub apply_bound : MpsParser D → BoundType → ℕ → D → Outcome MpsError (MpsParser D)
  apply_bound p up u value = done (set_upper_freeing p u value)
  apply_bound p lo u value = done (set_lower p u value)
  apply_bound p fx u value = done (set_upper (set_lower p u value) u value)
  apply_bound p fr u value = done (set_upper (set_lower p u (d.neg d.infinity)) u d.infinity)
  apply_bound p mi u value = done (set_lower p u (d.neg d.infinity))
  apply_bound p pl u value = done (set_upper p u d.infinity)
  apply_bound p bv u value = done (set_upper (set_lower (set_integer p u) u d.nought) u d.one)
  apply_bound p li u value = done (set_lower (set_integer p u) u value)
  apply_bound p ui u value = done (set_upper_freeing (set_integer p u) u value)
  apply_bound p sc u value = failed semi_continuous

module _ {ℓ} {D : Type ℓ} ⦃d : Double D⦄ (strtod : Bytes → D × ℕ) where
  unfoldable pub bound_value : BoundType → Bytes → Outcome MpsError D
  bound_value type text =
      if takes_value type
      then (do value ← number strtod text; done (normalize_infinity value))
      else done d.nought

  -- The part of `do_bounds` behind the check of the vector's name.
  unfoldable pub bound_column : MpsParser D → BoundType → ℕ → Outcome MpsError (MpsParser D)
  bound_column p type field = elim (find_column p (get_or p.tok field [])) [
    | none ↦ failed column_not_found
    | some u ↦ do value ← bound_value type (get_or p.tok (suc field) []); apply_bound p type u value
  ]

  unfoldable pub bound_line : MpsParser D → BoundType → ℕ → Outcome MpsError (MpsParser D)
  bound_line p type field =
      let name = get_or p.tok 1 [] in
      let first = honour p.bound_vector name in
      let named : MpsParser D = record p { bound_vector = first } in
      if not (field == 2)
      then bound_column p type field
      else if same_bytes name first
      then bound_column named type field
      else done named

  unfoldable pub do_bounds : MpsParser D → Outcome MpsError (MpsParser D)
  do_bounds p = do
    raise_if (ltb (length p.tok) 2) wrong_field_count
    elim (bound_type (to_upper (get_or p.tok 0 []))) [
      | none ↦ failed unknown_bound_type
      | some type ↦ elim (column_field type (length p.tok)) [
        | none ↦ failed wrong_field_count
        | some field ↦ bound_line p type field
      ]
    ]
