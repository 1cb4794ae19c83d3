-- ===== src/Mps/Valid/BoundLine.antt =====
-- A line of BOUNDS, from its fields to the bounds it writes, keeps the parser well formed.
use sih.Prelude.{ℕ, ◌≡◌, ◌==◌, some, [], arith, inl, inr, Bool-cases, Option-cases, length, get_or}
use sih.Prelude.Double.{Double, IsNumber, IsOrdered, is_infinite, normalize_infinity}
use sih.Prelude.Outcome.{Holds, Holds-raise_if, Holds-bind, done-Holds, failed-Holds}
use sih.Text.{Bytes, same_bytes, to_upper, parse_double}
use sih.Mps.{MpsParser, find_column}
use sih.Mps.Columns.{number}
use sih.Mps.Vectors.{honour}
use sih.Mps.Bounds.{
  BoundType, bound_type, takes_value, column_field, bound_value, bound_column, bound_line,
  do_bounds,
}
use sih.Mps.Valid.{IsValid}
use sih.Mps.Valid.Bounds.{apply_bound-IsValid}
use sih.Mps.Valid.Lookups.{find_column-lt}

module _ {ℓ} {D : Type ℓ} ⦃d : Double D⦄ where
  normalize_infinity-IsNumber : (v : D) → IsOrdered D → IsNumber v → IsNumber (normalize_infinity v)
  normalize_infinity-IsNumber v o n =
      let (_, top) = o.numbers_of_le _ _ (o.infinity-top v n) in
      let (bottom, _) = o.numbers_of_le _ _ (o.infinity-bottom v n) in
      elim (Bool-cases (is_infinite v)) [
        | inl t ↦ elim (Bool-cases (d.lt d.nought v)) [
          | inl u ↦ rw (t, u) top
          | inr u ↦ rw (t, u) bottom
        ]
        | inr f ↦ rw f n
      ]

module _ {ℓ} {D : Type ℓ} ⦃d : Double D⦄ (strtod : Bytes → D × ℕ) where
  -- A field that is read as a number is not a NaN.
  parse_double-IsNumber : (text : Bytes) (v : D) → parse_double strtod text ≡ some v → IsNumber v
  unfolding parse_double
  parse_double-IsNumber text v h = ground arith

  number-IsNumber : (text : Bytes) → Holds IsNumber (number strtod text)
  unfolding number
  number-IsNumber text = elim (Option-cases (parse_double strtod text)) [
    | inl e ↦ rw (number, e) (failed-Holds _ _)
    | inr (v, e) ↦ rw (number, e) (done-Holds _ _ _ (parse_double-IsNumber text v e))
  ]

  bound_value-IsNumber :
      (type : BoundType) (text : Bytes)
      → IsOrdered D
      → Holds IsNumber (bound_value strtod type text)
  unfolding bound_value
  bound_value-IsNumber type text o = elim (Bool-cases (takes_value type)) [
    | inl t ↦ rw t (
        Holds-bind IsNumber _ _ _ (number-IsNumber text)
          (λ v _ n. done-Holds _ _ _ (normalize_infinity-IsNumber v o n)))
    | inr f ↦ rw f (done-Holds _ _ _ o.nought-IsNumber)
  ]

  bound_column-IsValid :
      (p : MpsParser D) (type : BoundType) (field : ℕ)
      → IsOrdered D
      → IsValid p
      → Holds IsValid (bound_column strtod p type field)
  unfolding bound_column
  bound_column-IsValid p type field o v =
      elim (Option-cases (find_column p (get_or p.tok field []))) [
        | inl e ↦ rw (bound_column, e) (failed-Holds _ _)
        | inr (u, e) ↦
            rw (bound_column, e)
              (Holds-bind IsNumber _ _ _ (bound_value-IsNumber type _ o) (λ value _ n.
                apply_bound-IsValid p type u value o (find_column-lt p _ u v.1 e) n v))
      ]

  bound_line-IsValid :
      (p : MpsParser D) (type : BoundType) (field : ℕ)
      → IsOrdered D
      → IsValid p
      → Holds IsValid (bound_line strtod p type field)
  unfolding bound_line
  bound_line-IsValid p type field o v =
      let name = get_or p.tok 1 [] in
      elim (Bool-cases (field == 2)) [
        | inl t ↦ elim (Bool-cases (same_bytes name (honour p.bound_vector name))) [
          | inl u ↦ rw (t, u) (bound_column-IsValid _ type field o v)
          | inr u ↦ rw (t, u) (done-Holds _ _ _ v)
        ]
        | inr f ↦ rw f (bound_column-IsValid p type field o v)
      ]

  pub do_bounds-IsValid :
      (p : MpsParser D) → IsOrdered D → IsValid p → Holds IsValid (do_bounds strtod p)
  unfolding do_bounds
  do_bounds-IsValid p o v = Holds-raise_if _ _ _ _ (λ _.
      elim (Option-cases (bound_type (to_upper (get_or p.tok 0 [])))) [
        | inl e ↦ rw e (failed-Holds _ _)
        | inr (type, e) ↦ elim (Option-cases (column_field type (length p.tok))) [
          | inl e' ↦ rw (e, e') (failed-Holds _ _)
          | inr (field, e') ↦ rw (e, e') (bound_line-IsValid p type field o v)
        ]
      ])
