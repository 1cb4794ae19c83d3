-- ===== src/Mps/Valid/Vectors.antt =====
-- `do_rhs` and `do_ranges` of src/io keep the parser well formed.
use sih.Prelude.{
  ℕ, ◌%◌, ◌∙◌, true, ◌==◌, List, [], ◌∷◌, inl, inr, Bool-cases, length, length-set, get_or,
}
use sih.Prelude.Double.{Double}
use sih.Prelude.Outcome.{Holds, Holds-raise_if, Holds-bind, done-Holds, any-Holds}
use sih.Text.{Bytes, same_bytes}
use sih.Mps.{MpsParser, RowRef, constraint, objective_row, ignored_row, unknown_row, find_row}
use sih.Mps.Columns.{rest_of}
use sih.Mps.Vectors.{
  honour, store_rhs, store_range, rhs_pair, rhs_pairs, rhs_fields, do_rhs, range_pair, range_pairs,
  range_fields, do_ranges,
}
use sih.Mps.Valid.{IsValid}

module _ {ℓ} {D : Type ℓ} ⦃d : Double D⦄ where
  store_rhs-IsValid :
      (p : MpsParser D) (r : RowRef) (value : D) → IsValid p → IsValid (store_rhs p r value)
  unfolding store_rhs
  store_rhs-IsValid p (constraint i) value (rows, cols, entries, hessian, lower, bounds) = (
    record {
      rhs_size = length-set p.row_rhs i value ∙ rows.rhs_size;
      range_size = rows.range_size;
      has_range_size = rows.has_range_size;
      row_names_size = rows.row_names_size;
      row_refs = rows.row_refs;
    },
    cols,
    entries,
    hessian,
    lower,
    bounds,
  )
  store_rhs-IsValid p objective_row value v = v
  store_rhs-IsValid p ignored_row value v = v
  store_rhs-IsValid p unknown_row value v = v

  store_range-IsValid :
      (p : MpsParser D) (r : RowRef) (value : D) → IsValid p → IsValid (store_range p r value)
  unfolding store_range
  store_range-IsValid p (constraint i) value (rows, cols, entries, hessian, lower, bounds) = (
    record {
      rhs_size = rows.rhs_size;
      range_size = length-set p.row_range i value ∙ rows.range_size;
      has_range_size = length-set p.row_has_range i true ∙ rows.has_range_size;
      row_names_size = rows.row_names_size;
      row_refs = rows.row_refs;
    },
    cols,
    entries,
    hessian,
    lower,
    bounds,
  )
  store_range-IsValid p objective_row value v = v
  store_range-IsValid p ignored_row value v = v
  store_range-IsValid p unknown_row value v = v

module _ {ℓ} {D : Type ℓ} ⦃d : Double D⦄ (strtod : Bytes → D × ℕ) where
  rhs_pairs-IsValid :
      (fields : List Bytes) (p : MpsParser D)
      → IsValid p
      → Holds IsValid (rhs_pairs strtod fields p)
  unfolding rhs_pairs rhs_pair
  rhs_pairs-IsValid [] p v = done-Holds _ _ _ v
  rhs_pairs-IsValid (name ∷ []) p v = done-Holds _ _ _ v
  rhs_pairs-IsValid (name ∷ text ∷ rest) p v =
      Holds-bind IsValid _ _ _
        (Holds-raise_if _ _ _ _ (λ _.
          Holds-bind (λ _. Unit {0}) _ _ _ (any-Holds _)
            (λ value _ _. done-Holds _ _ _ (store_rhs-IsValid p (find_row p name) value v))))
        (λ q _ w. rhs_pairs-IsValid rest q w)

  rhs_fields-IsValid :
      (fields : List Bytes) (p : MpsParser D)
      → IsValid p
      → Holds IsValid (rhs_fields strtod fields p)
  unfolding rhs_fields
  rhs_fields-IsValid fields p v = Holds-raise_if _ _ _ _ (λ _. rhs_pairs-IsValid fields p v)

  pub do_rhs-IsValid : (p : MpsParser D) → IsValid p → Holds IsValid (do_rhs strtod p)
  unfolding do_rhs
  do_rhs-IsValid p v =
      let name = get_or p.tok 0 [] in
      elim (Bool-cases (length p.tok % 2 == 1)) [
        | inl t ↦ elim (Bool-cases (same_bytes name (honour p.rhs_vector name))) [
          | inl u ↦ rw (t, u) (rhs_fields-IsValid (rest_of p.tok) _ v)
          | inr u ↦ rw (t, u) (done-Holds _ _ _ v)
        ]
        | inr f ↦ rw f (rhs_fields-IsValid p.tok p v)
      ]

  range_pairs-IsValid :
      (fields : List Bytes) (p : MpsParser D)
      → IsValid p
      → Holds IsValid (range_pairs strtod fields p)
  unfolding range_pairs range_pair
  range_pairs-IsValid [] p v = done-Holds _ _ _ v
  range_pairs-IsValid (name ∷ []) p v = done-Holds _ _ _ v
  range_pairs-IsValid (name ∷ text ∷ rest) p v =
      Holds-bind IsValid _ _ _
        (Holds-raise_if _ _ _ _ (λ _.
          Holds-bind (λ _. Unit {0}) _ _ _ (any-Holds _)
            (λ value _ _.
              Holds-raise_if _ _ _ _
                (λ _. done-Holds _ _ _ (store_range-IsValid p (find_row p name) value v)))))
        (λ q _ w. range_pairs-IsValid rest q w)

  range_fields-IsValid :
      (fields : List Bytes) (p : MpsParser D)
      → IsValid p
      → Holds IsValid (range_fields strtod fields p)
  unfolding range_fields
  range_fields-IsValid fields p v = Holds-raise_if _ _ _ _ (λ _. range_pairs-IsValid fields p v)

  pub do_ranges-IsValid : (p : MpsParser D) → IsValid p → Holds IsValid (do_ranges strtod p)
  unfolding do_ranges
  do_ranges-IsValid p v =
      let name = get_or p.tok 0 [] in
      elim (Bool-cases (length p.tok % 2 == 1)) [
        | inl t ↦ elim (Bool-cases (same_bytes name (honour p.range_vector name))) [
          | inl u ↦ rw (t, u) (range_fields-IsValid (rest_of p.tok) _ v)
          | inr u ↦ rw (t, u) (done-Holds _ _ _ v)
        ]
        | inr f ↦ rw f (range_fields-IsValid p.tok p v)
      ]
