-- ===== src/Mps/Valid/Columns.antt =====
-- `do_columns` of src/io/mps_reader.cpp keeps the parser well formed.
use sih.Prelude.{
  ℕ, ◌<◌, ◌≡◌, true, false, List, [], ◌∷◌, refl, arith, inl, inr, Bool-cases, Option-cases, ◌||◌,
  ◌==◌, length, length-set, length-append, All-impl, get_or,
}
use sih.Prelude.Double.{Double, IsOrdered, eq, is_finite}
use sih.Prelude.Outcome.{
  Holds, Holds-raise_if, Holds-bind, done-Holds, failed-Holds, any-Holds, Holds-impl,
}
use sih.Text.{Bytes, bytes}
use sih.Mps.{
  MpsParser, RowRef, constraint, objective_row, ignored_row, unknown_row, find_row, find_column,
  record_entry, record_objective, record_constraint, push_entry,
}
use sih.Mps.Columns.{
  mentions, do_marker, push_column, open_column, entry_pair, entry_pairs, do_entries, do_columns,
  rest_of,
}
use sih.Mps.Triplets.{Triplets-grow, Triplets-mark, Triplets-push}
use sih.Mps.Valid.{IsRow, IsValid}
use sih.Mps.Valid.Lookups.{size-snoc, size-snoc_le, find_row-IsRow, find_column-lt, get_or-snoc}

module _ {ℓ} {D : Type ℓ} ⦃d : Double D⦄ where
  do_marker-IsValid : (p : MpsParser D) → IsValid p → Holds IsValid (do_marker p)
  unfolding do_marker
  do_marker-IsValid p v = elim (Bool-cases (mentions p.tok (bytes "INTORG"))) [
    | inl t ↦ rw t (done-Holds _ _ _ v)
    | inr f ↦ elim (Bool-cases (mentions p.tok (bytes "INTEND"))) [
      | inl t ↦ rw (f, t) (done-Holds _ _ _ v)
      | inr g ↦ rw (f, g) (failed-Holds _ _)
    ]
  ]

  push_column-IsValid :
      (p : MpsParser D) (name : Bytes)
      → IsOrdered D
      → IsValid p
      → IsValid (push_column p name) × (length p.col_cost < length (push_column p name).col_cost)
  unfolding push_column
  push_column-IsValid p name o (rows, cols, entries, hessian, lower, bounds) =
      let more = size-snoc_le p.col_cost d.nought in
      let longer = length-append p.col_cost (d.nought ∷ []) in
      (
        (
          rows,
          record {
            lower_size = size-snoc p.col_lower p.col_cost _ _ cols.lower_size;
            upper_size = size-snoc p.col_upper p.col_cost _ _ cols.upper_size;
            type_size = size-snoc p.col_type p.col_cost _ _ cols.type_size;
            explicit_size = size-snoc p.col_lower_explicit p.col_cost _ _ cols.explicit_size;
            col_names_size = size-snoc p.col_names p.col_cost _ _ cols.col_names_size;
            col_refs = (
              omega (arith, longer),
              All-impl _ _ p.col_index (λ x b. omega (arith, b, more)) cols.col_refs,
            );
          },
          Triplets-grow _ _ (omega arith) more entries,
          Triplets-grow _ _ more more hessian,
          lower,
          λ i.
              rw
                (
                  get_or-snoc p.col_lower_explicit i false false,
                  get_or-snoc p.col_lower i d.nought d.nought,
                  get_or-snoc p.col_upper i d.infinity d.infinity,
                  cols.explicit_size,
                  cols.lower_size,
                  cols.upper_size,
                )
                (elim (Bool-cases (length p.col_cost == i)) [
                  | inl t ↦ rw t (inr (o.infinity-top _ o.nought-IsNumber, inl refl))
                  | inr f ↦ rw f (bounds i)
                ]),
        ),
        omega (arith, longer),
      )

  open_column-IsValid :
      (p : MpsParser D) (name : Bytes)
      → IsOrdered D
      → IsValid p
      → let (col, q) = open_column p name in IsValid q × (col < length q.col_cost)
  unfolding open_column
  open_column-IsValid p name o v = elim (Option-cases (find_column p name)) [
    | inl e ↦ rw (open_column, e) (push_column-IsValid p name o v)
    | inr (u, e) ↦ rw (open_column, e) (v, find_column-lt p name u v.1 e)
  ]

  -- A well-formed state in which the column exists.
  abbrev Open : ℕ → MpsParser D → Type ℓ
  Open col p = IsValid p × (col < length p.col_cost)

  record_objective-Open :
      (p : MpsParser D) (col : ℕ) (value : D)
      → Open col p
      → Holds (Open col) (record_objective p col value)
  unfolding record_objective
  record_objective-Open p col value (v, h) =
      Holds-raise_if _ _ _ _ (λ _. done-Holds _ _ _ (rw (length-set p.col_cost col value) (v, h)))

  record_constraint-Open :
      (p : MpsParser D) (row col : ℕ) (value : D)
      → row < length p.row_type
      → is_finite value ≡ true
      → Open col p
      → Holds (Open col) (record_constraint p row col value)
  unfolding record_constraint push_entry
  record_constraint-Open p row col value in_m fin
        ((rows, cols, entries, hessian, lower, bounds), h) =
      Holds-raise_if _ _ _ _ (λ new. done-Holds _ _ _ (elim (Bool-cases (eq value d.nought)) [
        | inl t ↦ rw t ((rows, cols, Triplets-mark _ entries, hessian, lower, bounds), h)
        | inr f ↦ rw f (
          (
            rows,
            cols,
            Triplets-push row col value in_m h (fin, f) new entries,
            hessian,
            lower,
            bounds,
          ),
          h,
        )
      ]))

  record_entry-Open :
      (p : MpsParser D) (r : RowRef) (col : ℕ) (value : D)
      → IsRow (length p.row_type) r
      → Open col p
      → Holds (Open col) (record_entry p r col value)
  unfolding record_entry
  record_entry-Open p ignored_row col value row v = done-Holds _ _ _ v
  record_entry-Open p unknown_row col value row v = failed-Holds _ _
  record_entry-Open p objective_row col value row v =
      Holds-raise_if _ _ _ _ (λ _. record_objective-Open p col value v)
  record_entry-Open p (constraint i) col value row v =
      Holds-raise_if _ _ _ _ (λ fin. record_constraint-Open p i col value row (ground arith) v)

module _ {ℓ} {D : Type ℓ} ⦃d : Double D⦄ (strtod : Bytes → D × ℕ) where
  entry_pairs-Open :
      (col : ℕ) (fields : List Bytes) (p : MpsParser D)
      → Open col p
      → Holds (Open col) (entry_pairs strtod col fields p)
  unfolding entry_pairs entry_pair
  entry_pairs-Open col [] p v = done-Holds _ _ _ v
  entry_pairs-Open col (name ∷ []) p v = done-Holds _ _ _ v
  entry_pairs-Open col (name ∷ text ∷ rest) p v =
      Holds-bind (Open col) _ _ _
        (Holds-raise_if _ _ _ _ (λ _.
          Holds-bind (λ _. Unit {0}) _ _ _ (any-Holds _)
            (λ value _ _.
              record_entry-Open p (find_row p name) col value (find_row-IsRow p name v.0.0) v)))
        (λ q _ w. entry_pairs-Open col rest q w)

  do_entries-IsValid :
      (p : MpsParser D) → IsOrdered D → IsValid p → Holds IsValid (do_entries strtod p)
  unfolding do_entries
  do_entries-IsValid p o v = Holds-raise_if _ _ _ _ (λ _.
      Holds-impl _ _ _ (λ q w. w.0)
        (entry_pairs-Open _ (rest_of p.tok) _ (open_column-IsValid p (get_or p.tok 0 []) o v)))

  pub do_columns-IsValid :
      (p : MpsParser D) → IsOrdered D → IsValid p → Holds IsValid (do_columns strtod p)
  unfolding do_columns
  do_columns-IsValid p o v =
      let marker =
        mentions p.tok (bytes "MARKER")
        || mentions p.tok (bytes "INTORG")
        || mentions p.tok (bytes "INTEND") in
      elim (Bool-cases marker) [
        | inl t ↦ rw t (do_marker-IsValid p v)
        | inr f ↦ rw f (do_entries-IsValid p o v)
      ]
