-- ===== src/Mps/Valid/Rows.antt =====
-- `do_rows` of src/io/mps_reader.cpp keeps the parser well formed.
use sih.Prelude.{[], ◌∷◌, arith, inl, inr, Bool-cases, length, All-impl, length-append, get_or}
use sih.Prelude.Double.{Double}
use sih.Prelude.Outcome.{Holds, Holds-raise_if, done-Holds}
use sih.Text.{Bytes, bytes, same_bytes, to_upper}
use sih.Mps.{MpsParser, RowRef, RowType}
use sih.Mps.Rows.{push_row, assign_row, do_rows, row_type_of}
use sih.Mps.Triplets.{Triplets-grow}
use sih.Mps.Valid.{IsRow, IsValid}
use sih.Mps.Valid.Lookups.{size-snoc, size-snoc_le, IsRow-le}

module _ {ℓ} {D : Type ℓ} ⦃d : Double D⦄ where
  push_row-IsValid :
      (p : MpsParser D) (type : RowType) (name : Bytes) → IsValid p → IsValid (push_row p type name)
  unfolding push_row
  push_row-IsValid p type name (rows, cols, entries, hessian, lower, bounds) = (
    record {
      rhs_size = size-snoc p.row_rhs p.row_type _ type rows.rhs_size;
      range_size = size-snoc p.row_range p.row_type _ type rows.range_size;
      has_range_size = size-snoc p.row_has_range p.row_type _ type rows.has_range_size;
      row_names_size = size-snoc p.row_names p.row_type _ type rows.row_names_size;
      row_refs =
          All-impl _ _ p.row_index (λ x. IsRow-le _ _ (size-snoc_le p.row_type type) x.1)
            rows.row_refs;
    },
    cols,
    Triplets-grow _ _ (size-snoc_le p.row_type type) (omega arith) entries,
    hessian,
    lower,
    bounds,
  )

  -- A name that leads to a row.
  name_row :
      (p : MpsParser D) (name : Bytes) (r : RowRef)
      → IsRow (length p.row_type) r
      → IsValid p
      → IsValid (record p { row_index = (name, r) ∷ p.row_index })
  name_row p name r h (rows, cols, entries, hessian, lower, bounds) = (
    record {
      rhs_size = rows.rhs_size;
      range_size = rows.range_size;
      has_range_size = rows.has_range_size;
      row_names_size = rows.row_names_size;
      row_refs = (h, rows.row_refs);
    },
    cols,
    entries,
    hessian,
    lower,
    bounds,
  )

  assign_row-IsValid :
      (p : MpsParser D) (type name : Bytes)
      → IsValid p
      → let (assigned, q) = assign_row p type name in IsRow (length q.row_type) assigned × IsValid q
  unfolding assign_row push_row
  assign_row-IsValid p type name v = elim (Bool-cases (same_bytes type (bytes "N"))) [
    | inl t ↦ elim (Bool-cases p.have_objective_row) [
      | inl u ↦ rw (t, u) (tt, v)
      | inr u ↦ rw (t, u) (tt, v)
    ]
    | inr f ↦ rw f (
      omega (arith, length-append p.row_type (row_type_of type ∷ [])),
      push_row-IsValid p (row_type_of type) name v,
    )
  ]

  pub do_rows-IsValid : (p : MpsParser D) → IsValid p → Holds IsValid (do_rows p)
  unfolding do_rows
  do_rows-IsValid p v = Holds-raise_if _ _ _ _ (λ _. Holds-raise_if _ _ _ _ (λ _.
      Holds-raise_if _ _ _ _ (λ _.
        let type = to_upper (get_or p.tok 0 []) in
        let name = get_or p.tok 1 [] in
        let (row, w) = assign_row-IsValid p type name v in
        done-Holds _ _ _ (name_row (assign_row p type name).1 name _ row w))))
