-- ===== src/Mps/Valid.antt =====
-- The well-formed states of the parser of src/io/mps_reader.cpp.
use sih.Prelude.{
  ℕ, zero, suc, ◌+◌, ◌≤◌, ◌<◌, ◌≡◌, ◌⊎◌, Bool, true, false, Option, none, some, List, [], ◌∷◌, ◌++◌,
  refl, arith, inl, inr, get_or, length, All, All-impl, Pairwise,
}
use sih.Prelude.Double
use sih.Prelude.Double.{Double, ◌≼◌, IsOrdered}
use sih.Text.{Bytes, same_bytes}
use sih.Mps.{
  MpsParser, RowType, VarType, MpsFormat, RowRef, constraint, unknown_row, lookup, find_row,
  find_column, initial_parser,
}
use sih.Mps.Triplets.{Triplets}
pub mod Lookups
pub mod Rows
pub mod Columns
pub mod Vectors
pub mod Bounds
pub mod BoundLine
pub mod Quadratic
pub mod Parse
pub mod Read

-- A constraint is one of the rows.
abbrev pub IsRow : ℕ → RowRef → Type 0
IsRow m (constraint i) = i < m
IsRow m _ = Unit

module _ {ℓ} {D : Type ℓ} where
  -- The arrays of the rows are parallel, and the names lead to rows.
  pub record RowsOk (m : ℕ) (rhs range : List D) (has_range : List Bool) (names : List Bytes)
      (index : List (Bytes × RowRef)) : Type ℓ where
    pub rhs_size : length rhs ≡ m
    pub range_size : length range ≡ m
    pub has_range_size : length has_range ≡ m
    pub row_names_size : length names ≡ m
    pub row_refs : All (λ x. IsRow m x.1) index

  -- The arrays of the columns are parallel, and the names lead to columns.
  pub record ColsOk (n : ℕ) (lower upper : List D) (types : List VarType) (explicit : List Bool)
      (names : List Bytes) (index : List (Bytes × ℕ)) : Type ℓ where
    pub lower_size : length lower ≡ n
    pub upper_size : length upper ≡ n
    pub type_size : length types ≡ n
    pub explicit_size : length explicit ≡ n
    pub col_names_size : length names ≡ n
    pub col_refs : All (λ x. x.1 < n) index

  abbrev pub Rows : MpsParser D → Type ℓ
  Rows p = RowsOk (length p.row_type) p.row_rhs p.row_range p.row_has_range p.row_names p.row_index

  abbrev pub Cols : MpsParser D → Type ℓ
  Cols p =
      ColsOk (length p.col_cost) p.col_lower p.col_upper p.col_type p.col_lower_explicit p.col_names
        p.col_index

-- No entry of the Hessian lies above the diagonal.
abbrev pub Lower : List ℕ → List ℕ → Type 0
Lower (r ∷ rows) (c ∷ cols) = (c ≤ r) × Lower rows cols
Lower _ _ = Unit

module _ {ℓ} {D : Type ℓ} ⦃d : Double D⦄ where
  -- The bounds of one column: where the lower one is still implicit, they do not cross.
  abbrev pub BoundOk : Bool → D → D → Type ℓ
  BoundOk explicit lower upper =
      (explicit ≡ true) ⊎ ((lower ≼ upper) × ((lower ≡ d.nought) ⊎ (lower ≡ d.neg d.infinity)))

  abbrev pub BoundsOk : MpsParser D → Type ℓ
  BoundsOk p =
      (i : ℕ)
      → BoundOk (get_or p.col_lower_explicit i false) (get_or p.col_lower i d.nought)
          (get_or p.col_upper i d.infinity)

  abbrev pub Entries : MpsParser D → Type ℓ
  Entries p =
      Triplets (length p.row_type) (length p.col_cost) p.tri_row p.tri_col p.tri_value
        p.seen_entries

  abbrev pub Hessian : MpsParser D → Type ℓ
  Hessian p =
      Triplets (length p.col_cost) (length p.col_cost) p.quad_row p.quad_col p.quad_value
        p.seen_quad_entries

  abbrev pub IsValid : MpsParser D → Type ℓ
  IsValid p = Rows p × Cols p × Entries p × Hessian p × Lower p.quad_row p.quad_col × BoundsOk p

  abbrev no_entries : Triplets {D = D} 0 0 [] [] [] []
  no_entries = record {
    same_cols = refl;
    same_values = refl;
    in_rows = tt;
    in_cols = tt;
    coefficients = tt;
    distinct = tt;
    guarded = tt;
  }

  pub initial_parser-IsValid :
      (format : MpsFormat) → IsOrdered D → IsValid (initial_parser {D = D} format)
  unfolding initial_parser
  initial_parser-IsValid format o = (
    record {
      rhs_size = refl;
      range_size = refl;
      has_range_size = refl;
      row_names_size = refl;
      row_refs = tt;
    },
    record {
      lower_size = refl;
      upper_size = refl;
      type_size = refl;
      explicit_size = refl;
      col_names_size = refl;
      col_refs = tt;
    },
    no_entries,
    no_entries,
    tt,
    λ i. inr (o.infinity-top _ o.nought-IsNumber, inl refl),
  )
