-- ===== src/Sparse/Build.antt =====
-- src/la/sparse.cpp: the build representation, which `reset` starts and `add_entry` grows.
use sih.Prelude.{
  ℕ, suc, ◌≤◌, ◌<◌, ◌≡◌, false, List, [], ◌∷◌, ◌++◌, refl, sym, ap, ◌∙◌, arith, leb, length, All,
  All-append, length-append, inl, inr, Bool-cases,
}
use sih.Prelude.Int.{ℤ, pos, negsuc}
use sih.Sparse.{
  SparseMatrix, reset, set_nonzero_limit, add_entry, triplets, zip_entries, max_nonzeros,
}

-- A matrix that is being built: three parallel arrays of entries in range, no longer than the limit.
pub record IsBuild {ℓ} {D : Type ℓ} (m : SparseMatrix D) : Type ℓ where
  pub building : m.frozen ≡ false
  pub rows_size : length m.build_rows ≡ length m.build_values
  pub cols_size : length m.build_cols ≡ length m.build_values
  pub rows_within : All (λ r. r < m.num_rows) m.build_rows
  pub cols_within : All (λ c. c < m.num_cols) m.build_cols
  pub limited : length m.build_values ≤ m.nonzero_limit
  pub limit : m.nonzero_limit ≤ max_nonzeros

module _ {ℓ} {D : Type ℓ} where
  pub reset-IsBuild :
      (rows cols : ℕ) (m : SparseMatrix D)
      → m.nonzero_limit ≤ max_nonzeros
      → IsBuild (reset rows cols m)
  unfolding reset
  reset-IsBuild rows cols m h = record {
    building = refl;
    rows_size = refl;
    cols_size = refl;
    rows_within = tt;
    cols_within = tt;
    limited = omega arith;
    limit = h;
  }

  -- Whatever limit is asked for, a build may start.
  pub reset-set_nonzero_limit-IsBuild :
      (limit : ℤ) (rows cols : ℕ) (m : SparseMatrix D)
      → IsBuild (reset rows cols (set_nonzero_limit limit m))
  unfolding set_nonzero_limit
  reset-set_nonzero_limit-IsBuild (pos n) rows cols m =
      reset-IsBuild rows cols (set_nonzero_limit (pos n) m) (ground arith)
  reset-set_nonzero_limit-IsBuild (negsuc n) rows cols m =
      reset-IsBuild rows cols (set_nonzero_limit (negsuc n) m) (omega arith)

  pub add_entry-IsBuild :
      (row col : ℕ) (value : D) (m : SparseMatrix D)
      → row < m.num_rows
      → col < m.num_cols
      → IsBuild m
      → IsBuild (add_entry row col value m)
  unfolding add_entry
  add_entry-IsBuild row col value m hr hc b =
      elim (Bool-cases (leb m.nonzero_limit (length m.build_values))) [
        | inl t ↦ rw t (record {
          building = b.building;
          rows_size = b.rows_size;
          cols_size = b.cols_size;
          rows_within = b.rows_within;
          cols_within = b.cols_within;
          limited = b.limited;
          limit = b.limit;
        })
        | inr f ↦
            let rows = length-append m.build_rows (row ∷ []) in
            let cols = length-append m.build_cols (col ∷ []) in
            let values = length-append m.build_values (value ∷ []) in
            rw f (record {
              building = b.building;
              rows_size = omega (arith, rows, values, b.rows_size);
              cols_size = omega (arith, cols, values, b.cols_size);
              rows_within = All-append _ m.build_rows (row ∷ []) b.rows_within (hr, tt);
              cols_within = All-append _ m.build_cols (col ∷ []) b.cols_within (hc, tt);
              limited = ground (arith, values);
              limit = b.limit;
            })
      ]

module _ {ℓ} {A : Type ℓ} where
  pub zip_entries-append :
      (rs : List ℕ) (vs : List A) (r : ℕ) (v : A)
      → length rs ≡ length vs
      → zip_entries (rs ++ r ∷ []) (vs ++ v ∷ []) ≡ zip_entries rs vs ++ (r, v) ∷ []
  unfolding zip_entries
  zip_entries-append [] [] r v h = refl
  zip_entries-append [] (w ∷ vs) r v h = absurd (omega arith)
  zip_entries-append (s ∷ rs) [] r v h = absurd (omega arith)
  zip_entries-append (s ∷ rs) (w ∷ vs) r v h =
      ap (λ l. (s, w) ∷ l) (zip_entries-append rs vs r v (omega arith))

  pub length-zip_entries :
      (rs : List ℕ) (vs : List A) → length rs ≡ length vs → length (zip_entries rs vs) ≡ length vs
  unfolding zip_entries
  length-zip_entries [] [] h = refl
  length-zip_entries [] (w ∷ vs) h = absurd (omega arith)
  length-zip_entries (s ∷ rs) [] h = absurd (omega arith)
  length-zip_entries (s ∷ rs) (w ∷ vs) h = ap suc (length-zip_entries rs vs (omega arith))

  zip_entries-All :
      (P : ℕ → Type 0) (Q : A → Type 0) (rs : List ℕ) (vs : List A)
      → All P rs
      → All Q vs
      → All (λ e. P e.0 × Q e.1) (zip_entries rs vs)
  unfolding zip_entries
  zip_entries-All P Q [] vs h k = tt
  zip_entries-All P Q (r ∷ rs) [] h k = tt
  zip_entries-All P Q (r ∷ rs) (v ∷ vs) h k = ((h.0, k.0), zip_entries-All P Q rs vs h.1 k.1)

  zip_entries-rows :
      (P : ℕ → Type 0) (rs : List ℕ) (vs : List A) → All P rs → All (λ e. P e.0) (zip_entries rs vs)
  unfolding zip_entries
  zip_entries-rows P [] vs h = tt
  zip_entries-rows P (r ∷ rs) [] h = tt
  zip_entries-rows P (r ∷ rs) (v ∷ vs) h = (h.0, zip_entries-rows P rs vs h.1)

module _ {ℓ} {D : Type ℓ} (m : SparseMatrix D) (b : IsBuild m) where
  pub triplets-within : All (λ e. (e.0 < m.num_cols) × (e.1.0 < m.num_rows)) (triplets m)
  unfolding triplets
  triplets-within =
      zip_entries-All (λ c. c < m.num_cols) (λ e. e.0 < m.num_rows) m.build_cols _ b.cols_within
        (zip_entries-rows (λ r. r < m.num_rows) m.build_rows m.build_values b.rows_within)

  pub length-triplets : length (triplets m) ≡ length m.build_values
  unfolding triplets
  length-triplets =
      let inner = length-zip_entries m.build_rows m.build_values b.rows_size in
      length-zip_entries m.build_cols _ (b.cols_size ∙ sym inner) ∙ inner

  -- An entry within the limit goes behind the others.
  pub triplets-add_entry :
      (row col : ℕ) (value : D)
      → length m.build_values < m.nonzero_limit
      → triplets (add_entry row col value m) ≡ triplets m ++ (col, (row, value)) ∷ []
  unfolding triplets add_entry
  triplets-add_entry row col value h =
      let room : leb m.nonzero_limit (length m.build_values) ≡ false = ground arith in
      let inner = length-zip_entries m.build_rows m.build_values b.rows_size in
      rw (room, zip_entries-append m.build_rows m.build_values row value b.rows_size)
        (zip_entries-append m.build_cols (zip_entries m.build_rows m.build_values) col (row, value)
          (b.cols_size ∙ sym inner))
