-- ===== src/Sparse/Offers.antt =====
-- src/la/sparse.cpp: a whole build, from `reset` over any number of `add_entry` to `finalize`.
use mathlib.Core.List.{Permᴰ, append-nil, append_assoc}
use sih.Prelude.{
  ℕ, suc, ◌+◌, ◌≤◌, ◌<◌, ◌≡◌, ◌∙◌, Bool, true, false, List, [], ◌∷◌, ◌++◌, refl, sym, ap, subst,
  arith, leb, ◌||◌, length, length-append, All, inl, inr, Bool-cases, if◌then◌else◌,
  get_or-replicate,
}
use sih.Prelude.Double.{Double}
use sih.Sparse.{
  SparseMatrix, reset, add_entry, finalize, freeze_empty, triplets, at, column, find_row,
  num_nonzeros, zip_entries, max_nonzeros,
}
use sih.Sparse.Build.{IsBuild, reset-IsBuild, add_entry-IsBuild, triplets-add_entry}
use sih.Sparse.Counting.{of_key, slice}
use sih.Sparse.Finalize.{at-finalize}
use sih.Sparse.Sorting.{IsSort}
use sih.Sparse.Sums.{stored}

module _ {ℓ} {D : Type ℓ} where
  -- Entries, each behind its column and its row, that are added in turn.
  abbrev pub add_entries : List (ℕ × (ℕ × D)) → SparseMatrix D → SparseMatrix D
  add_entries [] m = m
  add_entries ((col, (row, value)) ∷ es) m = add_entries es (add_entry row col value m)

  abbrev pub IsWithin : ℕ → ℕ → List (ℕ × (ℕ × D)) → Type 0
  IsWithin rows cols es = All (λ e. (e.0 < cols) × (e.1.0 < rows)) es

  add_entry_shape :
      (row col : ℕ) (value : D) (m : SparseMatrix D)
      → let q = add_entry row col value m in
        (q.num_rows ≡ m.num_rows)
        × (q.num_cols ≡ m.num_cols)
        × (q.nonzero_limit ≡ m.nonzero_limit)
        × (q.frozen ≡ m.frozen)
  unfolding add_entry
  add_entry_shape row col value m =
      elim (Bool-cases (leb m.nonzero_limit (length m.build_values))) [
        | inl t ↦ rw t (refl, refl, refl, refl)
        | inr f ↦ rw f (refl, refl, refl, refl)
      ]

  pub add_entries-IsBuild :
      (es : List (ℕ × (ℕ × D))) (m : SparseMatrix D)
      → IsWithin m.num_rows m.num_cols es
      → IsBuild m
      → IsBuild (add_entries es m)
  add_entries-IsBuild [] m h b = b
  add_entries-IsBuild ((col, (row, value)) ∷ es) m h b =
      let (rows, cols, limit, _) = add_entry_shape row col value m in
      add_entries-IsBuild es (add_entry row col value m) (rw (rows, cols) h.1)
        (add_entry-IsBuild row col value m h.0.1 h.0.0 b)

  add_entry-room :
      (row col : ℕ) (value : D) (m : SparseMatrix D)
      → length m.build_values < m.nonzero_limit
      → let q = add_entry row col value m in
        (length q.build_values ≡ suc (length m.build_values)) × (q.overflowed ≡ m.overflowed)
  unfolding add_entry
  add_entry-room row col value m h =
      let room : leb m.nonzero_limit (length m.build_values) ≡ false = ground arith in
      rw room (omega (arith, length-append m.build_values (value ∷ [])), refl)

  -- Entries that fit go behind the triplets that are there.
  triplets-add_entries :
      (es : List (ℕ × (ℕ × D))) (m : SparseMatrix D)
      → IsWithin m.num_rows m.num_cols es
      → IsBuild m
      → length m.build_values + length es ≤ m.nonzero_limit
      → (triplets (add_entries es m) ≡ triplets m ++ es)
        × ((add_entries es m).overflowed ≡ m.overflowed)
        × ((add_entries es m).num_cols ≡ m.num_cols)
  triplets-add_entries [] m h b n = (sym (append-nil (triplets m)), refl, refl)
  triplets-add_entries ((col, (row, value)) ∷ es) m h b n =
      let q = add_entry row col value m in
      let (rows, cols, limit, _) = add_entry_shape row col value m in
      let (size, flag) = add_entry-room row col value m (omega arith) in
      let (e, f, g) =
        triplets-add_entries es q (rw (rows, cols) h.1)
          (add_entry-IsBuild row col value m h.0.1 h.0.0 b) (omega arith) in
      let one = triplets-add_entry m b row col value (omega arith) in
      (
        e ∙ ap (λ l. l ++ es) one ∙ append_assoc (triplets m) ((col, (row, value)) ∷ []) es,
        f ∙ flag,
        g ∙ cols,
      )

  -- One entry too many sets the flag, and no later entry takes it back.
  add_entry-full :
      (row col : ℕ) (value : D) (m : SparseMatrix D)
      → m.nonzero_limit ≤ length m.build_values
      → (add_entry row col value m).overflowed ≡ true
  unfolding add_entry
  add_entry-full row col value m h =
      let none : leb m.nonzero_limit (length m.build_values) ≡ true = ground arith in rw none refl

  add_entry-overflowed :
      (row col : ℕ) (value : D) (m : SparseMatrix D)
      → m.overflowed ≡ true
      → (add_entry row col value m).overflowed ≡ true
  unfolding add_entry
  add_entry-overflowed row col value m h =
      elim (Bool-cases (leb m.nonzero_limit (length m.build_values))) [
        | inl t ↦ rw t refl
        | inr f ↦ rw f h
      ]

  add_entries-overflowed :
      (es : List (ℕ × (ℕ × D))) (m : SparseMatrix D)
      → m.overflowed ≡ true
      → (add_entries es m).overflowed ≡ true
  add_entries-overflowed [] m h = h
  add_entries-overflowed ((col, (row, value)) ∷ es) m h =
      add_entries-overflowed es (add_entry row col value m) (add_entry-overflowed row col value m h)

  add_entries-building :
      (es : List (ℕ × (ℕ × D))) (m : SparseMatrix D)
      → m.frozen ≡ false
      → (add_entries es m).frozen ≡ false
  add_entries-building [] m h = h
  add_entries-building ((col, (row, value)) ∷ es) m h =
      let (_, _, _, same) = add_entry_shape row col value m in
      add_entries-building es (add_entry row col value m) (same ∙ h)

  pub add_entries_too_many :
      (es : List (ℕ × (ℕ × D))) (m : SparseMatrix D)
      → length m.build_values ≤ m.nonzero_limit
      → m.nonzero_limit < length m.build_values + length es
      → (add_entries es m).overflowed ≡ true
  add_entries_too_many [] m h n = absurd (omega arith)
  add_entries_too_many ((col, (row, value)) ∷ es) m h n =
      elim (Bool-cases (leb m.nonzero_limit (length m.build_values))) [
        | inl t ↦ add_entries-overflowed es _ (add_entry-full row col value m (ground arith))
        | inr f ↦
            let room : length m.build_values < m.nonzero_limit = ground arith in
            let (rows, cols, limit, _) = add_entry_shape row col value m in
            let (size, flag) = add_entry-room row col value m room in
            add_entries_too_many es (add_entry row col value m) (omega arith) (omega arith)
      ]

second {ℓ} :
    {A : Type ℓ} (a b c : Bool) (x y z : A)
    → a ≡ false
    → b ≡ true
    → (if a then x else if b || c then y else z) ≡ y
second a b c x y z h k = rw (h, k) refl

module _ {ℓ} {D : Type ℓ} ⦃d : Double D⦄ (sort : List (ℕ × D) → List (ℕ × D)) where
  -- A build within the limit, of entries in range, with a sort that permutes and ascends in the rows: a
  -- place reads as the sum from zero of the values of the entries at the place, in some order, unless
  -- the sum is negligible or there is none.
  pub at-finalize-add_entries :
      (drop_tol : D) (rows cols : ℕ) (es : List (ℕ × (ℕ × D))) (m : SparseMatrix D) (row col : ℕ)
      → IsSort sort
      → m.nonzero_limit ≤ max_nonzeros
      → IsWithin rows cols es
      → length es ≤ m.nonzero_limit
      → col < cols
      → (vs : List D) × Permᴰ (of_key row (of_key col es)) vs
        × (at (finalize sort drop_tol (add_entries es (reset rows cols m))) row col
            ≡ stored drop_tol vs)
  unfolding reset triplets zip_entries
  at-finalize-add_entries drop_tol rows cols es m row col s l w n h =
      let start = reset rows cols m in
      let b = reset-IsBuild rows cols m l in
      let (e, flag, size) = triplets-add_entries es start w b (omega arith) in
      let (vs, p, q) =
        at-finalize sort s drop_tol (add_entries es start) (add_entries-IsBuild es start w b) row
          col (omega arith) flag in
      (vs, subst (λ (ts : List (ℕ × (ℕ × D))). Permᴰ (of_key row (of_key col ts)) vs) e p, q)

  -- An empty matrix reads as zero everywhere.
  at-freeze_empty : (m : SparseMatrix D) (row col : ℕ) → at (freeze_empty m) row col ≡ d.nought
  unfolding at freeze_empty column slice zip_entries find_row
  at-freeze_empty m row col =
      rw
        (
          get_or-replicate {A = ℕ} (suc m.num_cols) col 0,
          get_or-replicate {A = ℕ} (suc m.num_cols) (suc col) 0,
        )
        refl

  finalize-freeze_empty :
      (drop_tol : D) (m : SparseMatrix D)
      → m.frozen ≡ false
      → m.overflowed ≡ true
      → finalize sort drop_tol m ≡ freeze_empty m
  unfolding finalize
  finalize-freeze_empty drop_tol m h k = second m.frozen m.overflowed _ m (freeze_empty m) _ h k

  -- A build that was offered more entries than the limit freezes as the empty matrix, with the flag set:
  -- every place reads as zero.
  pub finalize-overflow :
      (drop_tol : D) (rows cols : ℕ) (es : List (ℕ × (ℕ × D))) (m : SparseMatrix D)
      → m.nonzero_limit < length es
      → let q = finalize sort drop_tol (add_entries es (reset rows cols m)) in
        (q.overflowed ≡ true)
        × (q.frozen ≡ true)
        × (num_nonzeros q ≡ 0)
        × ((row col : ℕ) → at q row col ≡ d.nought)
  unfolding reset freeze_empty num_nonzeros
  finalize-overflow drop_tol rows cols es m h =
      let start = reset rows cols m in
      let flag = add_entries_too_many es start (omega arith) (omega arith) in
      let e =
        finalize-freeze_empty drop_tol (add_entries es start) (add_entries-building es start refl)
          flag in
      rw e (refl, refl, refl, at-freeze_empty (add_entries es start))
