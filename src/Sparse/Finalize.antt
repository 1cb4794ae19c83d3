-- ===== src/Sparse/Finalize.antt =====
-- src/la/sparse.cpp: what `finalize` makes of the triplets.
use mathlib.Core.List.{Permᴰ}
use sih.Prelude.{
  ℕ, ◌+◌, ◌<◌, ◌≡◌, ◌∙◌, Bool, false, ◌||◌, List, [], map, refl, sym, ap, subst, arith, ltb, ◌==◌,
  if◌then◌else◌, length, replicate, range, All, All-impl, All-filter, length-map, length-range,
  length-replicate, map-range-eq, map-range-All, get_or-map-range,
}
use sih.Prelude.Double.{Double}
use sih.Prelude.Sort.{All-map}
use sih.Sparse.{
  SparseMatrix, freeze, freeze_empty, finalize, assembled, triplets, at, find_row, sum_rows,
  max_nonzeros,
}
use sih.Sparse.Build.{IsBuild, triplets-within, length-triplets}
use sih.Sparse.Counting.{of_key}
use sih.Sparse.Counting.Sorted.{slice-sort_by_key}
use sih.Sparse.Frozen.{Represents, IsColumn, freeze-Represents}
use sih.Sparse.Sorting.{IsSort, Perm-All, Perm-of_key}
use sih.Sparse.Sums.{stored, find_row-sum_rows, sum_rows-ascends, sum_rows-All}

third {ℓ} :
    {A : Type ℓ} (a b : Bool) (x y z : A)
    → a ≡ false
    → b ≡ false
    → (if a then x else if b then y else z) ≡ z
third a b x y z h k = rw (h, k) refl

module _ {ℓ} {D : Type ℓ} ⦃d : Double D⦄ (sort : List (ℕ × D) → List (ℕ × D)) (s : IsSort sort)
    (drop_tol : D) (m : SparseMatrix D) (b : IsBuild m) where
  -- The sorted and summed entries of a column.
  abbrev pub summed : ℕ → List (ℕ × D)
  summed j = sum_rows drop_tol (sort (of_key j (triplets m)))

  assembled_lem : assembled sort drop_tol m ≡ map summed (range 0 m.num_cols)
  unfolding assembled
  assembled_lem =
      let inside : (j : ℕ) → j < 0 + m.num_cols → j < m.num_cols = λ j u. omega arith in
      let within : All (λ e. e.0 < m.num_cols) (triplets m) =
        All-impl _ _ (triplets m) (λ e h. h.0) (triplets-within m b) in
      let size : length (replicate (length m.build_values) (0, d.nought)) ≡ length (triplets m) =
        length-replicate (length m.build_values) (0, d.nought) ∙ sym (length-triplets m b) in
      map-range-eq _ summed 0 m.num_cols (λ j l u.
        ap (λ (es : List (ℕ × D)). sum_rows drop_tol (sort es))
          (slice-sort_by_key m.num_cols (triplets m) _ j within size (inside j u)))

  of_key-within : (j : ℕ) → All (λ e. e.0 < m.num_rows) (of_key j (triplets m))
  of_key-within j =
      All-map (λ e. e.1) _ _
        (All-filter _ (λ e. e.0 == j) (triplets m)
          (All-impl _ _ (triplets m) (λ e h. h.1) (triplets-within m b)))

  summed-IsColumn : (j : ℕ) → IsColumn m.num_rows (summed j)
  summed-IsColumn j = (
    sum_rows-All drop_tol (λ r. r < m.num_rows) _ (Perm-All _ (s.permutes _) (of_key-within j)),
    sum_rows-ascends drop_tol _ (s.ascends (of_key j (triplets m))),
  )

  finalize-freezes :
      m.overflowed ≡ false → finalize sort drop_tol m ≡ freeze (map summed (range 0 m.num_cols)) m
  unfolding finalize
  finalize-freezes h =
      let fits : ltb max_nonzeros (length m.build_values) ≡ false =
        ground (arith, b.limited, b.limit) in
      third m.frozen (m.overflowed || ltb max_nonzeros (length m.build_values)) m (freeze_empty m) _
        b.building (rw (h, fits) refl)
      ∙ ap (λ cols. freeze cols m) assembled_lem

  -- The frozen columns hold the sums of the triplets, in range and in strictly ascending rows.
  pub finalize-Represents :
      m.overflowed ≡ false → Represents (finalize sort drop_tol m) (map summed (range 0 m.num_cols))
  finalize-Represents h =
      let size : length (map summed (range 0 m.num_cols)) ≡ m.num_cols =
        length-map summed (range 0 m.num_cols) ∙ length-range 0 m.num_cols in
      subst (λ q. Represents q (map summed (range 0 m.num_cols))) (sym (finalize-freezes h))
        (freeze-Represents _ m size
          (map-range-All (IsColumn m.num_rows) summed 0 m.num_cols (λ j l u. summed-IsColumn j)))

  finalize_size : m.overflowed ≡ false → (finalize sort drop_tol m).num_cols ≡ m.num_cols
  unfolding freeze
  finalize_size h = ap (λ q. q.num_cols) (finalize-freezes h)

  -- The values offered for a place, in the order of the offers.
  abbrev pub offered : ℕ → ℕ → List D
  offered row col = of_key row (of_key col (triplets m))

  -- After `finalize`, a place reads as the sum from zero of the values offered for it, in some order,
  -- unless the sum is negligible or none was offered.
  pub at-finalize :
      (row col : ℕ)
      → col < m.num_cols
      → m.overflowed ≡ false
      → (vs : List D) × Permᴰ (offered row col) vs
        × (at (finalize sort drop_tol m) row col ≡ stored drop_tol vs)
  unfolding at
  at-finalize row col h o =
      let r = finalize-Represents o in
      let within : col < (finalize sort drop_tol m).num_cols =
        subst (λ n. col < n) (sym (finalize_size o)) h in
      let held =
        r.column_eq col within
        ∙ get_or-map-range summed 0 m.num_cols col [] h
        ∙ ap summed (omega arith) in
      let es = sort (of_key col (triplets m)) in
      (
        of_key row es,
        Perm-of_key row (s.permutes (of_key col (triplets m))),
        ap (find_row row) held
            ∙ find_row-sum_rows drop_tol row es (s.ascends (of_key col (triplets m))),
      )
