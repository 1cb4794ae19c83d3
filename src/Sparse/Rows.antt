-- ===== src/Sparse/Rows.antt =====
-- The rows of a list of columns: their entries, ascending, and what is found in them.
use sih.Prelude.{
  ℕ, zero, suc, ◌+◌, ◌≤◌, ◌<◌, ◌≡◌, ◌∙◌, ◌⊎◌, true, false, List, [], ◌∷◌, ◌++◌, map, refl, ap,
  arith, ltb, ◌==◌, length, length-append, length-map, get_or, concat, All, All-append, All-impl,
  Pairwise, inl, inr, Bool-cases,
}
use sih.Prelude.Double.{Double}
use sih.Prelude.Sort.{All-map, All-of_Mem}
use sih.Sparse.{by_rows, find_row}
use sih.Sparse.Sums.{of_key-none, find_row-above}
use sih.Sparse.Counting.{of_key}
use sih.Sparse.Counting.Slots.{of_key-eq, of_key-ne}
use sih.Sparse.Frozen.{IsColumn}

module _ {ℓ} {D : Type ℓ} ⦃d : Double D⦄ where
  -- The entries of a row, each behind its column, among columns from the `j`th on.
  abbrev pub row_of : ℕ → ℕ → List (List (ℕ × D)) → List (ℕ × D)
  row_of i j cols = of_key i (by_rows j cols)

  pub by_rows-All :
      (n j : ℕ) (cols : List (List (ℕ × D)))
      → All (IsColumn n) cols
      → All (λ e. e.0 < n) (by_rows j cols)
  unfolding by_rows
  by_rows-All n j [] h = tt
  by_rows-All n j (c ∷ cols) h =
      All-append _ (map (λ e. (e.0, (j, e.1))) c) _ (All-map (λ e. (e.0, (j, e.1))) _ c h.0.0)
        (by_rows-All n (suc j) cols h.1)

  pub length-by_rows :
      (j : ℕ) (cols : List (List (ℕ × D))) → length (by_rows j cols) ≡ length (concat cols)
  unfolding by_rows
  length-by_rows j [] = refl
  length-by_rows j (c ∷ cols) = omega (
    arith,
    length-append (map (λ e. (e.0, (j, e.1))) c) (by_rows (suc j) cols),
    length-map {B = ℕ × (ℕ × D)} (λ (e : ℕ × D). (e.0, (j, e.1))) c,
    length-by_rows (suc j) cols,
    length-append c (concat cols),
  )

  -- A column has at most one entry in a row, the one that is found.
  of_key-IsColumn :
      (n i : ℕ) (c : List (ℕ × D))
      → IsColumn n c
      → ((of_key i c ≡ []) × (find_row i c ≡ d.nought)) ⊎ (of_key i c ≡ find_row i c ∷ [])
  unfolding find_row
  of_key-IsColumn n i [] h = inl (refl, refl)
  of_key-IsColumn n i ((r, v) ∷ c) (h, p) = elim (Bool-cases (ltb r i)) [
    | inl t ↦
        let other : (r == i) ≡ false = ground arith in
        rw (t, of_key-ne r i v c other) (of_key-IsColumn n i c (h.1, p.1))
    | inr f ↦ elim (Bool-cases (r == i)) [
      | inl q ↦
          let none : of_key i c ≡ [] = of_key-none i c (All-impl _ _ c (λ e l. ground arith) p.0) in
          rw (f, q, of_key-eq r i v c q, none) (inr refl)
      | inr q ↦
          let none : of_key i c ≡ [] = of_key-none i c (All-impl _ _ c (λ e l. ground arith) p.0) in
          rw (f, q, of_key-ne r i v c q, none) (inl (refl, refl))
    ]
  ]

  of_key-append :
      (i : ℕ) (es fs : List (ℕ × (ℕ × D))) → of_key i (es ++ fs) ≡ of_key i es ++ of_key i fs
  of_key-append i [] fs = refl
  of_key-append i ((k, a) ∷ es) fs = elim (Bool-cases (k == i)) [
    | inl t ↦ rw (of_key-eq k i a (es ++ fs) t, of_key-eq k i a es t, of_key-append i es fs) refl
    | inr f ↦ rw (of_key-ne k i a (es ++ fs) f, of_key-ne k i a es f) (of_key-append i es fs)
  ]

  of_key-map :
      (i j : ℕ) (c : List (ℕ × D))
      → of_key {A = ℕ × D} i (map (λ e. (e.0, (j, e.1))) c) ≡ map (λ v. (j, v)) (of_key i c)
  of_key-map i j [] = refl
  of_key-map i j ((r, v) ∷ c) = elim (Bool-cases (r == i)) [
    | inl t ↦ rw (of_key-eq r i v c t, ← (of_key-map i j c)) (of_key-eq r i (j, v) _ t)
    | inr f ↦ rw (of_key-ne r i v c f, ← (of_key-map i j c)) (of_key-ne r i (j, v) _ f)
  ]

  pub row_of-cons :
      (i j : ℕ) (c : List (ℕ × D)) (cols : List (List (ℕ × D)))
      → row_of i j (c ∷ cols) ≡ map (λ v. (j, v)) (of_key i c) ++ row_of i (suc j) cols
  unfolding by_rows
  row_of-cons i j c cols =
      of_key-append i (map (λ e. (e.0, (j, e.1))) c) (by_rows (suc j) cols)
      ∙ ap (λ l. l ++ row_of i (suc j) cols) (of_key-map i j c)

  pub row_of-from :
      (n i j : ℕ) (cols : List (List (ℕ × D)))
      → All (IsColumn n) cols
      → All (λ e. j ≤ e.0) (row_of i j cols) × Pairwise (λ a b. a.0 < b.0) (row_of i j cols)
  unfolding by_rows
  row_of-from n i j [] h = (tt, tt)
  row_of-from n i j (c ∷ cols) h =
      let (above, p) = row_of-from n i (suc j) cols h.1 in
      let weaker = All-impl _ (λ e. j ≤ e.0) (row_of i (suc j) cols) (λ e l. omega arith) above in
      let stricter = All-impl _ (λ e. j < e.0) (row_of i (suc j) cols) (λ e l. omega arith) above in
      rw (row_of-cons i j c cols) (elim (of_key-IsColumn n i c h.0) [
        | inl (e, _) ↦ rw e (weaker, p)
        | inr e ↦ rw e ((omega arith, weaker), (stricter, p))
      ])

  pub find_row-row_of :
      (n i j k : ℕ) (cols : List (List (ℕ × D)))
      → All (IsColumn n) cols
      → find_row (j + k) (row_of i j cols) ≡ find_row i (get_or cols k [])
  unfolding find_row by_rows
  find_row-row_of n i j k [] h = refl
  find_row-row_of n i j zero (c ∷ cols) h =
      let here : j + 0 ≡ j = omega arith in
      let same : (j == j) ≡ true = ground arith in
      let low : ltb j j ≡ false = ground arith in
      let (above, _) = row_of-from n i (suc j) cols h.1 in
      rw (here, row_of-cons i j c cols)
        (elim (of_key-IsColumn n i c h.0) [
          | inl (e, z) ↦
              rw (e, z)
                (find_row-above d.nought j _
                  (All-impl _ _ (row_of i (suc j) cols) (λ e l. omega arith) above))
          | inr e ↦ rw (e, low, same) refl
        ])
  find_row-row_of n i j (suc k) (c ∷ cols) h =
      let low : ltb j (j + suc k) ≡ true = ground arith in
      let moved : suc j + k ≡ j + suc k = omega arith in
      let later = rw moved at (find_row-row_of n i (suc j) k cols h.1) in
      rw (row_of-cons i j c cols)
        (elim (of_key-IsColumn n i c h.0) [ inl (e, z) ↦ rw e later | inr e ↦ rw (e, low) later ])

  pub by_rows-columns :
      (i j : ℕ) (cols : List (List (ℕ × D))) → All (λ e. e.0 < j + length cols) (row_of i j cols)
  unfolding by_rows
  by_rows-columns i j [] = tt
  by_rows-columns i j (c ∷ cols) =
      let later =
        All-impl _ (λ e. e.0 < j + length (c ∷ cols)) (row_of i (suc j) cols) (λ e l. omega arith)
          (by_rows-columns i (suc j) cols) in
      rw (row_of-cons i j c cols) (
        All-append _ (map (λ v. (j, v)) (of_key i c)) _
          (All-map (λ v. (j, v)) (λ e. e.0 < j + length (c ∷ cols)) (of_key i c)
            (All-of_Mem _ (of_key i c) (λ v m. omega arith)))
          later)
