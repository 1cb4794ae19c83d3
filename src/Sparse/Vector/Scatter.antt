-- ===== src/Sparse/Vector/Scatter.antt =====
-- `scatter_to_dense` of a sparse vector, and what a run of operations leaves.
use sih.Prelude.{
  ℕ, zero, suc, ◌+◌, ◌-◌, ◌≤◌, ◌<◌, ◌≡◌, ◌∙◌, true, false, none, List, [], ◌∷◌, ◌++◌, refl, ap,
  subst, arith, ltb, lt→ltb, ◌==◌, if◌then◌else◌, length, length-set, length-append,
  length-replicate, get_or, get_or-set, get_or-replicate, replicate, drop, set, All, All-impl, inl,
  inr, Bool-cases,
}
use sih.Prelude.Double.{Double}
use sih.Sparse.Vector.{SparseVector, resize, value_at, scatter_from, scatter_to_dense}
use sih.Sparse.Vector.Replay.{IsVector, contains, held, Operation, run, replay, Fits}
use sih.Sparse.Vector.Gather.{run-Refines, resize-IsVector, if-same}

contains-All : (P : ℕ → Type 0) (i : ℕ) (is : List ℕ) → All P is → contains i is ≡ true → P i
contains-All P i [] h t = absurd (ground arith)
contains-All P i (j ∷ is) h t = elim (Bool-cases (j == i)) [
  | inl e ↦ subst P (ground arith) h.0
  | inr e ↦ contains-All P i is h.1 (rw e at t)
]

module _ {ℓ} {D : Type ℓ} ⦃d : Double D⦄ where
  scatter_from-get :
      (is : List ℕ) (dense out : List D) (j : ℕ)
      → All (λ i. i < length out) is
      → get_or (scatter_from is dense out) j d.nought
        ≡ (if contains j is then get_or dense j d.nought else get_or out j d.nought)
  unfolding scatter_from
  scatter_from-get [] dense out j h = refl
  scatter_from-get (i ∷ is) dense out j h =
      let size = length-set out i (get_or dense i d.nought) in
      scatter_from-get is dense (set out i (get_or dense i d.nought)) j (rw size h.1)
      ∙ rw (get_or-set out i j (get_or dense i d.nought) d.nought h.0) (elim (Bool-cases (i == j)) [
        | inl e ↦ let same : i ≡ j = ground arith in rw (e, same) (if-same (contains j is) _)
        | inr e ↦ rw e refl
      ])

  nothing-held : (n j : ℕ) → held (resize {D = D} n) j ≡ none
  unfolding resize
  nothing-held n j = rw (get_or-replicate n j false) refl

  drop-get : (n k : ℕ) (xs : List D) → get_or (drop n xs) k d.nought ≡ get_or xs (n + k) d.nought
  drop-get zero k xs = ap (λ i. get_or xs i d.nought) (omega arith)
  drop-get (suc n) k [] = refl
  drop-get (suc n) k (x ∷ xs) =
      drop-get n k xs
      ∙ ap (λ i. get_or (x ∷ xs) i d.nought) {x = suc (n + k)} {y = suc n + k} (omega arith)

  zeros-get :
      (n j : ℕ) (ys : List D)
      → get_or (replicate n d.nought ++ ys) j d.nought
        ≡ (if ltb j n then d.nought else get_or ys (j - n) d.nought)
  zeros-get zero j ys = ground arith
  zeros-get (suc n) zero ys = ground arith
  zeros-get (suc n) (suc j) ys = ground (arith, zeros-get n j ys)

  -- Zeros in front of what is beyond the dimension.
  filled-get :
      (n j : ℕ) (xs : List D)
      → get_or (replicate n d.nought ++ drop n xs) j d.nought
        ≡ (if ltb j n then d.nought else get_or xs j d.nought)
  filled-get n j xs = zeros-get n j (drop n xs) ∙ elim (Bool-cases (ltb j n)) [
    | inl t ↦ rw t refl
    | inr f ↦ rw f (drop-get n (j - n) xs ∙ ap (λ i. get_or xs i d.nought) (ground arith))
  ]

  scatter_to_dense-get :
      (v : SparseVector D) (out : List D) (j : ℕ)
      → IsVector v
      → v.dimension ≤ length out
      → get_or (scatter_to_dense v out) j d.nought
        ≡ (if ltb j v.dimension then value_at v j else get_or out j d.nought)
  unfolding scatter_to_dense value_at
  scatter_to_dense-get v out j w h =
      let start = replicate v.dimension d.nought ++ drop v.dimension out in
      let room : v.dimension ≤ length start = omega (
        arith,
        length-append (replicate v.dimension d.nought) (drop v.dimension out),
        length-replicate v.dimension d.nought,
      ) in
      scatter_from-get v.pattern v.dense start j
        (All-impl _ _ v.pattern (λ i l. omega arith) w.within)
      ∙ rw (filled-get v.dimension j out, w.marks j)
          (elim (Bool-cases (contains j v.pattern)) [
            | inl t ↦
                let low : ltb j v.dimension ≡ true =
                  lt→ltb j v.dimension (contains-All _ j v.pattern w.within t) in
                rw (t, low) refl
            | inr f ↦ rw f refl
          ])

  -- Any sequence of operations on a new vector, with indices in range, keeps the pattern the list of the
  -- marked indices, each once, and leaves the values that a map has after the same operations; a dense
  -- array takes those values, with zero where there is none, and stays as it was beyond the dimension.
  pub run_lem :
      (n : ℕ) (os : List (Operation D))
      → All (Fits n) os
      → let v = run os (resize n) in
        IsVector v
        × ((j : ℕ) → held v j ≡ replay n os (λ _. none) j)
        × ((out : List D) (j : ℕ)
            → n ≤ length out
            → get_or (scatter_to_dense v out) j d.nought
              ≡ (if ltb j n then value_at v j else get_or out j d.nought))
  unfolding resize
  run_lem n os h =
      let r = run-Refines os (resize n) h (resize-IsVector n) in
      let new : held (resize {D = D} n) ≡ (λ _. none) = λ k j. nothing-held n j k in
      (
        r.valid,
        λ j. r.contents j ∙ ap (λ f. replay n os f j) new,
        λ out j l.
            scatter_to_dense-get (run os (resize n)) out j r.valid (omega (arith, r.same_dimension))
            ∙ ap (λ k. if ltb j k then value_at (run os (resize n)) j else get_or out j d.nought)
                r.same_dimension,
      )
