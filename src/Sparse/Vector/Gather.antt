-- ===== src/Sparse/Vector/Gather.antt =====
-- `gather_from_dense` of a sparse vector, and whole runs of its operations.
use sih.Prelude.{
  ℕ, zero, suc, ◌+◌, ◌≤◌, ◌<◌, ◌≡◌, ◌∙◌, Bool, true, false, ◌&&◌, Option, none, some, List, [], ◌∷◌,
  refl, sym, arith, ltb, leb, ◌==◌, if◌then◌else◌, length-replicate, get_or, get_or-replicate, All,
  inl, inr, Bool-cases,
}
use sih.Prelude.Double.{Double}
use sih.Sparse.Vector.{
  SparseVector, resize, clear, is_kept, set_value, gather_from, gather_from_dense,
}
use sih.Sparse.Vector.Replay.{
  IsVector, held, effect, Operation, Refines, step, run, replay, Fits, add-Refines,
  set_value-Refines,
}
use sih.Sparse.Vector.Clear.{clear-Refines}
use sih.Sparse.Vector.Compress.{compress-Refines}

pub if-same {ℓ} : {A : Type ℓ} (b : Bool) (a : A) → (if b then a else a) ≡ a
if-same true a = refl
if-same false a = refl

nested {ℓ} :
    {A : Type ℓ} (a b : Bool) (x y : A)
    → (if a && b then x else y) ≡ (if a then (if b then x else y) else y)
nested true b x y = refl
nested false b x y = refl

-- Taking one index more into a range.
first {ℓ} :
    {A : Type ℓ} (i j n : ℕ) (k : ℕ → Bool) (x : ℕ → A) (z : A)
    → (if leb (suc i) j && ltb j (suc i + n) && k j
        then x j
        else if i == j
        then (if k i then x i else z)
        else z)
      ≡ (if leb i j && ltb j (i + suc n) && k j then x j else z)
first i j n k x z = elim (Bool-cases (i == j)) [
  | inl e ↦
      let same : i ≡ j = ground arith in
      let low : leb (suc i) j ≡ false = ground arith in
      let high : leb i j ≡ true = ground arith in
      let top : ltb j (i + suc n) ≡ true = ground arith in rw (e, low, high, top, same) refl
  | inr e ↦
      let low : leb (suc i) j ≡ leb i j = ground arith in
      let moved : suc i + n ≡ i + suc n = omega arith in rw (e, low, moved) refl
]

module _ {ℓ} {D : Type ℓ} ⦃d : Double D⦄ where
  abbrev gathered : D → List D → ℕ → ℕ → (ℕ → Option D) → ℕ → Option D
  gathered tol xs i n f j =
      if leb i j && ltb j (i + n) && is_kept tol (get_or xs j d.nought)
      then some (get_or xs j d.nought)
      else f j

  -- One index, which takes the value there if it is kept.
  put-Refines :
      (tol : D) (xs : List D) (i : ℕ) (v : SparseVector D)
      → i < v.dimension
      → IsVector v
      → let x = get_or xs i d.nought in
        Refines v
          (λ j. if i == j then (if is_kept tol x then some x else held v j) else held v j)
          (if is_kept tol x then set_value i x v else v)
  put-Refines tol xs i v h w = elim (Bool-cases (is_kept tol (get_or xs i d.nought))) [
    | inl t ↦ rw t (set_value-Refines i (get_or xs i d.nought) v h w)
    | inr f ↦ rw f (record {
      valid = w;
      same_dimension = refl;
      contents = λ j. sym (if-same (i == j) (held v j));
    })
  ]

  gather_from-Refines :
      (tol : D) (xs : List D) (i n : ℕ) (v : SparseVector D)
      → i + n ≤ v.dimension
      → IsVector v
      → Refines v (gathered tol xs i n (held v)) (gather_from tol i n xs v)
  unfolding gather_from
  gather_from-Refines tol xs i zero v h w = record {
    valid = w;
    same_dimension = refl;
    contents = λ j. let out : (leb i j && ltb j (i + 0)) ≡ false = ground arith in rw out refl;
  }
  gather_from-Refines tol xs i (suc n) v h w =
      let one = put-Refines tol xs i v (omega arith) w in
      let r =
        gather_from-Refines tol xs (suc i) n _ (omega (arith, one.same_dimension)) one.valid in
      record {
        valid = r.valid;
        same_dimension = r.same_dimension ∙ one.same_dimension;
        contents = λ j.
            r.contents j
            ∙ rw (one.contents j) (
                first i j n (λ k. is_kept tol (get_or xs k d.nought))
                  (λ k. some (get_or xs k d.nought)) (held v j));
      }

  gather_from_dense-Refines :
      (tol : D) (xs : List D) (v : SparseVector D)
      → IsVector v
      → Refines v
          (effect v.dimension (Operation.gathering tol xs) (held v))
          (gather_from_dense tol xs v)
  unfolding gather_from_dense
  gather_from_dense-Refines tol xs v w =
      let c = clear-Refines v w in
      let r =
        gather_from-Refines tol xs 0 v.dimension (clear v) (omega (arith, c.same_dimension))
          c.valid in
      record {
        valid = r.valid;
        same_dimension = r.same_dimension ∙ c.same_dimension;
        contents = λ j.
            let low : leb 0 j ≡ true = ground arith in
            let zeroth : 0 + v.dimension ≡ v.dimension = omega arith in
            r.contents j
            ∙ rw (c.contents j, low, zeroth)
                (nested (ltb j v.dimension) (is_kept tol (get_or xs j d.nought)) _ none);
      }

  step-Refines :
      (o : Operation D) (v : SparseVector D)
      → Fits v.dimension o
      → IsVector v
      → Refines v (effect v.dimension o (held v)) (step o v)
  step-Refines (Operation.adding i x) v h w = add-Refines i x v h w
  step-Refines (Operation.setting i x) v h w = set_value-Refines i x v h w
  step-Refines Operation.clearing v h w = clear-Refines v w
  step-Refines (Operation.compressing tol) v h w = compress-Refines tol v w
  step-Refines (Operation.gathering tol xs) v h w = gather_from_dense-Refines tol xs v w

  -- A new vector holds nothing.
  pub resize-IsVector : (n : ℕ) → IsVector (resize {D = D} n)
  unfolding resize
  resize-IsVector n = record {
    dense_size = length-replicate n d.nought;
    marked_size = length-replicate n false;
    within = tt;
    marks = λ i. get_or-replicate n i false;
    distinct = tt;
  }

  pub run-Refines :
      (os : List (Operation D)) (v : SparseVector D)
      → All (Fits v.dimension) os
      → IsVector v
      → Refines v (replay v.dimension os (held v)) (run os v)
  run-Refines [] v h w = record { valid = w; same_dimension = refl; contents = λ j. refl }
  run-Refines (o ∷ os) v h w =
      let u = step-Refines o v h.0 w in
      let r = run-Refines os (step o v) (rw u.same_dimension h.1) u.valid in
      let same : held (step o v) ≡ effect v.dimension o (held v) = λ k j. u.contents j k in
      record {
        valid = r.valid;
        same_dimension = r.same_dimension ∙ u.same_dimension;
        contents = λ j. r.contents j ∙ rw (u.same_dimension, same) refl;
      }
