-- ===== src/Nlp/Evaluate/Reference.antt =====
-- `evaluate` agrees with the evaluation by recursion.
use sih.Prelude.{
  ℕ, suc, ◌+◌, ◌≤◌, ◌<◌, ◌≡◌, ◌↔◌, ◌∙◌, Bool, true, false, ◌==◌, List, [], ◌∷◌, refl, sym, ap,
  subst, arith, inl, inr, length, length-set, length-replicate, get_or, get_or-set,
  get_or-replicate, set, replicate, All, Bool-cases, range, filter,
}
use sih.Prelude.Double.{Double}
use sih.Prelude.Int.{ℤ}
use sih.Prelude.Outcome.{Outcome, failed, done, ◌>>=◌, Outcome-cases}
use sih.Nlp.{Arithmetic, ExpressionGraph, index_of, contains, node, tape, walk_down}
use sih.Nlp.Valid.{IsGraph, contains-index}
use sih.Nlp.Evaluate.{Fault, EvalError, fault_at, last_or, forward, evaluate}
use sih.Nlp.Evaluate.Tape.{
  IsReached, IsLayered, walk_down-IsReached, walk_down-closed, walk_down-only, last_or-filter,
}
use sih.Nlp.Evaluate.Meaning.{
  both_All, Swept, all_of, all_of-done, meaning, meaning-enough, forward-Swept,
}

done_inj {ℓ κ} :
    {E : Type κ} {A : Type ℓ} (a b : A) → ◌≡◌ {A = Outcome E A} (done a) (done b) → a ≡ b
done_inj a b h = cc

failed_inj {ℓ κ} :
    {E : Type κ} {A : Type ℓ} (a b : E) → ◌≡◌ {A = Outcome E A} (failed a) (failed b) → a ≡ b
failed_inj a b h = cc

-- The marks from which the walk starts.
abbrev start_of : ℕ → List Bool
start_of r = set (replicate (suc r) false) r true

length-start_of : (r : ℕ) → length (start_of r) ≡ suc r
length-start_of r = length-set (replicate (suc r) false) r true ∙ length-replicate (suc r) false

start_of-only : (r j : ℕ) → IsReached (start_of r) j → r ≡ j
start_of-only r j h = elim (Bool-cases (r == j)) [
  | inl t ↦ ground arith
  | inr f ↦
      let off : get_or (start_of r) j false ≡ false =
        get_or-set (replicate (suc r) false) r j true false
          (omega (arith, length-replicate (suc r) false))
        ∙ rw f (get_or-replicate (suc r) j false) in
      let bad : true ≡ false = sym h ∙ off in absurd (ground arith)
]

start_of-root : (r : ℕ) → IsReached (start_of r) r
start_of-root r =
    let same : (r == r) ≡ true = ground arith in
    get_or-set (replicate (suc r) false) r r true false
      (omega (arith, length-replicate (suc r) false))
    ∙ rw same refl

module _ {ℓ} {D : Type ℓ} ⦃d : Double D⦄ where
  -- The value at the end of a list that ends somewhere.
  end_value :
      (js : List ℕ) (r : ℕ) (v : List D)
      → ((k : ℕ) → last_or k js ≡ r)
      → (elim js [ [] ↦ d.nought | i ∷ is ↦ get_or v (last_or i is) d.nought ])
        ≡ get_or v r d.nought
  end_value [] r v h = absurd (omega (arith, h 0, h 1))
  end_value (i ∷ is) r v h = ap (λ k. get_or v k d.nought) (h 0)

  -- The marks with which it ends.
  abbrev marks_of : ExpressionGraph D → ℕ → List Bool
  marks_of g r = walk_down g (suc r) (start_of r)

  module _ (math : Arithmetic D) (x : List D) (g : ExpressionGraph D) (v : IsGraph math g) where
    layered : (n : ℕ) → n ≤ length g.nodes → IsLayered g n
    layered n h i l = (v.well_formed i (omega arith)).children_before

    root-IsReached : (r : ℕ) → IsReached (marks_of g r) r
    root-IsReached r = walk_down-IsReached g (suc r) (start_of r) r (start_of-root r)

    tape-eq :
        (root : ℤ)
        → contains g root ≡ true
        → tape g root
          ≡ filter
              (λ i. get_or (marks_of g (index_of root)) i false)
              (range 0 (suc (index_of root)))
    unfolding tape
    tape-eq root h = rw h refl

    root_sweep :
        (root : ℤ)
        → contains g root ≡ true
        → Swept math x g
            (λ i. get_or (marks_of g (index_of root)) i false)
            0
            (suc (index_of root))
            (forward math x g (tape g root) (replicate (length g.nodes) d.nought))
    root_sweep root h =
        let r = index_of root in
        let l = contains-index g root h in
        let size = length-start_of r in
        rw (tape-eq root h) (
          forward-Swept math x g (λ i. get_or (marks_of g r) i false) 0 (suc r)
            (replicate (length g.nodes) d.nought)
            (λ k m. layered (suc r) (omega arith) k (omega arith))
            (omega (arith, length-replicate (length g.nodes) d.nought))
            (λ j m.
              walk_down-closed g (suc r) (start_of r) j (layered (suc r) (omega arith))
                (omega arith) (omega arith))
            (λ j m. absurd (omega arith)))

    -- If a node has a value, so has every child.
    children_value :
        (i : ℕ) (z : D)
        → IsLayered g (suc i)
        → meaning math x g (suc i) i ≡ done z
        → All (λ j. (y : D) × (meaning math x g (suc j) j ≡ done y)) (node g i).children
    children_value i z w e =
        elim (Outcome-cases (all_of (meaning math x g i) (node g i).children)) [
          | inl (q, t) ↦ let bad : failed q ≡ done z = rw (t, meaning) at e in absurd (ground arith)
          | inr (vs, t) ↦
              both_All (λ c. c < i) (λ c. (y : D) × (meaning math x g i c ≡ done y)) _
                (node g i).children
                (λ c l (y, q). (
                  y,
                  meaning-enough math x g c (suc c) i (λ n m. w n (omega arith)) (omega arith) l
                      ∙ q,
                ))
                (w i (omega arith))
                (all_of-done math x g (meaning math x g i) (node g i).children vs t)
        ]

    -- If the root has a value, every marked node has one.
    marked-value :
        (r : ℕ) (y : D)
        → r < length g.nodes
        → meaning math x g (suc r) r ≡ done y
        → (j : ℕ) → IsReached (marks_of g r) j
        → (z : D) × (meaning math x g (suc j) j ≡ done z)
    marked-value r y h m =
        walk_down-only g (λ j. (z : D) × (meaning math x g (suc j) j ≡ done z)) (suc r) (start_of r)
          (layered (suc r) (omega arith)) (omega (arith, length-start_of r))
          (λ i l (z, e). children_value i z (layered (suc i) (omega arith)) e)
          (λ j s.
            subst (λ k. (z : D) × (meaning math x g (suc k) k ≡ done z)) (start_of-only r j s)
              (y, m))

    run-eq :
        (o : Outcome EvalError (List D)) (k f : List D → D)
        → ((w : List D) → k w ≡ f w)
        → (o >>= (λ w. done (k w))) ≡ (elim o [ failed e ↦ failed e | done w ↦ done (f w) ])
    unfolding ◌>>=◌
    run-eq (failed e) k f h = refl
    run-eq (done w) k f h = ap done (h w)

    tape-ends :
        (root : ℤ) → contains g root ≡ true → (k : ℕ) → last_or k (tape g root) ≡ index_of root
    tape-ends root h k =
        let r = index_of root in
        let zeroth : 0 + r ≡ r = omega arith in
        rw (tape-eq root h) (
          last_or-filter (λ i. get_or (marks_of g r) i false) 0 r k (rw zeroth (root-IsReached r))
          ∙ zeroth)

    evaluate-forward :
        (root : ℤ)
        → contains g root ≡ true
        → length x ≡ g.num_variables
        → (o : Outcome EvalError (List D))
        → forward math x g (tape g root) (replicate (length g.nodes) d.nought) ≡ o
        → evaluate math x g root
          ≡ (elim o [ failed e ↦ failed e | done w ↦ done (get_or w (index_of root) d.nought) ])
    unfolding evaluate ◌>>=◌
    evaluate-forward root h n o e =
        let sized : (length x == g.num_variables) ≡ true = ground arith in
        rw (h, sized)
          ((λ i. e i >>= (λ w.
              done
                (elim (tape g root) [ [] ↦ d.nought | j ∷ js ↦ get_or w (last_or j js) d.nought ])))
            ∙ run-eq o _ (λ w. get_or w (index_of root) d.nought)
                (λ w. end_value (tape g root) (index_of root) w (tape-ends root h)))

    -- At a node of a well-formed graph and a point with an entry for each column, the sweep over the
    -- shared nodes gives exactly the values that recursion on the expression gives; an error names a node
    -- that recursion cannot evaluate either, and why.
    pub evaluate_lem :
        (root : ℤ)
        → contains g root ≡ true
        → length x ≡ g.num_variables
        → ((y : D)
            → (evaluate math x g root ≡ done y)
              ↔ (meaning math x g (suc (index_of root)) (index_of root) ≡ done y))
          × ((e : EvalError)
              → evaluate math x g root ≡ failed e
              → (j : ℕ) × (q : Fault) × (e ≡ fault_at j q)
                × (meaning math x g (suc j) j ≡ failed q))
    evaluate_lem root h n = elim (root_sweep root h) [
      | Swept.swept w e known ↦
          let result = evaluate-forward root h n (done w) e in
          let value = known (index_of root) (omega arith) (root-IsReached (index_of root)) in
          (
            λ y. (
              λ t. value ∙ ap done (done_inj _ _ (sym result ∙ t)),
              λ t. result ∙ ap done (done_inj _ _ (sym value ∙ t)),
            ),
            λ q t.
                let bad : failed q ≡ done (get_or w (index_of root) d.nought) = sym t ∙ result in
                absurd (ground arith),
          )
      | Swept.stuck j q e l t m ↦
          let result = evaluate-forward root h n (failed (fault_at j q)) e in
          (
            λ y. (
              λ t.
                  let bad : failed (fault_at j q) ≡ done y = sym result ∙ t in
                  absurd (ground arith),
              λ u.
                  let (z, k) = marked-value (index_of root) y (contains-index g root h) u j t in
                  let bad : failed q ≡ done z = sym m ∙ k in absurd (ground arith),
            ),
            λ f u. (j, q, failed_inj _ _ (sym u ∙ result), m),
          )
    ]
