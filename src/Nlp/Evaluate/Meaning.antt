-- ===== src/Nlp/Evaluate/Meaning.antt =====
-- Evaluation by recursion on the expression, as the reference for the sweep over the shared nodes.
use sih.Prelude.{
  ℕ, zero, suc, ◌+◌, ◌≤◌, ◌<◌, ◌≡◌, ◌∙◌, Bool, true, false, ◌==◌, List, [], ◌∷◌, map, refl, sym, ap,
  subst, arith, inl, inr, length, length-set, get_or, get_or-set_self, get_or-set_ne, set, All,
  All-impl, Bool-cases, range, filter,
}
use sih.Prelude.Double.{Double}
use sih.Prelude.Outcome.{Outcome, failed, done, Outcome-cases}
use sih.Nlp.{Arithmetic, ExpressionGraph, node}
use sih.Nlp.Evaluate.{Fault, overflowed, EvalError, fault_at, finite_result, forward}
use sih.Nlp.Evaluate.Tape.{IsLayered}

pub both_All {κ ι ρ} :
    (P : ℕ → Type κ) (Q : ℕ → Type ι) (R : ℕ → Type ρ) (cs : List ℕ)
    → ((c : ℕ) → P c → Q c → R c)
    → All P cs
    → All Q cs
    → All R cs
both_All P Q R [] f h k = tt
both_All P Q R (c ∷ cs) f h k = (f c h.0 k.0, both_All P Q R cs f h.1 k.1)

module _ {ℓ} {D : Type ℓ} ⦃d : Double D⦄ where
  abbrev pub joined : Outcome Fault D → Outcome Fault (List D) → Outcome Fault (List D)
  joined (failed e) o = failed e
  joined (done v) (failed e) = failed e
  joined (done v) (done vs) = done (v ∷ vs)

  -- The values of the children, if each has one.
  abbrev pub all_of : (ℕ → Outcome Fault D) → List ℕ → Outcome Fault (List D)
  all_of f [] = done []
  all_of f (c ∷ cs) = joined (f c) (all_of f cs)

  module _ (math : Arithmetic D) (x : List D) (g : ExpressionGraph D) where
    -- The value of a node: its operation on the values of its children. More recursion than the number of
    -- the node is never needed.
    abbrev pub meaning : ℕ → ℕ → Outcome Fault D
    meaning zero i = failed overflowed
    meaning (suc fuel) i = elim (all_of (meaning fuel) (node g i).children) [
      | failed e ↦ failed e
      | done vs ↦ finite_result math x (node g i) vs
    ]

    all_of-eq :
        (f h : ℕ → Outcome Fault D) (cs : List ℕ)
        → All (λ c. f c ≡ h c) cs
        → all_of f cs ≡ all_of h cs
    all_of-eq f h [] e = refl
    all_of-eq f h (c ∷ cs) e = λ i. joined (e.0 i) (all_of-eq f h cs e.1 i)

    all_of-values :
        (f : ℕ → Outcome Fault D) (v : List D) (cs : List ℕ)
        → All (λ c. f c ≡ done (get_or v c d.nought)) cs
        → all_of f cs ≡ done (map (λ c. get_or v c d.nought) cs)
    all_of-values f v [] e = refl
    all_of-values f v (c ∷ cs) e = λ i. joined (e.0 i) (all_of-values f v cs e.1 i)

    pub all_of-done :
        (f : ℕ → Outcome Fault D) (cs : List ℕ) (vs : List D)
        → all_of f cs ≡ done vs
        → All (λ c. (y : D) × (f c ≡ done y)) cs
    all_of-done f [] vs h = tt
    all_of-done f (c ∷ cs) vs h = elim (Outcome-cases (f c)) [
      | inl (e, t) ↦
          let bad : failed e ≡ done vs = (λ i. joined (sym t i) (all_of f cs)) ∙ h in
          absurd (ground arith)
      | inr (y, t) ↦ elim (Outcome-cases (all_of f cs)) [
        | inl (e, u) ↦
            let bad : failed e ≡ done vs = (λ i. joined (sym t i) (sym u i)) ∙ h in
            absurd (ground arith)
        | inr (ys, u) ↦ ((y, t), all_of-done f cs ys u)
      ]
    ]

    -- Enough recursion is enough.
    pub meaning-enough :
        (i fuel more : ℕ)
        → IsLayered g (suc i)
        → i < fuel
        → i < more
        → meaning fuel i ≡ meaning more i
    meaning-enough i zero more w h k = absurd (omega arith)
    meaning-enough i (suc fuel) zero w h k = absurd (omega arith)
    meaning-enough i (suc fuel) (suc more) w h k =
        let same = all_of-eq (meaning fuel) (meaning more) (node g i).children (
          All-impl _ _ _
            (λ c l.
              meaning-enough c fuel more (λ n m. w n (omega arith)) (omega arith) (omega arith))
            (w i (omega arith))) in
        rw (same, meaning) refl

    -- The value of a node whose children have the values of an array.
    meaning-step :
        (i : ℕ) (v : List D)
        → IsLayered g (suc i)
        → All (λ c. meaning (suc c) c ≡ done (get_or v c d.nought)) (node g i).children
        → meaning (suc i) i
          ≡ finite_result math x (node g i) (map (λ c. get_or v c d.nought) (node g i).children)
    meaning-step i v w h =
        let same =
          all_of-eq (meaning i) (λ c. meaning (suc c) c) (node g i).children
            (All-impl _ _ _
              (λ c l. meaning-enough c i (suc c) (λ n m. w n (omega arith)) l (omega arith))
              (w i (omega arith))) in
        let values = all_of-values (λ c. meaning (suc c) c) v (node g i).children h in
        rw (same, values, meaning) refl

    -- What the sweep over the kept numbers of a range gives.
    pub data Swept (p : ℕ → Bool) (i n : ℕ) (o : Outcome EvalError (List D)) : Type ℓ where
      swept :
          (v : List D)
          → o ≡ done v
          → ((j : ℕ) → j < i + n → p j ≡ true → meaning (suc j) j ≡ done (get_or v j d.nought))
          → Swept p i n o
      stuck :
          (j : ℕ) (e : Fault)
          → o ≡ failed (fault_at j e)
          → j < i + n
          → p j ≡ true
          → meaning (suc j) j ≡ failed e
          → Swept p i n o

    shift-Swept :
        (p : ℕ → Bool) (i n : ℕ) (o : Outcome EvalError (List D))
        → Swept p (suc i) n o
        → Swept p i (suc n) o
    shift-Swept p i n o (Swept.swept v e h) = Swept.swept v e (λ j l. h j (omega arith))
    shift-Swept p i n o (Swept.stuck j e q l t h) = Swept.stuck j e q (omega arith) t h

    forward-failed :
        (i : ℕ) (is : List ℕ) (v : List D) (e : Fault)
        → finite_result math x (node g i) (map (λ c. get_or v c d.nought) (node g i).children)
          ≡ failed e
        → forward math x g (i ∷ is) v ≡ failed (fault_at i e)
    unfolding forward
    forward-failed i is v e h = rw (h, forward) refl

    forward-done :
        (i : ℕ) (is : List ℕ) (v : List D) (y : D)
        → finite_result math x (node g i) (map (λ c. get_or v c d.nought) (node g i).children)
          ≡ done y
        → forward math x g (i ∷ is) v ≡ forward math x g is (set v i y)
    unfolding forward
    forward-done i is v y h = rw (h, forward) refl

    pub forward-Swept :
        (p : ℕ → Bool) (i n : ℕ) (v : List D)
        → IsLayered g (i + n)
        → i + n ≤ length v
        → ((j : ℕ) → j < i + n → p j ≡ true → All (λ c. p c ≡ true) (node g j).children)
        → ((j : ℕ) → j < i → p j ≡ true → meaning (suc j) j ≡ done (get_or v j d.nought))
        → Swept p i n (forward math x g (filter p (range i n)) v)
    unfolding forward
    forward-Swept p i zero v w size closed known = Swept.swept v refl (λ j l. known j (omega arith))
    forward-Swept p i (suc n) v w size closed known = elim (Bool-cases (p i)) [
      | inr f ↦
          let skipped : (j : ℕ)
              → j < suc i
              → p j ≡ true
              → meaning (suc j) j ≡ done (get_or v j d.nought) =
            λ j l t. elim (Bool-cases (j == i)) [
              | inl e ↦
                  let bad : true ≡ false = sym t ∙ ap p (ground arith) ∙ f in absurd (ground arith)
              | inr e ↦ known j (ground arith) t
            ] in
          rw (f, filter)
            (shift-Swept p i n _ (
              forward-Swept p (suc i) n v (λ k l. w k (omega arith)) (omega arith)
                (λ j l. closed j (omega arith)) skipped))
      | inl t ↦
          let below = w i (omega arith) in
          let children : All (λ c. meaning (suc c) c ≡ done (get_or v c d.nought))
              (node g i).children =
            both_All (λ c. c < i) (λ c. p c ≡ true) _ (node g i).children known below
              (closed i (omega arith) t) in
          let here = meaning-step i v (λ k l. w k (omega arith)) children in
          let is = filter p (range (suc i) n) in
          rw (t, filter)
            (elim (Outcome-cases (
              finite_result math x (node g i)
                (map (λ c. get_or v c d.nought) (node g i).children))) [
                  | inl (e, q) ↦
                      Swept.stuck i e (forward-failed i is v e q) (omega arith) t (here ∙ q)
                  | inr (y, q) ↦
                      let written : (j : ℕ)
                          → j < suc i
                          → p j ≡ true
                          → meaning (suc j) j ≡ done (get_or (set v i y) j d.nought) =
                        λ j l u. elim (Bool-cases (i == j)) [
                          | inl e ↦
                              let same : i ≡ j = ground arith in
                              subst (λ k. meaning (suc k) k ≡ done (get_or (set v i y) k d.nought))
                                same
                                (here
                                  ∙ q
                                  ∙ ap done (sym (get_or-set_self v i y d.nought (omega arith))))
                          | inr e ↦
                              known j (ground arith) u
                              ∙ ap done (sym (get_or-set_ne v i j y d.nought (ground arith)))
                        ] in
                      subst (Swept p i (suc n)) (sym (forward-done i is v y q)) (
                        shift-Swept p i n _ (
                          forward-Swept p (suc i) n (set v i y) (λ k l. w k (omega arith))
                            (omega (arith, length-set v i y)) (λ j l. closed j (omega arith))
                            written))
                ])
    ]
