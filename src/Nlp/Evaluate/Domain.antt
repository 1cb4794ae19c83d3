-- ===== src/Nlp/Evaluate/Domain.antt =====
-- src/nlp/derivatives.cpp: `evaluate` against the domains of the operations, written by themselves.
use sih.Prelude.{
  ℕ, zero, suc, ◌≤◌, ◌≡◌, ◌⊎◌, ◌↔◌, ◌∙◌, Bool, true, false, not, ◌&&◌, ◌||◌, Option, none, some,
  List, [], ◌∷◌, if◌then◌else◌, refl, sym, ap, subst, arith, inl, inr, length, get_or, All,
  Bool-cases, Option-cases, ltb,
}
use sih.Prelude.Double.{Double, ◌≼◌, IsOrdered, IsNumber, eq, is_finite}
use sih.Prelude.Int.{ℤ}
use sih.Prelude.Outcome.{Outcome, failed, done, ◌>>=◌, Outcome-cases}
use sih.Nlp.{
  Op, constant_op, variable_op, sum_op, product_op, negate_op, divide_op, power_op, exp_op, log_op,
  sqrt_op, Arithmetic, Node, ExpressionGraph, index_of, contains, node, is_integer, blank,
}
use sih.Nlp.Valid.{IsGraph}
use sih.Nlp.Evaluate.{Fault, sum_values, compute, finite_result, evaluate}
use sih.Nlp.Evaluate.Meaning.{meaning, all_of, joined}
use sih.Nlp.Evaluate.Reference.{evaluate_lem}

-- What a result is worth, without the reason of a failure.
abbrev pub value_of {ℓ κ} : {E : Type κ} {A : Type ℓ} → Outcome E A → Option A
value_of (failed e) = none
value_of (done a) = some a

abbrev paired {ℓ} : {A : Type ℓ} → Option A → Option (List A) → Option (List A)
paired none o = none
paired (some v) none = none
paired (some v) (some vs) = some (v ∷ vs)

-- The values at some places, if each has one.
abbrev pub all_there {ℓ} : {A : Type ℓ} → (ℕ → Option A) → List ℕ → Option (List A)
all_there f [] = some []
all_there f (c ∷ cs) = paired (f c) (all_there f cs)

module _ {ℓ} {D : Type ℓ} ⦃d : Double D⦄ (math : Arithmetic D) (x : List D) where
  -- Division away from zero; a power of a positive base, of zero with an exponent that is not negative, or of
  -- a negative base with an integer exponent; the logarithm of what is positive; the root of what is not
  -- negative.
  abbrev pub in_domain : Op → D → D → D → Bool
  in_domain divide_op exponent first second = d.lt second d.nought || d.lt d.nought second
  in_domain power_op exponent first second =
      d.lt d.nought first
      || (eq first d.nought && d.le d.nought exponent)
      || (d.lt first d.nought && is_integer math exponent)
  in_domain log_op exponent first second = d.lt d.nought first
  in_domain sqrt_op exponent first second = d.le d.nought first
  in_domain _ exponent first second = true

  -- What an operation gives there.
  abbrev pub operate : Node D → List D → D → D → D
  operate n vs first second = elim n.op [
    | constant_op ↦ n.value
    | variable_op ↦ get_or x (index_of n.variable) d.nought
    | sum_op ↦ sum_values d.nought vs
    | product_op ↦ d.mul first second
    | negate_op ↦ d.neg first
    | divide_op ↦ math.div first second
    | power_op ↦ math.pow first n.value
    | exp_op ↦ math.exp first
    | log_op ↦ math.log first
    | sqrt_op ↦ math.sqrt first
  ]

  -- In its domain and finite, or nothing.
  abbrev pub defined_value : Node D → List D → Option D
  defined_value n vs =
      let first = get_or vs 0 d.nought in
      let second = get_or vs 1 d.nought in
      let y = operate n vs first second in
      if in_domain n.op n.value first second && is_finite y then some y else none

  -- The value of an expression by recursion on it.
  abbrev pub reference : ExpressionGraph D → ℕ → ℕ → Option D
  reference g zero i = none
  reference g (suc fuel) i = elim (all_there (reference g fuel) (node g i).children) [
    | none ↦ none
    | some vs ↦ defined_value (node g i) vs
  ]

module _ {ℓ} {D : Type ℓ} ⦃d : Double D⦄ (o : IsOrdered D) (math : Arithmetic D) (x : List D) where
  computed :
      (op : Op) (value : D) (variable : ℤ) (children : List ℕ) (vs : List D)
      → IsNumber value
      → IsNumber (get_or vs 0 d.nought)
      → IsNumber (get_or vs 1 d.nought)
      → let n : Node D = record {
        op = op;
        value = value;
        variable = variable;
        children = children;
      } in
        value_of (finite_result math x n vs) ≡ defined_value math x n vs
  unfolding finite_result compute ◌>>=◌
  computed divide_op value variable children vs h first second =
      let b = get_or vs 1 d.nought in
      let below : d.lt b d.nought ≡ not (d.le d.nought b) =
        o.lt-eq-not-le _ _ second o.nought-IsNumber in
      let above : d.lt d.nought b ≡ not (d.le b d.nought) =
        o.lt-eq-not-le _ _ o.nought-IsNumber second in
      ground arith
  computed power_op value variable children vs h first second =
      let a = get_or vs 0 d.nought in
      let below : d.lt a d.nought ≡ not (d.le d.nought a) =
        o.lt-eq-not-le _ _ first o.nought-IsNumber in
      let above : d.lt d.nought a ≡ not (d.le a d.nought) =
        o.lt-eq-not-le _ _ o.nought-IsNumber first in
      let exponent : d.lt value d.nought ≡ not (d.le d.nought value) =
        o.lt-eq-not-le _ _ h o.nought-IsNumber in
      let total : (a ≼ d.nought) ⊎ (d.nought ≼ a) = o.le_total _ _ first o.nought-IsNumber in
      ground arith
  computed log_op value variable children vs h first second =
      let a = get_or vs 0 d.nought in
      let above : d.lt d.nought a ≡ not (d.le a d.nought) =
        o.lt-eq-not-le _ _ o.nought-IsNumber first in
      ground arith
  computed sqrt_op value variable children vs h first second =
      let a = get_or vs 0 d.nought in
      let below : d.lt a d.nought ≡ not (d.le d.nought a) =
        o.lt-eq-not-le _ _ first o.nought-IsNumber in
      ground arith
  computed constant_op value variable children vs h first second = ground arith
  computed variable_op value variable children vs h first second = ground arith
  computed sum_op value variable children vs h first second = ground arith
  computed product_op value variable children vs h first second = ground arith
  computed negate_op value variable children vs h first second = ground arith
  computed exp_op value variable children vs h first second = ground arith

value_of-joined {ℓ} :
    {D : Type ℓ} ⦃d : Double D⦄ (p : Outcome Fault D) (q : Outcome Fault (List D))
    → value_of (joined p q) ≡ paired (value_of p) (value_of q)
value_of-joined (failed e) q = refl
value_of-joined (done v) (failed e) = refl
value_of-joined (done v) (done vs) = refl

value_of-all_of {ℓ} :
    {D : Type ℓ} ⦃d : Double D⦄ (f : ℕ → Outcome Fault D) (h : ℕ → Option D)
    → ((c : ℕ) → value_of (f c) ≡ h c)
    → (cs : List ℕ) → value_of (all_of f cs) ≡ all_there h cs
value_of-all_of f h e [] = refl
value_of-all_of f h e (c ∷ cs) =
    value_of-joined (f c) (all_of f cs) ∙ (λ i. paired (e c i) (value_of-all_of f h e cs i))

paired-some {ℓ} :
    {A : Type ℓ} (p : Option A) (q : Option (List A)) (vs : List A)
    → paired p q ≡ some vs
    → (a : A) × (rest : List A) × (p ≡ some a) × (q ≡ some rest) × (a ∷ rest ≡ vs)
paired-some none q vs h = absurd (ground arith)
paired-some (some a) none vs h = absurd (ground arith)
paired-some (some a) (some rest) vs h = (a, rest, refl, refl, cc)

kept-some {ℓ} :
    {A : Type ℓ} (b : Bool) (a y : A) → (if b then some a else none) ≡ some y → (b ≡ true) × (a ≡ y)
kept-some true a y h = (refl, cc)
kept-some false a y h = absurd (ground arith)

get_or-outside {ℓ} : {A : Type ℓ} (xs : List A) (i : ℕ) (a : A) → length xs ≤ i → get_or xs i a ≡ a
get_or-outside [] i a h = refl
get_or-outside (x ∷ xs) zero a h = absurd (omega arith)
get_or-outside (x ∷ xs) (suc i) a h = get_or-outside xs i a (omega arith)

all_there-All {ℓ κ} :
    {A : Type ℓ} (P : A → Type κ) (h : ℕ → Option A)
    → ((c : ℕ) (a : A) → h c ≡ some a → P a)
    → (cs : List ℕ) (vs : List A) → all_there h cs ≡ some vs
    → All P vs
all_there-All P h k [] [] e = tt
all_there-All P h k [] (v ∷ vs) e = absurd (ground arith)
all_there-All P h k (c ∷ cs) vs e =
    let (a, rest, here, later, same) = paired-some (h c) (all_there h cs) vs e in
    subst (All P) same (k c a here, all_there-All P h k cs rest later)

get_or-All {ℓ κ} :
    {A : Type ℓ} (P : A → Type κ) (vs : List A) (i : ℕ) (a : A) → All P vs → P a → P (get_or vs i a)
get_or-All P [] i a h k = k
get_or-All P (v ∷ vs) zero a h k = h.0
get_or-All P (v ∷ vs) (suc i) a h k = get_or-All P vs i a h.1 k

value_of-same {ℓ κ ι} :
    {E : Type κ} {F : Type ι} {A : Type ℓ} (p : Outcome E A) (q : Outcome F A)
    → ((a : A) → (p ≡ done a) ↔ (q ≡ done a))
    → value_of p ≡ value_of q
value_of-same (failed e) (failed f) h = refl
value_of-same (failed e) (done b) h = let bad = (h b).1 refl in absurd (ground arith)
value_of-same (done a) q h = ap value_of (sym ((h a).0 refl))

module _ {ℓ} {D : Type ℓ} ⦃d : Double D⦄ (o : IsOrdered D)
    (finite : (y : D) → is_finite y ≡ true → IsNumber y) (math : Arithmetic D) (x : List D)
    (g : ExpressionGraph D) (v : IsGraph math g) where
  defined_value-finite :
      (n : Node D) (vs : List D) (y : D) → defined_value math x n vs ≡ some y → is_finite y ≡ true
  defined_value-finite n vs y h =
      let (inside, same) = kept-some _ _ y h in subst (λ z. is_finite z ≡ true) same (ground arith)

  reference-finite : (fuel i : ℕ) (y : D) → reference math x g fuel i ≡ some y → is_finite y ≡ true
  reference-finite zero i y h = absurd (ground arith)
  reference-finite (suc fuel) i y h =
      elim (Option-cases (all_there (reference math x g fuel) (node g i).children)) [
        | inl e ↦ let bad : none ≡ some y = rw (e, reference) at h in absurd (ground arith)
        | inr (vs, e) ↦ defined_value-finite (node g i) vs y (rw (e, reference) at h)
      ]

  value-IsNumber : (i : ℕ) → IsNumber (node g i).value
  unfolding node
  value-IsNumber i = elim (Bool-cases (ltb i (length g.nodes))) [
    | inl t ↦ finite _ (v.well_formed i (ground arith)).finite
    | inr f ↦ rw (get_or-outside g.nodes i blank (ground arith)) o.nought-IsNumber
  ]

  meaning-reference : (fuel i : ℕ) → value_of (meaning math x g fuel i) ≡ reference math x g fuel i
  meaning-reference zero i = refl
  meaning-reference (suc fuel) i =
      let children =
        value_of-all_of (meaning math x g fuel) (reference math x g fuel) (meaning-reference fuel)
          (node g i).children in
      elim (Outcome-cases (all_of (meaning math x g fuel) (node g i).children)) [
        | inl (e, q) ↦
            let gone : all_there (reference math x g fuel) (node g i).children ≡ none =
              sym children ∙ ap value_of q in
            rw (q, gone, meaning, reference) refl
        | inr (vs, q) ↦
            let there : all_there (reference math x g fuel) (node g i).children ≡ some vs =
              sym children ∙ ap value_of q in
            let numbers =
              all_there-All IsNumber (reference math x g fuel)
                (λ c a e. finite a (reference-finite fuel c a e)) _ vs there in
            rw (q, there, meaning, reference)
              (computed o math x (node g i).op (node g i).value (node g i).variable
                (node g i).children vs (value-IsNumber i)
                (get_or-All IsNumber vs 0 d.nought numbers o.nought-IsNumber)
                (get_or-All IsNumber vs 1 d.nought numbers o.nought-IsNumber))
      ]

  -- At a node of a well-formed graph and a point with an entry for each column, `evaluate` gives a value
  -- exactly where recursion on the expression meets every operation inside its domain and every result
  -- is finite, and it is the value of that recursion. The domains are those of the comment on
  -- `in_domain`; comparisons are
  -- assumed to be those of IEEE 754, and a finite double to be no NaN.
  pub evaluate-reference :
      (root : ℤ)
      → contains g root ≡ true
      → length x ≡ g.num_variables
      → value_of (evaluate math x g root) ≡ reference math x g (suc (index_of root)) (index_of root)
  evaluate-reference root h n =
      value_of-same _ _ (evaluate_lem math x g v root h n).0
      ∙ meaning-reference (suc (index_of root)) (index_of root)
