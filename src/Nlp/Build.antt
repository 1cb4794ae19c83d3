-- ===== src/Nlp/Build.antt =====
-- src/nlp/expression.cpp: the constructions of an expression graph, each with its foldings and the
-- early return of a node that is not in the graph.
use sih.Prelude.{
  ℕ, Bool, false, not, ◌&&◌, ◌||◌, Option, none, some, List, [], ◌∷◌, ◌++◌, if◌then◌else◌, ltb,
}
use sih.Prelude.Double.{Double, eq, is_finite}
use sih.Prelude.Int.{ℤ, pos, negsuc, ℤ_eq, leb_ℤ, ltb_ℤ}
use sih.Prelude.Sort.{sort}
use sih.Prelude.Outcome.{Outcome, failed, done}
use sih.Nlp.{
  Op, constant_op, variable_op, sum_op, product_op, negate_op, divide_op, power_op, exp_op, log_op,
  sqrt_op, same_op, Arithmetic, Node, infinite_constant, column_outside, infinite_exponent,
  ExpressionGraph, no_expr, index_of, mark_invalid, contains, refuse, node, is_constant, is_integer,
  intern, defined_everywhere,
}

abbrev pub Made {ℓ} : Type ℓ → Type ℓ
Made D = ℤ × ExpressionGraph D

module _ {ℓ} {D : Type ℓ} ⦃d : Double D⦄ (math : Arithmetic D) where
  unfoldable pub operation : Op → D → List ℕ → Node D
  operation op value children = record {
    op = op;
    value = value;
    variable = negsuc 0;
    children = children;
  }

  unfoldable pub constant : D → ExpressionGraph D → Made D
  constant value g =
      if not (is_finite value)
      then (no_expr, mark_invalid infinite_constant g)
      else intern math (operation constant_op value []) g

  unfoldable pub variable : ℤ → ExpressionGraph D → Made D
  variable column g =
      if ltb_ℤ column (pos 0) || leb_ℤ (pos g.num_variables) column
      then (no_expr, mark_invalid (column_outside column) g)
      else intern math
          (record { op = variable_op; value = d.nought; variable = column; children = [] }) g

  -- A term that is no sum, or a term of a sum: a constant goes to the constant part.
  unfoldable pub take_term : ExpressionGraph D → ℕ → List ℕ × D → List ℕ × D
  take_term g t (flat, part) = elim (is_constant g t) [
    | some c ↦ (flat, d.add part c)
    | none ↦ (flat ++ t ∷ [], part)
  ]

  unfoldable pub take_terms : ExpressionGraph D → List ℕ → List ℕ × D → List ℕ × D
  take_terms g [] taken = taken
  take_terms g (t ∷ ts) taken = take_terms g ts (take_term g t taken)

  -- A nested sum gives its terms; a constant is no sum.
  unfoldable pub flatten : ExpressionGraph D → List ℤ → List ℕ × D → Outcome (Made D) (List ℕ × D)
  flatten g [] taken = done taken
  flatten g (t ∷ ts) taken =
      let n = index_of t in
      let is_sum = same_op (node g n).op sum_op in
      let rest =
        flatten g ts
          (if is_sum then take_terms g (node g n).children taken else take_term g n taken) in
      if contains g t then rest else failed (refuse sum_op t g)

  unfoldable pub sum_of : List ℕ → ExpressionGraph D → Made D
  sum_of [] g = constant d.nought g
  sum_of (t ∷ []) g = (pos t, g)
  sum_of (t ∷ u ∷ ts) g = intern math (operation sum_op d.nought (sort ltb (t ∷ u ∷ ts))) g

  unfoldable pub sum : List ℤ → ExpressionGraph D → Made D
  sum terms g = elim (flatten g terms ([], d.nought)) [
    | failed made ↦ made
    | done (flat, part) ↦
        let (folded, h) = constant part g in
        if eq part d.nought
        then sum_of flat g
        else if ℤ_eq folded no_expr
        then (no_expr, h)
        else sum_of (flat ++ index_of folded ∷ []) h
  ]

  unfoldable pub add : ℤ → ℤ → ExpressionGraph D → Made D
  add a b g = sum (a ∷ b ∷ []) g

  unfoldable pub negate : ℤ → ExpressionGraph D → Made D
  negate a g =
      let n = index_of a in
      if not (contains g a) then refuse negate_op a g else elim (is_constant g n) [
        | some c ↦ constant (d.neg c) g
        | none ↦ elim (node g n).children [
          | [] ↦ intern math (operation negate_op d.nought (n ∷ [])) g
          | inner ∷ _ ↦
              if same_op (node g n).op negate_op
              then (pos inner, g)
              else intern math (operation negate_op d.nought (n ∷ [])) g
        ]
      ]

  unfoldable pub subtract : ℤ → ℤ → ExpressionGraph D → Made D
  subtract a b g = let (minus, h) = negate b g in sum (a ∷ minus ∷ []) h

  -- `children = {min(a, b), max(a, b)}`
  unfoldable pub product_of : ℕ → ℕ → ExpressionGraph D → Made D
  product_of a b g =
      intern math (operation product_op d.nought (if ltb b a then b ∷ a ∷ [] else a ∷ b ∷ [])) g

  -- A constant `c` times a node.
  unfoldable pub scale : D → ℤ → Made D → ExpressionGraph D → Made D
  scale c other product g =
      if eq c d.one
      then (other, g)
      else if eq c (d.neg d.one)
      then negate other g
      else if eq c d.nought && defined_everywhere math g other
      then constant d.nought g
      else product

  unfoldable pub multiply : ℤ → ℤ → ExpressionGraph D → Made D
  multiply a b g =
      let product = product_of (index_of a) (index_of b) g in
      if not (contains g a)
      then refuse product_op a g
      else if not (contains g b)
      then refuse product_op b g
      else elim (is_constant g (index_of a)) [
        | some ca ↦ elim (is_constant g (index_of b)) [
          | some cb ↦ if is_finite (d.mul ca cb) then constant (d.mul ca cb) g else product
          | none ↦ scale ca b product g
        ]
        | none ↦ elim (is_constant g (index_of b)) [
          | some cb ↦ scale cb a product g
          | none ↦ product
        ]
      ]

  -- A quotient of two constants that can be folded.
  unfoldable pub quotient : Option D → Option D → Option D
  quotient (some n) (some c) =
      if not (eq c d.nought) && is_finite (math.div n c) then some (math.div n c) else none
  quotient _ _ = none

  unfoldable pub divide : ℤ → ℤ → ExpressionGraph D → Made D
  divide a b g =
      let numerator = is_constant g (index_of a) in
      let denominator = is_constant g (index_of b) in
      let by_one : Bool = elim denominator [ some c ↦ eq c d.one | none ↦ false ] in
      if not (contains g a)
      then refuse divide_op a g
      else if not (contains g b)
      then refuse divide_op b g
      else if by_one
      then (a, g)
      else elim (quotient numerator denominator) [
        | some q ↦ constant q g
        | none ↦ intern math (operation divide_op d.nought (index_of a ∷ index_of b ∷ [])) g
      ]

  unfoldable pub power_defined : D → D → Bool
  power_defined c exponent =
      d.lt d.nought c
      || (eq c d.nought && d.lt d.nought exponent)
      || (d.lt c d.nought && is_integer math exponent)

  unfoldable pub power : ℤ → D → ExpressionGraph D → Made D
  power base exponent g =
      let kept = intern math (operation power_op exponent (index_of base ∷ [])) g in
      if not (contains g base)
      then refuse power_op base g
      else if not (is_finite exponent)
      then (no_expr, mark_invalid infinite_exponent g)
      else if eq exponent d.one
      then (base, g)
      else if eq exponent d.nought && defined_everywhere math g base
      then constant d.one g
      else elim (is_constant g (index_of base)) [
        | some c ↦
            if power_defined c exponent && is_finite (math.pow c exponent)
            then constant (math.pow c exponent) g
            else kept
        | none ↦ kept
      ]

  -- The atoms of one argument; `exp` folds only to a finite value, the others wherever they are
  -- defined.
  unfoldable pub exp : ℤ → ExpressionGraph D → Made D
  exp a g =
      let kept = intern math (operation exp_op d.nought (index_of a ∷ [])) g in
      if not (contains g a) then refuse exp_op a g else elim (is_constant g (index_of a)) [
        | some c ↦ if is_finite (math.exp c) then constant (math.exp c) g else kept
        | none ↦ kept
      ]

  unfoldable pub log : ℤ → ExpressionGraph D → Made D
  log a g =
      let kept = intern math (operation log_op d.nought (index_of a ∷ [])) g in
      if not (contains g a) then refuse log_op a g else elim (is_constant g (index_of a)) [
        | some c ↦ if d.lt d.nought c then constant (math.log c) g else kept
        | none ↦ kept
      ]

  unfoldable pub sqrt : ℤ → ExpressionGraph D → Made D
  sqrt a g =
      let kept = intern math (operation sqrt_op d.nought (index_of a ∷ [])) g in
      if not (contains g a) then refuse sqrt_op a g else elim (is_constant g (index_of a)) [
        | some c ↦ if d.le d.nought c then constant (math.sqrt c) g else kept
        | none ↦ kept
      ]
