-- ===== src/Nlp/Products.antt =====
-- src/nlp/expression.cpp: `multiply`, `divide` and `power` give a node of a well-formed graph.
use sih.Prelude.{
  ℕ, ◌<◌, ◌≡◌, true, false, not, ◌&&◌, Option, none, some, [], ◌∷◌, if◌then◌else◌, refl, arith, inl,
  inr, ltb, length, Bool-cases,
}
use sih.Prelude.Double.{Double, eq, is_finite}
use sih.Prelude.Int.{ℤ}
use sih.Nlp.{
  Op, variable_op, product_op, divide_op, power_op, same_op, Arithmetic, infinite_exponent,
  ExpressionGraph, no_expr, index_of, mark_invalid, contains, refuse, is_constant, intern,
  defined_everywhere,
}
use sih.Nlp.Build.{
  Made, operation, constant, negate, product_of, scale, multiply, quotient, divide, power_defined,
  power,
}
use sih.Nlp.Valid.{
  has_arity, IsGraph, IsHonest, IsMade, contains-index, keep-IsMade, mark-IsMade, refuse-IsMade,
}
use sih.Nlp.Intern.{IsArithmetic, intern-IsMade, operation-IsNode}
use sih.Nlp.Graph.{if-IsMade, option-IsMade, operation-IsMade, constant-IsMade}
use sih.Nlp.Operations.{there-IsHonest, negate-IsMade}

module _ {ℓ} {D : Type ℓ} ⦃d : Double D⦄ (math : Arithmetic D) (law : IsArithmetic math)
    (g : ExpressionGraph D) (v : IsGraph math g) where
  -- A node, or the refusal of one that is not there.
  pub guard-IsMade :
      (op : Op) (a : ℤ) (y : Made D)
      → IsHonest g a
      → (contains g a ≡ true → IsMade math g y)
      → IsMade math g (if not (contains g a) then refuse op a g else y)
  guard-IsMade op a y h k =
      if-IsMade math law g v (not (contains g a)) (refuse op a g) y
        (λ t. refuse-IsMade math op g a v h) (λ f. k (ground arith))

  -- An operation of one node that is there.
  pub unary-IsMade :
      (op : Op) (a : ℤ)
      → contains g a ≡ true
      → has_arity op 1 ≡ true
      → same_op op variable_op ≡ false
      → IsMade math g (intern math (operation math op d.nought (index_of a ∷ [])) g)
  unary-IsMade op a c =
      operation-IsMade math law g v op (index_of a ∷ []) (contains-index g a c, tt)

  product_of-IsMade :
      (a b : ℕ) → a < length g.nodes → b < length g.nodes → IsMade math g (product_of math a b g)
  unfolding product_of
  product_of-IsMade a b h k = elim (Bool-cases (ltb b a)) [
    | inl t ↦ rw t (operation-IsMade math law g v product_op (b ∷ a ∷ []) (k, (h, tt)) refl refl)
    | inr f ↦ rw f (operation-IsMade math law g v product_op (a ∷ b ∷ []) (h, (k, tt)) refl refl)
  ]

  scale-IsMade :
      (c : D) (other : ℤ) (product : Made D)
      → contains g other ≡ true
      → IsMade math g product
      → IsMade math g (scale math c other product g)
  unfolding scale
  scale-IsMade c other product h m =
      if-IsMade math law g v (eq c d.one) (other, g) _ (λ t. keep-IsMade math g other v h)
        (λ f.
          if-IsMade math law g v (eq c (d.neg d.one)) (negate math other g) _
            (λ t. negate-IsMade math law g other v (there-IsHonest g other h))
            (λ f.
              if-IsMade math law g v (eq c d.nought && defined_everywhere math g other)
                (constant math d.nought g) product (λ t. constant-IsMade math law g v d.nought)
                (λ f. m)))

  pub multiply-IsMade :
      (a b : ℤ) → IsHonest g a → IsHonest g b → IsMade math g (multiply math a b g)
  unfolding multiply
  multiply-IsMade a b h k = guard-IsMade product_op a _ h (λ c.
      guard-IsMade product_op b _ k
        (λ e. both c e (is_constant g (index_of a)) (is_constant g (index_of b))))
    where
      both :
          contains g a ≡ true
          → contains g b ≡ true
          → (x y : Option D)
          → IsMade math g (elim x [
            | some ca ↦ elim y [
              | some cb ↦
                  if is_finite (d.mul ca cb)
                  then constant math (d.mul ca cb) g
                  else product_of math (index_of a) (index_of b) g
              | none ↦ scale math ca b (product_of math (index_of a) (index_of b) g) g
            ]
            | none ↦ elim y [
              | some cb ↦ scale math cb a (product_of math (index_of a) (index_of b) g) g
              | none ↦ product_of math (index_of a) (index_of b) g
            ]
          ])
      both c e none none =
          product_of-IsMade (index_of a) (index_of b) (contains-index g a c) (contains-index g b e)
      both c e none (some cb) = scale-IsMade cb a _ c (
          product_of-IsMade (index_of a) (index_of b) (contains-index g a c) (contains-index g b e))
      both c e (some ca) none = scale-IsMade ca b _ e (
          product_of-IsMade (index_of a) (index_of b) (contains-index g a c) (contains-index g b e))
      both c e (some ca) (some cb) =
          if-IsMade math law g v (is_finite (d.mul ca cb)) _ _
            (λ t. constant-IsMade math law g v (d.mul ca cb))
            (λ t.
              product_of-IsMade (index_of a) (index_of b) (contains-index g a c)
                (contains-index g b e))

  pub divide-IsMade : (a b : ℤ) → IsHonest g a → IsHonest g b → IsMade math g (divide math a b g)
  unfolding divide
  divide-IsMade a b h k = guard-IsMade divide_op a _ h (λ c. guard-IsMade divide_op b _ k (λ e.
      if-IsMade math law g v _ (a, g) _ (λ t. keep-IsMade math g a v c)
        (λ f.
          option-IsMade math law g v
            (quotient math (is_constant g (index_of a)) (is_constant g (index_of b))) _
            (λ q. constant math q g)
            (λ n.
              operation-IsMade math law g v divide_op (index_of a ∷ index_of b ∷ [])
                (contains-index g a c, (contains-index g b e, tt)) refl refl)
            (λ q n. constant-IsMade math law g v q))))

  -- A power keeps its exponent in the node.
  power_node-IsMade :
      (base : ℤ) (exponent : D)
      → contains g base ≡ true
      → is_finite exponent ≡ true
      → IsMade math g (intern math (operation math power_op exponent (index_of base ∷ [])) g)
  power_node-IsMade base exponent c f =
      intern-IsMade math law _ g
        (operation-IsNode math law g.num_variables (length g.nodes) power_op exponent
          (index_of base ∷ []) (contains-index g base c, tt) refl f refl)
        v

  pub power-IsMade :
      (base : ℤ) (exponent : D) → IsHonest g base → IsMade math g (power math base exponent g)
  unfolding power
  power-IsMade base exponent h = guard-IsMade power_op base _ h (λ c.
      if-IsMade math law g v (not (is_finite exponent)) (no_expr, mark_invalid infinite_exponent g)
        _ (λ t. mark-IsMade math g infinite_exponent v)
        (λ f.
          let kept = power_node-IsMade base exponent c (ground arith) in
          if-IsMade math law g v (eq exponent d.one) (base, g) _ (λ t. keep-IsMade math g base v c)
            (λ f.
              if-IsMade math law g v (eq exponent d.nought && defined_everywhere math g base)
                (constant math d.one g) _ (λ t. constant-IsMade math law g v d.one)
                (λ f.
                  option-IsMade math law g v (is_constant g (index_of base)) _
                    (λ x.
                      if power_defined math x exponent && is_finite (math.pow x exponent)
                      then constant math (math.pow x exponent) g
                      else intern math (operation math power_op exponent (index_of base ∷ [])) g)
                    (λ n. kept)
                    (λ x n.
                      if-IsMade math law g v
                        (power_defined math x exponent && is_finite (math.pow x exponent)) _ _
                        (λ t. constant-IsMade math law g v (math.pow x exponent)) (λ t. kept))))))
