-- ===== src/Nlp/Constructions.antt =====
-- src/nlp/expression.cpp: whatever is constructed, the graph stays well formed.
use sih.Prelude.{
  ℕ, ◌<◌, ◌≡◌, Bool, true, false, not, none, some, List, [], ◌∷◌, if◌then◌else◌, refl, length, All,
}
use sih.Prelude.Double.{Double, is_finite}
use sih.Prelude.Int.{ℤ}
use sih.Nlp.{
  Op, variable_op, exp_op, log_op, sqrt_op, same_op, Arithmetic, ExpressionGraph, index_of,
  contains, refuse, node, is_constant, intern,
}
use sih.Nlp.Build.{
  Made, operation, constant, variable, sum, add, negate, subtract, multiply, divide, power, exp,
  log, sqrt,
}
use sih.Nlp.Valid.{has_arity, IsGraph, IsGraph-unique, IsHonest, IsMade}
use sih.Nlp.Intern.{IsArithmetic}
use sih.Nlp.Graph.{if-IsMade, option-IsMade, constant-IsMade, variable-IsMade}
use sih.Nlp.Products.{guard-IsMade, unary-IsMade, multiply-IsMade, divide-IsMade, power-IsMade}
use sih.Nlp.Operations.{sum-IsMade, negate-IsMade, subtract-IsMade}

-- The calls that construct, with their arguments.
pub data Construction {ℓ} (D : Type ℓ) : Type ℓ where
  a_constant : D → Construction D
  a_variable : ℤ → Construction D
  a_sum : List ℤ → Construction D
  an_add : ℤ → ℤ → Construction D
  a_subtract : ℤ → ℤ → Construction D
  a_multiply : ℤ → ℤ → Construction D
  a_divide : ℤ → ℤ → Construction D
  a_negate : ℤ → Construction D
  a_power : ℤ → D → Construction D
  an_exp : ℤ → Construction D
  a_log : ℤ → Construction D
  a_sqrt : ℤ → Construction D

-- The nodes that a construction is given.
abbrev pub operands {ℓ} : {D : Type ℓ} → Construction D → List ℤ
operands (a_constant x) = []
operands (a_variable k) = []
operands (a_sum terms) = terms
operands (an_add a b) = a ∷ b ∷ []
operands (a_subtract a b) = a ∷ b ∷ []
operands (a_multiply a b) = a ∷ b ∷ []
operands (a_divide a b) = a ∷ b ∷ []
operands (a_negate a) = a ∷ []
operands (a_power a x) = a ∷ []
operands (an_exp a) = a ∷ []
operands (a_log a) = a ∷ []
operands (a_sqrt a) = a ∷ []

module _ {ℓ} {D : Type ℓ} ⦃d : Double D⦄ (math : Arithmetic D) where
  abbrev pub construct : Construction D → ExpressionGraph D → Made D
  construct (a_constant x) = constant math x
  construct (a_variable k) = variable math k
  construct (a_sum terms) = sum math terms
  construct (an_add a b) = add math a b
  construct (a_subtract a b) = subtract math a b
  construct (a_multiply a b) = multiply math a b
  construct (a_divide a b) = divide math a b
  construct (a_negate a) = negate math a
  construct (a_power a x) = power math a x
  construct (an_exp a) = exp math a
  construct (a_log a) = log math a
  construct (a_sqrt a) = sqrt math a

module _ {ℓ} {D : Type ℓ} ⦃d : Double D⦄ (math : Arithmetic D) (law : IsArithmetic math)
    (g : ExpressionGraph D) (v : IsGraph math g) where
  -- The atoms of one argument have one shape.
  atom-IsMade :
      (op : Op) (defined : D → Bool) (apply : D → D) (a : ℤ)
      → has_arity op 1 ≡ true
      → same_op op variable_op ≡ false
      → IsHonest g a
      → IsMade math g (
          if not (contains g a) then refuse op a g else elim (is_constant g (index_of a)) [
            | some c ↦
                if defined c
                then constant math (apply c) g
                else intern math (operation math op d.nought (index_of a ∷ [])) g
            | none ↦ intern math (operation math op d.nought (index_of a ∷ [])) g
          ])
  atom-IsMade op defined apply a r o h = guard-IsMade math law g v op a _ h (λ c.
      let kept = unary-IsMade math law g v op a c r o in
      option-IsMade math law g v (is_constant g (index_of a)) _
        (λ x.
          if defined x
          then constant math (apply x) g
          else intern math (operation math op d.nought (index_of a ∷ [])) g)
        (λ n. kept)
        (λ x n.
          if-IsMade math law g v (defined x) _ _ (λ t. constant-IsMade math law g v (apply x))
            (λ t. kept)))

  exp-IsMade : (a : ℤ) → IsHonest g a → IsMade math g (exp math a g)
  unfolding exp
  exp-IsMade a = atom-IsMade exp_op (λ x. is_finite (math.exp x)) math.exp a refl refl

  log-IsMade : (a : ℤ) → IsHonest g a → IsMade math g (log math a g)
  unfolding log
  log-IsMade a = atom-IsMade log_op (λ x. d.lt d.nought x) math.log a refl refl

  sqrt-IsMade : (a : ℤ) → IsHonest g a → IsMade math g (sqrt math a g)
  unfolding sqrt
  sqrt-IsMade a = atom-IsMade sqrt_op (λ x. d.le d.nought x) math.sqrt a refl refl

  construct-IsMade :
      (c : Construction D) → All (IsHonest g) (operands c) → IsMade math g (construct math c g)
  unfolding add
  construct-IsMade (Construction.a_constant x) h = constant-IsMade math law g v x
  construct-IsMade (Construction.a_variable k) h = variable-IsMade math law g v k
  construct-IsMade (Construction.a_sum terms) h = sum-IsMade math law g terms v h
  construct-IsMade (Construction.an_add a b) h = sum-IsMade math law g (a ∷ b ∷ []) v h
  construct-IsMade (Construction.a_subtract a b) h = subtract-IsMade math law g a b v h.0 h.1.0
  construct-IsMade (Construction.a_multiply a b) h = multiply-IsMade math law g v a b h.0 h.1.0
  construct-IsMade (Construction.a_divide a b) h = divide-IsMade math law g v a b h.0 h.1.0
  construct-IsMade (Construction.a_negate a) h = negate-IsMade math law g a v h.0
  construct-IsMade (Construction.a_power a x) h = power-IsMade math law g v a x h.0
  construct-IsMade (Construction.an_exp a) h = exp-IsMade a h.0
  construct-IsMade (Construction.a_log a) h = log-IsMade a h.0
  construct-IsMade (Construction.a_sqrt a) h = sqrt-IsMade a h.0

  -- Every construction on a well-formed graph gives a well-formed graph that has the old nodes where they
  -- were. Children come before their parent, and no node stands twice. What is returned is a node of the
  -- graph, or the name of a failure, and then a misuse is on record; the first misuse stays. The name
  -- of a failure is given as an operand only after a failure. Doubles with the same bits are assumed to be
  -- one, and zero to be finite.
  pub construct_lem :
      (c : Construction D)
      → All (IsHonest g) (operands c)
      → let made = construct math c g in
        IsMade math g made
        × ((i j : ℕ)
            → i < length made.1.nodes
            → j < length made.1.nodes
            → node made.1 i ≡ node made.1 j
            → i ≡ j)
  construct_lem c h =
      let m = construct-IsMade c h in
      (m, λ i j k l e. IsGraph-unique math (construct math c g).1 i j m.valid k l e)
