-- ===== src/Nlp/Evaluate.antt =====
-- src/nlp/derivatives.cpp: the forward sweep over the tape, and `evaluate`. An error keeps the node at
-- which it was found, and its kind in place of the message.
use sih.Prelude.{
  ℕ, zero, suc, Bool, true, false, not, ◌&&◌, ◌||◌, ◌==◌, Option, none, some, List, [], ◌∷◌, map,
  if◌then◌else◌, length, get_or, set, replicate,
}
use sih.Prelude.Double.{Double, eq, is_finite}
use sih.Prelude.Int.{ℤ, pos, negsuc}
use sih.Prelude.Outcome.{Outcome, failed, done, ◌>>=◌}
use sih.Nlp.{
  Op, constant_op, variable_op, sum_op, product_op, negate_op, divide_op, power_op, exp_op, log_op,
  sqrt_op, Arithmetic, Node, Misuse, ExpressionGraph, index_of, contains, node, tape, is_integer,
}
pub mod Tape
pub mod Meaning
pub mod Reference
pub mod Domain

pub data Fault : Type 0 where
  division_by_zero non_integer_power negative_power_of_zero log_of_non_positive sqrt_of_negative :
      Fault
  overflowed : Fault

pub data EvalError : Type 0 where
  not_a_node : Option Misuse → EvalError
  wrong_point : EvalError
  fault_at : ℕ → Fault → EvalError

-- The last element, or the one before the list.
abbrev pub last_or : ℕ → List ℕ → ℕ
last_or i [] = i
last_or i (j ∷ js) = last_or j js

module _ {ℓ} {D : Type ℓ} ⦃d : Double D⦄ where
  unfoldable pub sum_values : D → List D → D
  sum_values result [] = result
  sum_values result (v ∷ vs) = sum_values (d.add result v) vs

  module _ (math : Arithmetic D) (x : List D) where
    -- The operation of a node on the values of its children.
    unfoldable pub compute : Node D → List D → Outcome Fault D
    compute n vs =
        let first = get_or vs 0 d.nought in
        let second = get_or vs 1 d.nought in
        elim n.op [
          | constant_op ↦ done n.value
          | variable_op ↦ done (get_or x (index_of n.variable) d.nought)
          | sum_op ↦ done (sum_values d.nought vs)
          | product_op ↦ done (d.mul first second)
          | negate_op ↦ done (d.neg first)
          | divide_op ↦
              if eq second d.nought then failed division_by_zero else done (math.div first second)
          | power_op ↦
              if d.lt first d.nought && not (is_integer math n.value)
              then failed non_integer_power
              else if eq first d.nought && d.lt n.value d.nought
              then failed negative_power_of_zero
              else done (math.pow first n.value)
          | exp_op ↦ done (math.exp first)
          | log_op ↦
              if d.le first d.nought then failed log_of_non_positive else done (math.log first)
          | sqrt_op ↦
              if d.lt first d.nought then failed sqrt_of_negative else done (math.sqrt first)
        ]

    -- A result is finite, or there is none.
    unfoldable pub finite_result : Node D → List D → Outcome Fault D
    unfolding ◌>>=◌
    finite_result n vs = do
      result ← compute n vs
      if is_finite result then done result else failed overflowed

    unfoldable pub forward : ExpressionGraph D → List ℕ → List D → Outcome EvalError (List D)
    forward g [] v = done v
    forward g (i ∷ is) v =
        let n = node g i in
        elim (finite_result n (map (λ c. get_or v c d.nought) n.children)) [
          | failed e ↦ failed (fault_at i e)
          | done result ↦ forward g is (set v i result)
        ]

    unfoldable pub evaluate : ExpressionGraph D → ℤ → Outcome EvalError D
    unfolding ◌>>=◌
    evaluate g root =
        if not (contains g root)
        then failed (not_a_node g.invalid)
        else if not (length x == g.num_variables)
        then failed wrong_point
        else do
          v ← forward g (tape g root) (replicate (length g.nodes) d.nought)
          done (elim (tape g root) [ [] ↦ d.nought | i ∷ is ↦ get_or v (last_or i is) d.nought ])
