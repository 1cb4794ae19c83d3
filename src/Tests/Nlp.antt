-- ===== src/Tests/Nlp.antt =====
-- src/nlp/expression.cpp and src/nlp/derivatives.cpp on x0 * x0 over two columns.
use sih.Prelude.{ℕ, suc, true, false, ◌≡◌, ◌↔◌, ◌<◌, Bool, List, [], ◌∷◌, refl, ap, arith, length}
use sih.Prelude.Double.{
  Extended-IsOrdered, IsNumber, is_finite, Extended, num, nan, low, high, extended_double,
}
use sih.Prelude.Int.{pos, ℤ_eq, ℤ_eq_iff, ◌*ℤ◌}
use sih.Prelude.Outcome.{done, failed, ◌>>=◌}
use sih.Nlp.{
  Arithmetic, ExpressionGraph, expression_graph, contains, node, tape, walk_down, mark_children,
  intern, find, same_node, is_constant,
}
use sih.Nlp.Build.{log, variable, multiply, product_of, operation}
use sih.Nlp.Constructions.{Construction, construct, construct_lem}
use sih.Nlp.Evaluate.{
  log_of_non_positive, EvalError, Fault, fault_at, evaluate, forward, finite_result, compute,
}
use sih.Nlp.Evaluate.Domain.{value_of, reference, evaluate-reference}
use sih.Nlp.Evaluate.Meaning.{meaning}
use sih.Nlp.Evaluate.Reference.{evaluate_lem}
use sih.Nlp.Intern.{IsArithmetic}
use sih.Nlp.Valid.{IsGraph, IsMade}

abbrev same_extended : Extended → Extended → Bool
same_extended nan nan = true
same_extended low low = true
same_extended high high = true
same_extended (num a) (num b) = ℤ_eq a b
same_extended _ _ = false

abbrev exact : Arithmetic Extended
exact = record {
  div = λ x y. nan;
  pow = λ x y. x;
  exp = λ x. x;
  log = λ x. num (pos 0);
  sqrt = λ x. x;
  floor = λ x. x;
  same_bits = same_extended;
}

same_extended_iff : (x y : Extended) → (same_extended x y ≡ true) ↔ (x ≡ y)
same_extended_iff (num a) (num b) =
    (λ t. ap num ((ℤ_eq_iff a b).0 t), λ e. let same : a ≡ b = cc in (ℤ_eq_iff a b).1 same)
same_extended_iff _ _ = ground arith

exact-IsArithmetic : IsArithmetic exact
exact-IsArithmetic = record { nought_finite = ground arith; same_bits_iff = same_extended_iff }

abbrev empty_graph : ExpressionGraph Extended
empty_graph = expression_graph (pos 2)

empty_graph-IsGraph : IsGraph exact empty_graph
unfolding expression_graph find
empty_graph-IsGraph = record {
  well_formed = λ i h. absurd (omega arith);
  named = λ i h. absurd (omega arith);
  names = λ n i h. absurd (ground arith);
}

abbrev with_column : ExpressionGraph Extended
with_column = (variable exact (pos 0) empty_graph).1

with_column-IsGraph : IsGraph exact with_column
with_column-IsGraph =
    (construct_lem exact exact-IsArithmetic empty_graph empty_graph-IsGraph
      (Construction.a_variable (pos 0)) tt).0.valid

abbrev square : ExpressionGraph Extended
square = (multiply exact (pos 0) (pos 0) with_column).1

square-IsGraph : IsGraph exact square
square-IsGraph =
    (construct_lem exact exact-IsArithmetic with_column with_column-IsGraph
      (Construction.a_multiply (pos 0) (pos 0))
      ((λ e. absurd (ground arith)), ((λ e. absurd (ground arith)), tt))).0.valid

construct_lem_example :
    let made = construct exact (Construction.a_multiply (pos 0) (pos 0)) with_column in
    IsMade exact with_column made
    × ((i j : ℕ)
        → i < length made.1.nodes
        → j < length made.1.nodes
        → node made.1 i ≡ node made.1 j
        → i ≡ j)
construct_lem_example =
    construct_lem exact exact-IsArithmetic with_column with_column-IsGraph
      (Construction.a_multiply (pos 0) (pos 0))
      ((λ e. absurd (ground arith)), ((λ e. absurd (ground arith)), tt))

abbrev point : List Extended
point = num (pos 3) ∷ num (pos 5) ∷ []

square_at_three : evaluate exact point square (pos 1) ≡ done (num (pos 9))
unfolding evaluate forward finite_result compute tape walk_down mark_children node contains multiply
    product_of operation variable intern find same_node is_constant expression_graph ◌>>=◌ ◌*ℤ◌
square_at_three = refl

square_root_there : contains square (pos 1) ≡ true
unfolding node contains multiply product_of operation variable intern find same_node is_constant
    expression_graph
square_root_there = refl

square_columns : length point ≡ square.num_variables
unfolding node contains multiply product_of operation variable intern find same_node is_constant
    expression_graph
square_columns = refl

evaluate_lem_example :
    ((y : Extended)
      → (evaluate exact point square (pos 1) ≡ done y) ↔ (meaning exact point square 2 1 ≡ done y))
    × ((e : EvalError)
        → evaluate exact point square (pos 1) ≡ failed e
        → (j : ℕ) × (q : Fault) × (e ≡ fault_at j q)
          × (meaning exact point square (suc j) j ≡ failed q))
evaluate_lem_example =
    evaluate_lem exact point square square-IsGraph (pos 1) square_root_there square_columns

abbrev logarithm : ExpressionGraph Extended
logarithm = (log exact (pos 0) with_column).1

logarithm-IsGraph : IsGraph exact logarithm
logarithm-IsGraph =
    (construct_lem exact exact-IsArithmetic with_column with_column-IsGraph
      (Construction.a_log (pos 0)) ((λ e. absurd (ground arith)), tt)).0.valid

abbrev zeros : List Extended
zeros = num (pos 0) ∷ num (pos 0) ∷ []

logarithm_of_zero : evaluate exact zeros logarithm (pos 1) ≡ failed (fault_at 1 log_of_non_positive)
unfolding evaluate forward finite_result compute tape walk_down mark_children node contains log
    operation variable intern find same_node is_constant expression_graph ◌>>=◌
logarithm_of_zero = refl

logarithm_root_there : contains logarithm (pos 1) ≡ true
unfolding node contains log operation variable intern find same_node is_constant expression_graph
logarithm_root_there = refl

logarithm_columns : length zeros ≡ logarithm.num_variables
unfolding node contains log operation variable intern find same_node is_constant expression_graph
logarithm_columns = refl

finite_IsNumber : (y : Extended) → is_finite y ≡ true → IsNumber y
finite_IsNumber nan h = ground arith
finite_IsNumber _ h = ground arith

evaluate-reference_example :
    value_of (evaluate exact zeros logarithm (pos 1)) ≡ reference exact zeros logarithm 2 1
evaluate-reference_example =
    evaluate-reference Extended-IsOrdered finite_IsNumber exact zeros logarithm logarithm-IsGraph
      (pos 1) logarithm_root_there logarithm_columns
