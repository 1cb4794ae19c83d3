-- ===== src/Nlp.antt =====
-- src/nlp/expression.hpp and src/nlp/expression.cpp: the arena of an expression graph, interning and
-- tapes. A node is named by an integer, which is in the graph or not; the children of a node are numbers.
-- What the C library computes is a record of functions, and so is the comparison of two doubles by
-- their bits; the key of a node in the map is the node.
use sih.Prelude.{
  ℕ, zero, suc, Bool, true, false, not, ◌&&◌, ◌||◌, ◌==◌, Option, none, some, List, [], ◌∷◌, ◌++◌,
  if◌then◌else◌, ltb, length, get_or, set, replicate, range, filter,
}
use sih.Prelude.Double
use sih.Prelude.Double.{Double, eq, is_finite}
use sih.Prelude.Int.{ℤ, pos, negsuc, ℤ_eq}
pub mod Build
pub mod Valid
pub mod Intern
pub mod Graph
pub mod Operations
pub mod Products
pub mod Constructions
pub mod Evaluate

pub data Op : Type 0 where
  constant_op variable_op sum_op product_op negate_op divide_op power_op exp_op log_op sqrt_op : Op

abbrev pub op_code : Op → ℕ
op_code constant_op = 0
op_code variable_op = 1
op_code sum_op = 2
op_code product_op = 3
op_code negate_op = 4
op_code divide_op = 5
op_code power_op = 6
op_code exp_op = 7
op_code log_op = 8
op_code sqrt_op = 9

-- `a == b` of two operations.
abbrev pub same_op : Op → Op → Bool
same_op a b = op_code a == op_code b

-- `std::pow`, `std::exp`, `std::log`, `std::sqrt`, `std::floor`, division, and equality of the bits.
pub record Arithmetic {ℓ} (D : Type ℓ) : Type ℓ where
  pub div : D → D → D
  pub pow : D → D → D
  pub exp : D → D
  pub log : D → D
  pub sqrt : D → D
  pub floor : D → D
  pub same_bits : D → D → Bool

pub record Node {ℓ} (D : Type ℓ) : Type ℓ where
  pub op : Op
  pub value : D
  pub variable : ℤ
  pub children : List ℕ

-- What `invalid_` says.
pub data Misuse : Type 0 where
  negative_columns : Misuse
  foreign_node : Op → ℤ → Misuse
  infinite_constant : Misuse
  column_outside : ℤ → Misuse
  infinite_exponent : Misuse

pub record ExpressionGraph {ℓ} (D : Type ℓ) : Type ℓ where
  pub num_variables : ℕ
  pub invalid : Option Misuse
  pub nodes : List (Node D)
  pub interned : List (Node D × ℕ)

-- `kNoExpr`
abbrev pub no_expr : ℤ
no_expr = negsuc 0

-- The number of a node that is in the graph.
abbrev pub index_of : ℤ → ℕ
index_of (pos n) = n
index_of (negsuc n) = 0

abbrev pub same_children : List ℕ → List ℕ → Bool
same_children [] [] = true
same_children [] (j ∷ js) = false
same_children (i ∷ is) [] = false
same_children (i ∷ is) (j ∷ js) = (i == j) && same_children is js

unfoldable pub mark_children : List ℕ → List Bool → List Bool
mark_children [] reached = reached
mark_children (c ∷ cs) reached = mark_children cs (set reached c true)

module _ {ℓ} {D : Type ℓ} where
  unfoldable pub mark_invalid : Misuse → ExpressionGraph D → ExpressionGraph D
  mark_invalid m g = elim g.invalid [ none ↦ record g { invalid = some m } | some _ ↦ g ]

  unfoldable pub expression_graph : ℤ → ExpressionGraph D
  expression_graph (pos n) = record { num_variables = n; invalid = none; nodes = []; interned = [] }
  expression_graph (negsuc n) = record {
    num_variables = 0;
    invalid = some negative_columns;
    nodes = [];
    interned = [];
  }

  unfoldable pub contains : ExpressionGraph D → ℤ → Bool
  contains g (pos n) = ltb n (length g.nodes)
  contains g (negsuc n) = false

  -- `usable` where it returns false, and the caller with it.
  unfoldable pub refuse : Op → ℤ → ExpressionGraph D → ℤ × ExpressionGraph D
  refuse op id g = (no_expr, if ℤ_eq id no_expr then g else mark_invalid (foreign_node op id) g)

module _ {ℓ} {D : Type ℓ} ⦃d : Double D⦄ where
  -- A node that stands for one that is not there.
  abbrev pub blank : Node D
  blank = record { op = constant_op; value = d.nought; variable = negsuc 0; children = [] }

  unfoldable pub node : ExpressionGraph D → ℕ → Node D
  node g n = get_or g.nodes n blank

  -- `is_constant` of a node in the graph: its value.
  unfoldable pub is_constant : ExpressionGraph D → ℕ → Option D
  is_constant g n = if same_op (node g n).op constant_op then some (node g n).value else none

  -- The indices below a bound, in descending order, each of which marks its children if it is marked.
  unfoldable pub walk_down : ExpressionGraph D → ℕ → List Bool → List Bool
  walk_down g zero reached = reached
  walk_down g (suc i) reached =
      walk_down g i
        (if get_or reached i false then mark_children (node g i).children reached else reached)

  unfoldable pub tape : ExpressionGraph D → ℤ → List ℕ
  tape g root =
      let n = suc (index_of root) in
      let reached = walk_down g n (set (replicate n false) (index_of root) true) in
      if contains g root then filter (λ i. get_or reached i false) (range 0 n) else []

  module _ (math : Arithmetic D) where
    unfoldable pub is_integer : D → Bool
    is_integer v = is_finite v && eq (math.floor v) v

    unfoldable pub same_node : Node D → Node D → Bool
    same_node m n =
        same_op m.op n.op
        && math.same_bits m.value n.value
        && ℤ_eq m.variable n.variable
        && same_children m.children n.children

    unfoldable pub find : Node D → List (Node D × ℕ) → Option ℕ
    find n [] = none
    find n ((m, i) ∷ ms) = let later = find n ms in if same_node m n then some i else later

    unfoldable pub intern : Node D → ExpressionGraph D → ℤ × ExpressionGraph D
    intern n g = elim (find n g.interned) [
      | some i ↦ (pos i, g)
      | none ↦ (
        pos (length g.nodes),
        record g { nodes = g.nodes ++ n ∷ []; interned = (n, length g.nodes) ∷ g.interned },
      )
    ]

    abbrev pub all_defined : ExpressionGraph D → List ℕ → Bool
    all_defined g [] = true
    all_defined g (k ∷ ks) =
        let n = node g k in
        let rest = all_defined g ks in
        elim n.op [
          | divide_op ↦ false
          | log_op ↦ false
          | sqrt_op ↦ false
          | power_op ↦ if not (is_integer n.value) || d.lt n.value d.nought then false else rest
          | _ ↦ rest
        ]

    unfoldable pub defined_everywhere : ExpressionGraph D → ℤ → Bool
    defined_everywhere g id = all_defined g (tape g id)
