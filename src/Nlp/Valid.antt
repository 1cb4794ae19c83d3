-- ===== src/Nlp/Valid.antt =====
-- src/nlp/expression.cpp: what is true of every expression graph, and of the node that a construction
-- gives; the cases that the constructions share.
use sih.Prelude.{
  ℕ, ◌≤◌, ◌<◌, ◌≡◌, ◌≢◌, ◌⊎◌, ◌∙◌, Bool, true, ◌==◌, Option, none, some, refl, sym, ap, subst,
  arith, inl, inr, leb, lt→ltb, ltb→lt, length, All, Bool-cases, Option-cases,
}
use sih.Prelude.Double.{Double, is_finite}
use sih.Prelude.Int.{ℤ, pos, negsuc, ℤ_eq, ℤ_eq_iff}
use sih.Nlp.{
  Op, constant_op, variable_op, sum_op, product_op, divide_op, Arithmetic, Node, Misuse,
  foreign_node, ExpressionGraph, no_expr, index_of, mark_invalid, contains, refuse, node, find,
}
use sih.Nlp.Build.{Made}

-- The number of children that an operation takes.
abbrev pub has_arity : Op → ℕ → Bool
has_arity constant_op n = n == 0
has_arity variable_op n = n == 0
has_arity sum_op n = leb 2 n
has_arity product_op n = n == 2
has_arity divide_op n = n == 2
has_arity _ n = n == 1

some-none : (m : Misuse) → some m ≢ none
some-none m h = ground arith

none-some : (m : Misuse) → none ≢ some m
none-some m h = ground arith

module _ {ℓ} {D : Type ℓ} ⦃d : Double D⦄ where
  -- A node over `columns` columns whose children come before it.
  pub record IsNode (columns bound : ℕ) (n : Node D) : Type ℓ where
    pub children_before : All (λ c. c < bound) n.children
    pub arity : has_arity n.op (length n.children) ≡ true
    pub finite : is_finite n.value ≡ true
    pub column : n.op ≡ variable_op → (k : ℕ) × (n.variable ≡ pos k) × (k < columns)

  module _ (math : Arithmetic D) where
    -- Every node is well formed, and the map names the nodes.
    pub record IsGraph (g : ExpressionGraph D) : Type ℓ where
      pub well_formed : (i : ℕ) → i < length g.nodes → IsNode g.num_variables i (node g i)
      pub named : (i : ℕ) → i < length g.nodes → find math (node g i) g.interned ≡ some i
      pub names :
          (n : Node D) (i : ℕ)
          → find math n g.interned ≡ some i
          → (i < length g.nodes) × (node g i ≡ n)

    -- No node is in the graph twice.
    pub IsGraph-unique :
        (g : ExpressionGraph D) (i j : ℕ)
        → IsGraph g
        → i < length g.nodes
        → j < length g.nodes
        → node g i ≡ node g j
        → i ≡ j
    IsGraph-unique g i j v h k e =
        let found : some i ≡ some j =
          sym (v.named i h) ∙ ap (λ n. find math n g.interned) e ∙ v.named j k in
        cc

  abbrev pub IsMarked : ExpressionGraph D → Type 0
  IsMarked g = g.invalid ≢ none

  -- The name of a failure comes after a failure.
  abbrev pub IsHonest : ExpressionGraph D → ℤ → Type 0
  IsHonest g a = a ≡ no_expr → IsMarked g

  -- A graph that has grown: its nodes are as they were, and so is the first misuse.
  pub record Extends (g h : ExpressionGraph D) : Type ℓ where
    pub same_columns : h.num_variables ≡ g.num_variables
    pub longer : length g.nodes ≤ length h.nodes
    pub same_nodes : (i : ℕ) → i < length g.nodes → node h i ≡ node g i
    pub sticky : (m : Misuse) → g.invalid ≡ some m → h.invalid ≡ some m

  pub record IsMade (math : Arithmetic D) (g : ExpressionGraph D) (made : Made D) : Type ℓ where
    pub valid : IsGraph math made.1
    pub extends : Extends g made.1
    pub result : (contains made.1 made.0 ≡ true) ⊎ ((made.0 ≡ no_expr) × IsMarked made.1)

  Extends-refl : (g : ExpressionGraph D) → Extends g g
  Extends-refl g = record {
    same_columns = refl;
    longer = omega arith;
    same_nodes = λ i h. refl;
    sticky = λ m h. h;
  }

  pub Extends-trans : (g h k : ExpressionGraph D) → Extends g h → Extends h k → Extends g k
  Extends-trans g h k e f = record {
    same_columns = f.same_columns ∙ e.same_columns;
    longer = omega (arith, e.longer, f.longer);
    same_nodes = λ i l. f.same_nodes i (omega (arith, e.longer)) ∙ e.same_nodes i l;
    sticky = λ m l. f.sticky m (e.sticky m l);
  }

  pub contains-index :
      (g : ExpressionGraph D) (a : ℤ) → contains g a ≡ true → index_of a < length g.nodes
  unfolding contains
  contains-index g (pos n) h = ltb→lt n (length g.nodes) h
  contains-index g (negsuc n) h = absurd (ground arith)

  pub contains-pos :
      (g : ExpressionGraph D) (n : ℕ) → n < length g.nodes → contains g (pos n) ≡ true
  unfolding contains
  contains-pos g n h = lt→ltb n (length g.nodes) h

  mark_invalid-fresh :
      (m : Misuse) (g : ExpressionGraph D)
      → g.invalid ≡ none
      → mark_invalid m g ≡ record g { invalid = some m }
  unfolding mark_invalid
  mark_invalid-fresh m g e =
      ap
        (λ (o : Option Misuse). elim o as (λ _. ExpressionGraph D) [
          | none ↦ record g { invalid = some m }
          | some _ ↦ g
        ])
        e

  mark_invalid-old :
      (m w : Misuse) (g : ExpressionGraph D) → g.invalid ≡ some w → mark_invalid m g ≡ g
  unfolding mark_invalid
  mark_invalid-old m w g e =
      ap
        (λ (o : Option Misuse). elim o as (λ _. ExpressionGraph D) [
          | none ↦ record g { invalid = some m }
          | some _ ↦ g
        ])
        e

  module _ (math : Arithmetic D) where
    pub keep-IsMade :
        (g : ExpressionGraph D) (a : ℤ)
        → IsGraph math g
        → contains g a ≡ true
        → IsMade math g (a, g)
    keep-IsMade g a v h = record { valid = v; extends = Extends-refl g; result = inl h }

    pub then-IsMade :
        (g h : ExpressionGraph D) (made : Made D)
        → Extends g h
        → IsMade math h made
        → IsMade math g made
    then-IsMade g h made e m = record {
      valid = m.valid;
      extends = Extends-trans g h made.1 e m.extends;
      result = m.result;
    }

    -- A misuse that is marked leaves the nodes.
    pub mark-IsMade :
        (g : ExpressionGraph D) (m : Misuse)
        → IsGraph math g
        → IsMade math g (no_expr, mark_invalid m g)
    unfolding node
    mark-IsMade g m v = elim (Option-cases g.invalid) [
      | inl e ↦
          subst (λ h. IsMade math g (no_expr, h)) (sym (mark_invalid-fresh m g e))
            (record {
              valid = record { well_formed = v.well_formed; named = v.named; names = v.names };
              extends = record {
                same_columns = refl;
                longer = omega arith;
                same_nodes = λ i h. refl;
                sticky = λ w h. absurd (none-some w (sym e ∙ h));
              };
              result = inr (refl, λ h. some-none m h);
            })
      | inr (w, e) ↦
          subst (λ h. IsMade math g (no_expr, h)) (sym (mark_invalid-old m w g e))
            (record {
              valid = v;
              extends = Extends-refl g;
              result = inr (refl, λ h. some-none w (sym e ∙ h));
            })
    ]

    pub refuse-IsMade :
        (op : Op) (g : ExpressionGraph D) (a : ℤ)
        → IsGraph math g
        → IsHonest g a
        → IsMade math g (refuse op a g)
    unfolding refuse
    refuse-IsMade op g a v h = elim (Bool-cases (ℤ_eq a no_expr)) [
      | inl t ↦
          let marked = h ((ℤ_eq_iff a no_expr).0 t) in
          rw t (record { valid = v; extends = Extends-refl g; result = inr (refl, marked) })
      | inr f ↦ rw f (mark-IsMade g (foreign_node op a) v)
    ]
