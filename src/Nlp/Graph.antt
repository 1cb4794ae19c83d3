-- ===== src/Nlp/Graph.antt =====
-- src/nlp/expression.cpp: every construction keeps the graph well formed.
use sih.Prelude.{
  ℕ, ◌<◌, ◌≡◌, Bool, true, false, not, ◌||◌, Option, none, some, List, [], ◌∷◌, if◌then◌else◌, refl,
  arith, inl, inr, ltb, length, All, All-append, All-impl, Bool-cases, Option-cases,
}
use sih.Prelude.Double.{Double, is_finite}
use sih.Prelude.Int.{ℤ, pos, negsuc, leb_ℤ, ltb_ℤ}
use sih.Prelude.Outcome.{Outcome, failed, done}
use sih.Prelude.Sort.{sort, length-sort, Mem_of-sort, All-of_Mem, All-Mem}
use sih.Nlp.{
  Op, constant_op, variable_op, sum_op, same_op, Arithmetic, infinite_constant, column_outside,
  ExpressionGraph, no_expr, index_of, mark_invalid, contains, node, is_constant, intern,
}
use sih.Nlp.Build.{Made, operation, constant, variable, take_term, take_terms, flatten, sum_of}
use sih.Nlp.Valid.{
  has_arity, IsGraph, IsHonest, IsMade, contains-index, contains-pos, keep-IsMade, mark-IsMade,
  refuse-IsMade,
}
use sih.Nlp.Intern.{IsArithmetic, intern-IsMade, operation-IsNode}

-- Flattening gives nodes that are there, or refuses.
pub data Flattened {ℓ} {D : Type ℓ} ⦃d : Double D⦄ (math : Arithmetic D) (g : ExpressionGraph D)
    (o : Outcome (Made D) (List ℕ × D)) : Type ℓ where
  refused : (made : Made D) → o ≡ failed made → IsMade math g made → Flattened math g o
  gathered :
      (taken : List ℕ × D)
      → o ≡ done taken
      → All (λ c. c < length g.nodes) taken.0
      → Flattened math g o

module _ {ℓ} {D : Type ℓ} ⦃d : Double D⦄ (math : Arithmetic D) (law : IsArithmetic math)
    (g : ExpressionGraph D) (v : IsGraph math g) where
  pub if-IsMade :
      (b : Bool) (x y : Made D)
      → (b ≡ true → IsMade math g x)
      → (b ≡ false → IsMade math g y)
      → IsMade math g (if b then x else y)
  if-IsMade true x y h k = h refl
  if-IsMade false x y h k = k refl

  pub option-IsMade {κ} :
      {A : Type κ} (o : Option A) (x : Made D) (f : A → Made D)
      → (o ≡ none → IsMade math g x)
      → ((a : A) → o ≡ some a → IsMade math g (f a))
      → IsMade math g (elim o [ none ↦ x | some a ↦ f a ])
  option-IsMade none x f h k = h refl
  option-IsMade (some a) x f h k = k a refl

  -- An operation on nodes that are there.
  pub operation-IsMade :
      (op : Op) (children : List ℕ)
      → All (λ c. c < length g.nodes) children
      → has_arity op (length children) ≡ true
      → same_op op variable_op ≡ false
      → IsMade math g (intern math (operation math op d.nought children) g)
  operation-IsMade op children h a o =
      intern-IsMade math law _ g
        (operation-IsNode math law g.num_variables (length g.nodes) op d.nought children h a
          law.nought_finite o)
        v

  pub constant-IsMade : (value : D) → IsMade math g (constant math value g)
  unfolding constant
  constant-IsMade value =
      if-IsMade (not (is_finite value)) (no_expr, mark_invalid infinite_constant g) _
        (λ t. mark-IsMade math g infinite_constant v)
        (λ f.
          intern-IsMade math law _ g
            (operation-IsNode math law g.num_variables (length g.nodes) constant_op value [] tt refl
              (ground arith) refl)
            v)

  inside :
      (k : ℕ)
      → (ltb_ℤ (pos k) (pos 0) || leb_ℤ (pos g.num_variables) (pos k)) ≡ false
      → k < g.num_variables
  inside k h = ground arith

  pub variable-IsMade : (column : ℤ) → IsMade math g (variable math column g)
  unfolding variable
  variable-IsMade (pos k) =
      if-IsMade (ltb_ℤ (pos k) (pos 0) || leb_ℤ (pos g.num_variables) (pos k))
        (no_expr, mark_invalid (column_outside (pos k)) g) _
        (λ t. mark-IsMade math g (column_outside (pos k)) v)
        (λ f.
          intern-IsMade math law _ g
            (record {
              children_before = tt;
              arity = refl;
              finite = law.nought_finite;
              column = λ _. (k, refl, inside k f);
            })
            v)
  variable-IsMade (negsuc k) =
      let outside : ltb_ℤ (negsuc k) (pos 0) ≡ true = ground arith in
      rw outside (mark-IsMade math g (column_outside (negsuc k)) v)

  pub sum_of-IsMade :
      (flat : List ℕ) → All (λ c. c < length g.nodes) flat → IsMade math g (sum_of math flat g)
  unfolding sum_of
  sum_of-IsMade [] h = constant-IsMade d.nought
  sum_of-IsMade (t ∷ []) h = keep-IsMade math g (pos t) v (contains-pos g t h.0)
  sum_of-IsMade (t ∷ u ∷ ts) h =
      let flat = t ∷ u ∷ ts in
      operation-IsMade sum_op (sort ltb flat)
        (All-of_Mem _ (sort ltb flat) (λ c m. All-Mem _ flat c h (Mem_of-sort ltb flat c m)))
        (let size = length-sort ltb flat in rw size (ground arith)) refl

  abbrev AreThere : List ℕ → Type 0
  AreThere = All (λ c. c < length g.nodes)

  pub children-AreThere : (n : ℕ) → n < length g.nodes → AreThere (node g n).children
  children-AreThere n h =
      All-impl _ _ (node g n).children (λ c l. omega arith) (v.well_formed n h).children_before

  take_term-AreThere :
      (t : ℕ) (taken : List ℕ × D)
      → t < length g.nodes
      → AreThere taken.0
      → AreThere (take_term math g t taken).0
  unfolding take_term
  take_term-AreThere t (flat, part) h k = elim (Option-cases (is_constant g t)) [
    | inl e ↦ rw (e, take_term) (All-append _ flat (t ∷ []) k (h, tt))
    | inr (c, e) ↦ rw (e, take_term) k
  ]

  take_terms-AreThere :
      (ts : List ℕ) (taken : List ℕ × D)
      → AreThere ts
      → AreThere taken.0
      → AreThere (take_terms math g ts taken).0
  unfolding take_terms
  take_terms-AreThere [] taken h k = k
  take_terms-AreThere (t ∷ ts) taken h k =
      take_terms-AreThere ts (take_term math g t taken) h.1 (take_term-AreThere t taken h.0 k)

  pub flatten-Flattened :
      (terms : List ℤ) (taken : List ℕ × D)
      → All (IsHonest g) terms
      → AreThere taken.0
      → Flattened math g (flatten math g terms taken)
  unfolding flatten
  flatten-Flattened [] taken h k = Flattened.gathered taken refl k
  flatten-Flattened (t ∷ ts) taken h k = elim (Bool-cases (contains g t)) [
    | inr f ↦ rw (f, flatten) (Flattened.refused _ refl (refuse-IsMade math sum_op g t v h.0))
    | inl c ↦ elim (Bool-cases (same_op (node g (index_of t)).op sum_op)) [
      | inl s ↦
          rw (c, s, flatten)
            (flatten-Flattened ts (take_terms math g (node g (index_of t)).children taken) h.1 (
              take_terms-AreThere (node g (index_of t)).children taken
                (children-AreThere (index_of t) (contains-index g t c)) k))
      | inr s ↦
          rw (c, s, flatten)
            (flatten-Flattened ts (take_term math g (index_of t) taken) h.1
              (take_term-AreThere (index_of t) taken (contains-index g t c) k))
    ]
  ]
