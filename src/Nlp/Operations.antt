-- ===== src/Nlp/Operations.antt =====
-- src/nlp/expression.cpp: the constructions on the nodes of a well-formed graph.
use sih.Prelude.{
  ℕ, ◌<◌, ◌≡◌, ◌∙◌, true, false, none, some, List, [], ◌∷◌, ◌++◌, if◌then◌else◌, refl, sym, ap,
  subst, arith, inl, inr, length, All, All-append, All-impl, Bool-cases, Option-cases,
}
use sih.Prelude.Double.{Double, eq}
use sih.Prelude.Int.{ℤ, pos, ℤ_eq, ℤ_eq_iff}
use sih.Nlp.{
  negate_op, same_op, Arithmetic, ExpressionGraph, no_expr, index_of, contains, node, is_constant,
  intern,
}
use sih.Nlp.Build.{Made, operation, constant, sum_of, sum, negate, subtract}
use sih.Nlp.Valid.{
  IsGraph, IsMarked, IsHonest, Extends, IsMade, contains-index, contains-pos, keep-IsMade,
  then-IsMade, refuse-IsMade,
}
use sih.Nlp.Intern.{IsArithmetic}
use sih.Nlp.Graph.{
  Flattened, if-IsMade, option-IsMade, operation-IsMade, constant-IsMade, sum_of-IsMade,
  children-AreThere, flatten-Flattened,
}

module _ {ℓ} {D : Type ℓ} ⦃d : Double D⦄ where
  still-IsMarked : (g h : ExpressionGraph D) → Extends g h → IsMarked g → IsMarked h
  still-IsMarked g h e k = elim (Option-cases g.invalid) [
    | inl n ↦ absurd (k n)
    | inr (m, n) ↦
        λ none_there. let both : some m ≡ none = sym (e.sticky m n) ∙ none_there in ground arith
  ]

  still-IsHonest : (g h : ExpressionGraph D) (a : ℤ) → Extends g h → IsHonest g a → IsHonest h a
  still-IsHonest g h a e k none_there = still-IsMarked g h e (k none_there)

  pub there-IsHonest : (g : ExpressionGraph D) (a : ℤ) → contains g a ≡ true → IsHonest g a
  unfolding contains
  there-IsHonest g a h e =
      let bad : false ≡ true = ap (contains g) (sym e) ∙ h in absurd (ground arith)

  made-IsHonest :
      (math : Arithmetic D) (g : ExpressionGraph D) (made : Made D)
      → IsMade math g made
      → IsHonest made.1 made.0
  made-IsHonest math g made m e = elim m.result [
    | inl h ↦ there-IsHonest made.1 made.0 h e
    | inr (_, k) ↦ k
  ]

module _ {ℓ} {D : Type ℓ} ⦃d : Double D⦄ (math : Arithmetic D) (law : IsArithmetic math) where
  failed-IsMade :
      (g : ExpressionGraph D) (made : Made D)
      → ℤ_eq made.0 no_expr ≡ true
      → IsMade math g made
      → IsMade math g (no_expr, made.1)
  failed-IsMade g made t m =
      subst (λ a. IsMade math g (a, made.1)) ((ℤ_eq_iff made.0 no_expr).0 t) m

  -- The folded constant joins the terms.
  folded-IsMade :
      (g : ExpressionGraph D) (flat : List ℕ) (made : Made D)
      → All (λ c. c < length g.nodes) flat
      → ℤ_eq made.0 no_expr ≡ false
      → IsMade math g made
      → IsMade math g (sum_of math (flat ++ index_of made.0 ∷ []) made.1)
  folded-IsMade g flat (id, h) k t m = elim m.result [
    | inr (e, _) ↦
        let bad : ℤ_eq id no_expr ≡ true = (ℤ_eq_iff id no_expr).1 e in absurd (ground arith)
    | inl c ↦
        let more =
          All-impl _ (λ i. i < length h.nodes) flat (λ i l. omega (arith, m.extends.longer)) k in
        then-IsMade math g h _ m.extends (
          sum_of-IsMade math law h m.valid (flat ++ index_of id ∷ [])
            (All-append _ flat (index_of id ∷ []) more (contains-index h id c, tt)))
  ]

  pub sum-IsMade :
      (g : ExpressionGraph D) (terms : List ℤ)
      → IsGraph math g
      → All (IsHonest g) terms
      → IsMade math g (sum math terms g)
  unfolding sum
  sum-IsMade g terms v h = elim (flatten-Flattened math law g v terms ([], d.nought) h tt) [
    | Flattened.refused made e m ↦ rw (e, sum) m
    | Flattened.gathered (flat, part) e k ↦
        let c = constant-IsMade math law g v part in
        rw (e, sum)
          (if-IsMade math law g v (eq part d.nought) (sum_of math flat g) _
            (λ t. sum_of-IsMade math law g v flat k)
            (λ f.
              if-IsMade math law g v (ℤ_eq (constant math part g).0 no_expr)
                (no_expr, (constant math part g).1) _
                (λ t. failed-IsMade g (constant math part g) t c)
                (λ t. folded-IsMade g flat (constant math part g) k t c)))
  ]

  pub negate-IsMade :
      (g : ExpressionGraph D) (a : ℤ)
      → IsGraph math g
      → IsHonest g a
      → IsMade math g (negate math a g)
  unfolding negate
  negate-IsMade g a v h = elim (Bool-cases (contains g a)) [
    | inr f ↦ rw (f, negate) (refuse-IsMade math negate_op g a v h)
    | inl c ↦
        let n = index_of a in
        let here = contains-index g a c in
        let fresh = operation-IsMade math law g v negate_op (n ∷ []) (here, tt) refl refl in
        rw (c, negate)
          (option-IsMade math law g v (is_constant g n) _ (λ x. constant math (d.neg x) g)
            (λ e. inner (node g n).children (children-AreThere math law g v n here) fresh)
            (λ x e. constant-IsMade math law g v (d.neg x)))
  ]
    where
      inner :
          (cs : List ℕ)
          → All (λ k. k < length g.nodes) cs
          → IsMade math g (intern math (operation math negate_op d.nought (index_of a ∷ [])) g)
          → IsMade math g (elim cs [
            | [] ↦ intern math (operation math negate_op d.nought (index_of a ∷ [])) g
            | k ∷ _ ↦
                if same_op (node g (index_of a)).op negate_op
                then (pos k, g)
                else intern math (operation math negate_op d.nought (index_of a ∷ [])) g
          ])
      inner [] l m = m
      inner (k ∷ cs) l m =
          if-IsMade math law g v (same_op (node g (index_of a)).op negate_op) (pos k, g) _
            (λ t. keep-IsMade math g (pos k) v (contains-pos g k l.0)) (λ t. m)

  pub subtract-IsMade :
      (g : ExpressionGraph D) (a b : ℤ)
      → IsGraph math g
      → IsHonest g a
      → IsHonest g b
      → IsMade math g (subtract math a b g)
  unfolding subtract
  subtract-IsMade g a b v h k =
      let m = negate-IsMade g b v k in
      let minus = negate math b g in
      then-IsMade math g minus.1 _ m.extends (
        sum-IsMade minus.1 (a ∷ minus.0 ∷ []) m.valid
          (still-IsHonest g minus.1 a m.extends h, (made-IsHonest math g minus m, tt)))
