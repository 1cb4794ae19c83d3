-- ===== src/Nlp/Intern.antt =====
-- src/nlp/expression.cpp: `intern` names a node that is there and adds one that is not.
use sih.Prelude.{
  ℕ, zero, suc, ◌<◌, ◌≡◌, ◌≢◌, ◌⊎◌, ◌↔◌, ◌∙◌, Bool, true, false, ◌&&◌, ◌==◌, ==_iff, none, some,
  List, [], ◌∷◌, ◌++◌, refl, sym, ap, subst, arith, inl, inr, length, length-append, get_or, All,
  Bool-cases, Option-cases,
}
use sih.Prelude.Double.{Double, is_finite}
use sih.Prelude.Int.{pos, ℤ_eq_iff}
use sih.Nlp.{
  Op, constant_op, variable_op, sum_op, product_op, negate_op, divide_op, power_op, exp_op, log_op,
  sqrt_op, op_code, same_op, Arithmetic, Node, ExpressionGraph, same_children, node, same_node,
  find, intern, blank,
}
use sih.Nlp.Build.{operation}
use sih.Nlp.Valid.{has_arity, IsNode, IsGraph, IsMade, contains-pos, keep-IsMade}

module _ {ℓ} {A : Type ℓ} (x d : A) where
  get_or-append_before :
      (xs : List A) (i : ℕ) → i < length xs → get_or (xs ++ x ∷ []) i d ≡ get_or xs i d
  get_or-append_before [] i h = absurd (omega arith)
  get_or-append_before (y ∷ xs) zero h = refl
  get_or-append_before (y ∷ xs) (suc i) h = get_or-append_before xs i (omega arith)

  get_or-append_end : (xs : List A) → get_or (xs ++ x ∷ []) (length xs) d ≡ x
  get_or-append_end [] = refl
  get_or-append_end (y ∷ xs) = get_or-append_end xs

-- Two doubles with the same bits are one, and zero is finite.
pub record IsArithmetic {ℓ} {D : Type ℓ} ⦃d : Double D⦄ (math : Arithmetic D) : Type ℓ where
  pub nought_finite : is_finite d.nought ≡ true
  pub same_bits_iff : (x y : D) → (math.same_bits x y ≡ true) ↔ (x ≡ y)

abbrev op_of : ℕ → Op
op_of n =
    get_or
      (constant_op ∷ variable_op ∷ sum_op ∷ product_op ∷ negate_op ∷ divide_op ∷ power_op ∷ exp_op
        ∷ log_op ∷ [])
      n sqrt_op

op_of-op_code : (a : Op) → op_of (op_code a) ≡ a
op_of-op_code constant_op = refl
op_of-op_code variable_op = refl
op_of-op_code sum_op = refl
op_of-op_code product_op = refl
op_of-op_code negate_op = refl
op_of-op_code divide_op = refl
op_of-op_code power_op = refl
op_of-op_code exp_op = refl
op_of-op_code log_op = refl
op_of-op_code sqrt_op = refl

same_op-eq : (a b : Op) → same_op a b ≡ true → a ≡ b
same_op-eq a b h =
    sym (op_of-op_code a) ∙ ap op_of ((==_iff (op_code a) (op_code b)).0 h) ∙ op_of-op_code b

pub same_op_refl : (a : Op) → same_op a a ≡ true
same_op_refl a = ground arith

same_children-eq : (is js : List ℕ) → same_children is js ≡ true → is ≡ js
same_children-eq [] [] h = refl
same_children-eq [] (j ∷ js) h = absurd (ground arith)
same_children-eq (i ∷ is) [] h = absurd (ground arith)
same_children-eq (i ∷ is) (j ∷ js) h = elim (Bool-cases (i == j)) [
  | inl t ↦ let e : i ≡ j = ground arith in rw (e, same_children-eq is js (rw t at h)) refl
  | inr f ↦ absurd (ground arith)
]

same_children_refl : (is : List ℕ) → same_children is is ≡ true
same_children_refl [] = refl
same_children_refl (i ∷ is) = let t : (i == i) ≡ true = ground arith in rw t (same_children_refl is)

module _ {ℓ} {D : Type ℓ} ⦃d : Double D⦄ (math : Arithmetic D) (bits : IsArithmetic math) where
  same_node-eq : (m n : Node D) → same_node math m n ≡ true → m ≡ n
  unfolding same_node
  same_node-eq m n h =
      let (a, b, c, e) = all_four _ _ _ _ h in
      let op = same_op-eq m.op n.op a in
      let value = (bits.same_bits_iff m.value n.value).0 b in
      let variable = (ℤ_eq_iff m.variable n.variable).0 c in
      let children = same_children-eq m.children n.children e in
      λ i. record { op = op i; value = value i; variable = variable i; children = children i }
    where
      all_four :
          (a b c e : Bool)
          → (a && b && c && e) ≡ true
          → (a ≡ true) × (b ≡ true) × (c ≡ true) × (e ≡ true)
      all_four a b c e h = ground arith

  same_node_refl : (n : Node D) → same_node math n n ≡ true
  unfolding same_node
  same_node_refl n =
      rw
        (
          same_op_refl n.op,
          (bits.same_bits_iff n.value n.value).1 refl,
          (ℤ_eq_iff n.variable n.variable).1 refl,
          same_children_refl n.children,
        )
        refl

  find-cons_other :
      (m n : Node D) (i : ℕ) (ms : List (Node D × ℕ))
      → m ≢ n
      → find math n ((m, i) ∷ ms) ≡ find math n ms
  unfolding find
  find-cons_other m n i ms h = elim (Bool-cases (same_node math m n)) [
    | inl t ↦ absurd (h (same_node-eq m n t))
    | inr f ↦ rw f refl
  ]

  find-cons_self :
      (n : Node D) (i : ℕ) (ms : List (Node D × ℕ)) → find math n ((n, i) ∷ ms) ≡ some i
  unfolding find
  find-cons_self n i ms = rw (same_node_refl n) refl

  intern-found :
      (n : Node D) (g : ExpressionGraph D) (i : ℕ)
      → find math n g.interned ≡ some i
      → intern math n g ≡ (pos i, g)
  unfolding intern
  intern-found n g i h = rw (h, intern) refl

  intern-new :
      (n : Node D) (g : ExpressionGraph D)
      → find math n g.interned ≡ none
      → intern math n g ≡ (
        pos (length g.nodes),
        record g { nodes = g.nodes ++ n ∷ []; interned = (n, length g.nodes) ∷ g.interned },
      )
  unfolding intern
  intern-new n g h = rw (h, intern) refl

  -- The graph with a node that was not there.
  abbrev grown : Node D → ExpressionGraph D → ExpressionGraph D
  grown n g = record g { nodes = g.nodes ++ n ∷ []; interned = (n, length g.nodes) ∷ g.interned }

  grown-before :
      (n : Node D) (g : ExpressionGraph D) (i : ℕ)
      → i < length g.nodes
      → node (grown n g) i ≡ node g i
  unfolding node
  grown-before n g i h = get_or-append_before n blank g.nodes i h

  grown-end : (n : Node D) (g : ExpressionGraph D) → node (grown n g) (length g.nodes) ≡ n
  unfolding node
  grown-end n g = get_or-append_end n blank g.nodes

  last_or_before :
      (g : ExpressionGraph D) (n : Node D) (i : ℕ)
      → i < length (grown n g).nodes
      → (i < length g.nodes) ⊎ (i ≡ length g.nodes)
  last_or_before g n i h = ground (arith, length-append g.nodes (n ∷ []))

  grown-IsGraph :
      (n : Node D) (g : ExpressionGraph D)
      → IsNode g.num_variables (length g.nodes) n
      → find math n g.interned ≡ none
      → IsGraph math g
      → IsGraph math (grown n g)
  grown-IsGraph n g w none_yet v = record {
    well_formed = λ i h. elim (last_or_before g n i h) [
      | inl l ↦ rw (grown-before n g i l) (v.well_formed i l)
      | inr e ↦ rw (e, grown-end n g) w
    ];
    named = λ i h. elim (last_or_before g n i h) [
      | inl l ↦
          let other : n ≢ node g i = λ e.
            let both : none ≡ some i =
              sym none_yet ∙ ap (λ m. find math m g.interned) e ∙ v.named i l in
            ground arith in
          rw (grown-before n g i l)
            (find-cons_other n (node g i) (length g.nodes) g.interned other ∙ v.named i l)
      | inr e ↦ rw (e, grown-end n g) (find-cons_self n (length g.nodes) g.interned)
    ];
    names = λ m i h. elim (Bool-cases (same_node math n m)) [
      | inl t ↦
          let same = same_node-eq n m t in
          let found : some (length g.nodes) ≡ some i =
            sym (find-cons_self n (length g.nodes) g.interned)
            ∙ ap (λ k. find math k ((n, length g.nodes) ∷ g.interned)) same
            ∙ h in
          let here : length g.nodes ≡ i = cc in
          (
            omega (arith, length-append g.nodes (n ∷ [])),
            ap (node (grown n g)) (sym here) ∙ grown-end n g ∙ same,
          )
      | inr f ↦
          let other : n ≢ m = λ e.
            let yes = ap (same_node math n) (sym e) ∙ same_node_refl n in
            let bad : true ≡ false = sym yes ∙ f in ground arith in
          let (l, e) =
            v.names m i (sym (find-cons_other n m (length g.nodes) g.interned other) ∙ h) in
          (omega (arith, length-append g.nodes (n ∷ [])), grown-before n g i l ∙ e)
    ];
  }

  -- A well-formed node is named, and added if it was not there.
  pub intern-IsMade :
      (n : Node D) (g : ExpressionGraph D)
      → IsNode g.num_variables (length g.nodes) n
      → IsGraph math g
      → IsMade math g (intern math n g)
  intern-IsMade n g w v = elim (Option-cases (find math n g.interned)) [
    | inr (i, e) ↦
        subst (IsMade math g) (sym (intern-found n g i e))
          (keep-IsMade math g (pos i) v (contains-pos g i (v.names n i e).0))
    | inl e ↦
        let size = length-append g.nodes (n ∷ []) in
        subst (IsMade math g) (sym (intern-new n g e)) (record {
          valid = grown-IsGraph n g w e v;
          extends = record {
            same_columns = refl;
            longer = omega (arith, size);
            same_nodes = grown-before n g;
            sticky = λ m h. h;
          };
          result = inl (contains-pos (grown n g) (length g.nodes) (omega (arith, size)));
        })
  ]

  -- A node of an operation on nodes that are there.
  pub operation-IsNode :
      (columns bound : ℕ) (op : Op) (value : D) (children : List ℕ)
      → All (λ c. c < bound) children
      → has_arity op (length children) ≡ true
      → is_finite value ≡ true
      → same_op op variable_op ≡ false
      → IsNode columns bound (operation math op value children)
  unfolding operation
  operation-IsNode columns bound op value children h a f o = record {
    children_before = h;
    arity = a;
    finite = f;
    column = λ e.
        let yes : same_op op variable_op ≡ true = ap (λ p. same_op p variable_op) e in
        let bad : true ≡ false = sym yes ∙ o in absurd (ground arith);
  }
