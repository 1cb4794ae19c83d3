-- ===== src/Sparse/Vector/Compress.antt =====
-- `compress` of a sparse vector: a loop over the pattern.
use sih.Prelude.{
  and-false, ℕ, ◌<◌, ◌≡◌, ◌∙◌, Bool, true, false, not, ◌&&◌, List, [], ◌∷◌, refl, sym, ap, subst,
  arith, ◌==◌, if◌then◌else◌, length, length-set, get_or, get_or-set, set, filter, All, All-impl,
  All-filter, Pairwise, inl, inr, Bool-cases,
}
use sih.Prelude.Double.{Double}
use sih.Sparse.Vector.{SparseVector, unmark, is_kept, compress_from, compress}
use sih.Sparse.Vector.Replay.{IsVector, contains, held, effect, Operation, Refines}

Pairwise-filter {ℓ κ} :
    {A : Type ℓ} (R : A → A → Type κ) (p : A → Bool) (xs : List A)
    → Pairwise R xs
    → Pairwise R (filter p xs)
Pairwise-filter R p [] h = tt
Pairwise-filter R p (x ∷ xs) h = elim (Bool-cases (p x)) [
  | inl t ↦ rw (t, filter) (All-filter (R x) p xs h.0, Pairwise-filter R p xs h.1)
  | inr f ↦ rw (f, filter) (Pairwise-filter R p xs h.1)
]

contains-filter :
    (p : ℕ → Bool) (j : ℕ) (is : List ℕ) → contains j (filter p is) ≡ (contains j is && p j)
contains-filter p j [] = refl
contains-filter p j (i ∷ is) = elim (Bool-cases (i == j)) [
  | inl q ↦
      let e : i ≡ j = ground arith in
      elim (Bool-cases (p j)) [
        | inl t ↦ let s : p i ≡ true = rw e t in rw (s, filter, q, t) refl
        | inr t ↦
            let s : p i ≡ false = rw e t in
            rw (s, filter, q, contains-filter p j is, t) (and-false (contains j is))
      ]
  | inr q ↦ elim (Bool-cases (p i)) [
    | inl t ↦ rw (t, filter, q) (contains-filter p j is)
    | inr t ↦ rw (t, filter, q) (contains-filter p j is)
  ]
]

module _ {ℓ} {A : Type ℓ} (p : A → Bool) where
  filter-yes : (x : A) (xs : List A) → p x ≡ true → filter p (x ∷ xs) ≡ x ∷ filter p xs
  filter-yes x xs h = rw (h, filter) refl

  filter-no : (x : A) (xs : List A) → p x ≡ false → filter p (x ∷ xs) ≡ filter p xs
  filter-no x xs h = rw (h, filter) refl

settle {ℓ} :
    {A : Type ℓ} (b g h : Bool) (x y : A)
    → (b ≡ true → h ≡ true)
    → (b ≡ false → g ≡ h)
    → (if g then x else if b then x else y) ≡ (if h then x else y)
settle true true h x y e f = rw (e refl) refl
settle true false h x y e f = rw (e refl) refl
settle false g h x y e f = rw (f refl) refl

mark : (c k : Bool) → (if c && not k then false else c) ≡ (c && k)
mark true true = refl
mark true false = refl
mark false k = refl

filter-eq : (p q : ℕ → Bool) (is : List ℕ) → All (λ i. p i ≡ q i) is → filter p is ≡ filter q is
filter-eq p q [] h = refl
filter-eq p q (i ∷ is) h = elim (Bool-cases (q i)) [
  | inl t ↦ rw (h.0, t, filter) (ap (λ l. i ∷ l) (filter-eq p q is h.1))
  | inr f ↦ rw (h.0, f, filter) (filter-eq p q is h.1)
]

module _ {ℓ} {D : Type ℓ} ⦃d : Double D⦄ where
  -- An index of the pattern whose value is not kept.
  abbrev gone : D → List ℕ → SparseVector D → ℕ → Bool
  gone tol is v j = contains j is && not (is_kept tol (get_or v.dense j d.nought))

  record Compressed (tol : D) (is : List ℕ) (v q : SparseVector D) : Type ℓ where
    same_dimension : q.dimension ≡ v.dimension
    dense_size : length q.dense ≡ length v.dense
    marked_size : length q.marked ≡ length v.marked
    pattern_eq : q.pattern ≡ filter (λ i. is_kept tol (get_or v.dense i d.nought)) is
    marked_eq :
        (j : ℕ)
        → get_or q.marked j false ≡ (if gone tol is v j then false else get_or v.marked j false)
    dense_eq :
        (j : ℕ)
        → get_or q.dense j d.nought
          ≡ (if gone tol is v j then d.nought else get_or v.dense j d.nought)

  compress_from-keep :
      (tol : D) (i : ℕ) (is : List ℕ) (v : SparseVector D)
      → is_kept tol (get_or v.dense i d.nought) ≡ true
      → let rest = compress_from tol is v in
        compress_from tol (i ∷ is) v ≡ record rest { pattern = i ∷ rest.pattern }
  unfolding compress_from
  compress_from-keep tol i is v t = rw t refl

  compress_from-drop :
      (tol : D) (i : ℕ) (is : List ℕ) (v : SparseVector D)
      → is_kept tol (get_or v.dense i d.nought) ≡ false
      → compress_from tol (i ∷ is) v ≡ compress_from tol is (unmark i v)
  unfolding compress_from
  compress_from-drop tol i is v f = rw f refl

  -- A kept index in front.
  keep-Compressed :
      (tol : D) (i : ℕ) (is : List ℕ) (v q : SparseVector D)
      → is_kept tol (get_or v.dense i d.nought) ≡ true
      → Compressed tol is v q
      → Compressed tol (i ∷ is) v (record q { pattern = i ∷ q.pattern })
  keep-Compressed tol i is v q t r =
      let same : (j : ℕ) → gone tol is v j ≡ gone tol (i ∷ is) v j = λ j.
        elim (Bool-cases (i == j)) [
          | inl e ↦
              let there : is_kept tol (get_or v.dense j d.nought) ≡ true =
                ap (λ k. is_kept tol (get_or v.dense k d.nought)) (ground arith) ∙ t in
              rw (e, there) (and-false (contains j is))
          | inr e ↦ rw e refl
        ] in
      record {
        same_dimension = r.same_dimension;
        dense_size = r.dense_size;
        marked_size = r.marked_size;
        pattern_eq = ap (λ l. i ∷ l) r.pattern_eq ∙ sym (filter-yes _ i is t);
        marked_eq =
            λ j. r.marked_eq j ∙ ap (λ b. if b then false else get_or v.marked j false) (same j);
        dense_eq = λ j.
            r.dense_eq j ∙ ap (λ b. if b then d.nought else get_or v.dense j d.nought) (same j);
      }

  -- A dropped index in front.
  drop-Compressed :
      (tol : D) (i : ℕ) (is : List ℕ) (v q : SparseVector D)
      → (i < length v.dense) × (i < length v.marked)
      → All (λ j. (i == j) ≡ false) is
      → is_kept tol (get_or v.dense i d.nought) ≡ false
      → Compressed tol is (unmark i v) q
      → Compressed tol (i ∷ is) v q
  unfolding unmark
  drop-Compressed tol i is v q (h, k) others f r =
      let wiped : (j : ℕ)
          → get_or (set v.dense i d.nought) j d.nought
            ≡ (if i == j then d.nought else get_or v.dense j d.nought) =
        λ j. get_or-set v.dense i j d.nought d.nought h in
      let untouched : (j : ℕ)
          → (i == j) ≡ false
          → get_or (set v.dense i d.nought) j d.nought ≡ get_or v.dense j d.nought =
        λ j e. wiped j ∙ ap (λ b. if b then d.nought else get_or v.dense j d.nought) e in
      let away : (j : ℕ) → (i == j) ≡ false → gone tol is (unmark i v) j ≡ gone tol (i ∷ is) v j =
        λ j e. rw (wiped j, e) refl in
      let here : (j : ℕ) → (i == j) ≡ true → gone tol (i ∷ is) v j ≡ true = λ j e.
        let there : is_kept tol (get_or v.dense j d.nought) ≡ false =
          ap (λ k. is_kept tol (get_or v.dense k d.nought)) (ground arith) ∙ f in
        rw (e, there) refl in
      record {
        same_dimension = r.same_dimension;
        dense_size = r.dense_size ∙ length-set v.dense i d.nought;
        marked_size = r.marked_size ∙ length-set v.marked i false;
        pattern_eq =
            r.pattern_eq
            ∙ filter-eq (λ j. is_kept tol (get_or (set v.dense i d.nought) j d.nought))
                (λ j. is_kept tol (get_or v.dense j d.nought)) is
                (All-impl _ _ is (λ j e. ap (is_kept tol) (untouched j e)) others)
            ∙ sym (filter-no _ i is f);
        marked_eq = λ j.
            r.marked_eq j
            ∙ ap (λ b. if gone tol is (unmark i v) j then false else b)
                (get_or-set v.marked i j false false k)
            ∙ settle (i == j) _ _ false (get_or v.marked j false) (here j) (away j);
        dense_eq = λ j.
            r.dense_eq j
            ∙ ap (λ x. if gone tol is (unmark i v) j then d.nought else x) (wiped j)
            ∙ settle (i == j) _ _ d.nought (get_or v.dense j d.nought) (here j) (away j);
      }

  compress_from-Compressed :
      (tol : D) (is : List ℕ) (v : SparseVector D)
      → All (λ i. (i < length v.dense) × (i < length v.marked)) is
      → Pairwise (λ i j. (i == j) ≡ false) is
      → Compressed tol is v (compress_from tol is v)
  unfolding compress_from unmark
  compress_from-Compressed tol [] v h p = record {
    same_dimension = refl;
    dense_size = refl;
    marked_size = refl;
    pattern_eq = refl;
    marked_eq = λ j. refl;
    dense_eq = λ j. refl;
  }
  compress_from-Compressed tol (i ∷ is) v h p =
      elim (Bool-cases (is_kept tol (get_or v.dense i d.nought))) [
        | inl t ↦
            subst (Compressed tol (i ∷ is) v) (sym (compress_from-keep tol i is v t))
              (keep-Compressed tol i is v _ t (compress_from-Compressed tol is v h.1 p.1))
        | inr f ↦
            let within =
              All-impl _
                (λ j. (j < length (set v.dense i d.nought)) × (j < length (set v.marked i false)))
                is
                (λ j b. (
                  omega (arith, b.0, length-set v.dense i d.nought),
                  omega (arith, b.1, length-set v.marked i false),
                ))
                h.1 in
            subst (Compressed tol (i ∷ is) v) (sym (compress_from-drop tol i is v f)) (
              drop-Compressed tol i is v _ h.0 p.0 f
                (compress_from-Compressed tol is (unmark i v) within p.1))
      ]

  pub compress-Refines :
      (tol : D) (v : SparseVector D)
      → IsVector v
      → Refines v (effect v.dimension (Operation.compressing tol) (held v)) (compress tol v)
  unfolding compress
  compress-Refines tol v w =
      let r =
        compress_from-Compressed tol v.pattern v
          (All-impl _ _ v.pattern
            (λ i h. (omega (arith, w.dense_size), omega (arith, w.marked_size))) w.within)
          w.distinct in
      let p : ℕ → Bool = λ i. is_kept tol (get_or v.dense i d.nought) in
      record {
        valid = record {
          dense_size = r.dense_size ∙ w.dense_size ∙ sym r.same_dimension;
          marked_size = r.marked_size ∙ w.marked_size ∙ sym r.same_dimension;
          within = rw (r.pattern_eq, r.same_dimension) (All-filter _ p v.pattern w.within);
          marks = λ j.
              r.marked_eq j
              ∙ rw (w.marks j) (mark (contains j v.pattern) (p j))
              ∙ sym (contains-filter p j v.pattern)
              ∙ ap (contains j) (sym r.pattern_eq);
          distinct = rw r.pattern_eq (Pairwise-filter _ p v.pattern w.distinct);
        };
        same_dimension = r.same_dimension;
        contents = λ j.
            rw (r.marked_eq j, r.dense_eq j, w.marks j)
              (elim (Bool-cases (contains j v.pattern)) [
                | inr f ↦ rw f refl
                | inl t ↦ elim (Bool-cases (is_kept tol (get_or v.dense j d.nought))) [
                  | inl k ↦ rw (t, k) refl
                  | inr k ↦ rw (t, k) refl
                ]
              ]);
      }
