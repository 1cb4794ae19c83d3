-- ===== src/Sparse/Vector/Replay.antt =====
-- The sparse vector as a map from the indices to the values that it holds.
use sih.Prelude.{
  ℕ, ◌<◌, ◌≡◌, ◌∙◌, Bool, true, false, Option, none, some, List, [], ◌∷◌, ◌++◌, refl, sym, ap,
  arith, ltb, ◌==◌, if◌then◌else◌, length, length-set, get_or, get_or-set, set, All, All-append,
  All-impl, Pairwise, Pairwise-append, inl, inr, Bool-cases,
}
use sih.Prelude.Double.{Double}
use sih.Sparse.Vector.{SparseVector, clear, add, set_value, is_kept, compress, gather_from_dense}

abbrev pub contains : ℕ → List ℕ → Bool
contains i [] = false
contains i (j ∷ js) = if j == i then true else contains i js

-- The pattern lists the marked indices, each once and in range.
pub record IsVector {ℓ} {D : Type ℓ} (v : SparseVector D) : Type ℓ where
  pub dense_size : length v.dense ≡ v.dimension
  pub marked_size : length v.marked ≡ v.dimension
  pub within : All (λ i. i < v.dimension) v.pattern
  pub marks : (i : ℕ) → get_or v.marked i false ≡ contains i v.pattern
  pub distinct : Pairwise (λ i j. (i == j) ≡ false) v.pattern

pub data Operation {ℓ} (D : Type ℓ) : Type ℓ where
  adding : ℕ → D → Operation D
  setting : ℕ → D → Operation D
  clearing : Operation D
  compressing : D → Operation D
  gathering : D → List D → Operation D

contains-append :
    (j : ℕ) (is : List ℕ) (i : ℕ)
    → contains j (is ++ i ∷ []) ≡ (if i == j then true else contains j is)
contains-append j [] i = refl
contains-append j (k ∷ is) i = ground (arith, contains-append j is i)

contains-none : (i : ℕ) (is : List ℕ) → contains i is ≡ false → All (λ a. (a == i) ≡ false) is
contains-none i [] h = tt
contains-none i (k ∷ is) h = elim (Bool-cases (k == i)) [
  | inl t ↦ absurd (ground arith)
  | inr f ↦ (f, contains-none i is (rw f at h))
]

module _ {ℓ} {D : Type ℓ} ⦃d : Double D⦄ where
  -- The value of an index, if the vector holds one.
  abbrev pub held : SparseVector D → ℕ → Option D
  held v i = if get_or v.marked i false then some (get_or v.dense i d.nought) else none

  abbrev pub step : Operation D → SparseVector D → SparseVector D
  step (adding i x) v = add i x v
  step (setting i x) v = set_value i x v
  step clearing v = clear v
  step (compressing tol) v = compress tol v
  step (gathering tol xs) v = gather_from_dense tol xs v

  abbrev pub kept : D → D → Option D
  kept tol x = if is_kept tol x then some x else none

  abbrev added : D → Option D → Option D
  added x none = some x
  added x (some w) = some (d.add w x)

  abbrev kept_of : D → Option D → Option D
  kept_of tol none = none
  kept_of tol (some w) = kept tol w

  -- What an operation does to the map.
  abbrev pub effect : ℕ → Operation D → (ℕ → Option D) → ℕ → Option D
  effect n (adding i x) f j = if i == j then added x (f j) else f j
  effect n (setting i x) f j = if i == j then some x else f j
  effect n clearing f j = none
  effect n (compressing tol) f j = kept_of tol (f j)
  effect n (gathering tol xs) f j = if ltb j n then kept tol (get_or xs j d.nought) else none

  abbrev pub Fits : ℕ → Operation D → Type 0
  Fits n (adding i x) = i < n
  Fits n (setting i x) = i < n
  Fits n _ = Unit

  abbrev pub run : List (Operation D) → SparseVector D → SparseVector D
  run [] v = v
  run (o ∷ os) v = run os (step o v)

  abbrev pub replay : ℕ → List (Operation D) → (ℕ → Option D) → ℕ → Option D
  replay n [] f = f
  replay n (o ∷ os) f = replay n os (effect n o f)

  -- A step keeps the invariant and the dimension, and has its effect on the map.
  pub record Refines (v : SparseVector D) (f : ℕ → Option D) (q : SparseVector D) : Type ℓ where
    pub valid : IsVector q
    pub same_dimension : q.dimension ≡ v.dimension
    pub contents : (j : ℕ) → held q j ≡ f j

  -- A value written at a marked index.
  write-Refines :
      (i : ℕ) (x : D) (v : SparseVector D)
      → i < v.dimension
      → IsVector v
      → get_or v.marked i false ≡ true
      → Refines v (λ j. if i == j then some x else held v j) (record v { dense = set v.dense i x })
  write-Refines i x v h w t = record {
    valid = record {
      dense_size = length-set v.dense i _ ∙ w.dense_size;
      marked_size = w.marked_size;
      within = w.within;
      marks = w.marks;
      distinct = w.distinct;
    };
    same_dimension = refl;
    contents = λ j.
        rw (get_or-set v.dense i j x d.nought (omega (arith, w.dense_size)))
          (elim (Bool-cases (i == j)) [
            | inl q ↦
                let here : get_or v.marked j false ≡ true =
                  (ap (λ k. get_or v.marked k false) (ground arith)) ∙ t in
                rw (q, here) refl
            | inr q ↦ rw q refl
          ]);
  }

  -- A value written at an index that is touched for the first time.
  touch-Refines :
      (i : ℕ) (x : D) (v : SparseVector D)
      → i < v.dimension
      → IsVector v
      → get_or v.marked i false ≡ false
      → Refines v
          (λ j. if i == j then some x else held v j)
          (record v {
            marked = set v.marked i true;
            dense = set v.dense i x;
            pattern = v.pattern ++ i ∷ [];
          })
  touch-Refines i x v h w f = record {
    valid = record {
      dense_size = length-set v.dense i x ∙ w.dense_size;
      marked_size = length-set v.marked i true ∙ w.marked_size;
      within = All-append _ v.pattern (i ∷ []) w.within (h, tt);
      marks = λ j.
          get_or-set v.marked i j true false (omega (arith, w.marked_size))
          ∙ ap (λ b. if i == j then true else b) (w.marks j)
          ∙ sym (contains-append j v.pattern i);
      distinct =
          Pairwise-append _ v.pattern (i ∷ []) w.distinct (tt, tt)
            (All-impl _ _ v.pattern (λ a e. (e, tt))
              (contains-none i v.pattern (sym (w.marks i) ∙ f)));
    };
    same_dimension = refl;
    contents = λ j.
        rw
          (
            get_or-set v.dense i j x d.nought (omega (arith, w.dense_size)),
            get_or-set v.marked i j true false (omega (arith, w.marked_size)),
          )
          (elim (Bool-cases (i == j)) [ inl q ↦ rw q refl | inr q ↦ rw q refl ]);
  }

  pub add-Refines :
      (i : ℕ) (x : D) (v : SparseVector D)
      → i < v.dimension
      → IsVector v
      → Refines v (effect v.dimension (adding i x) (held v)) (add i x v)
  unfolding add
  add-Refines i x v h w = elim (Bool-cases (get_or v.marked i false)) [
    | inl t ↦
        let r = write-Refines i (d.add (get_or v.dense i d.nought) x) v h w t in
        rw t (record {
          valid = r.valid;
          same_dimension = refl;
          contents = λ j. r.contents j ∙ elim (Bool-cases (i == j)) [
            | inl q ↦ let e : j ≡ i = ground arith in rw (q, e, t) refl
            | inr q ↦ rw q refl
          ];
        })
    | inr f ↦
        let r = touch-Refines i x v h w f in
        rw f (record {
          valid = r.valid;
          same_dimension = refl;
          contents = λ j. r.contents j ∙ elim (Bool-cases (i == j)) [
            | inl q ↦ let e : j ≡ i = ground arith in rw (q, e, f) refl
            | inr q ↦ rw q refl
          ];
        })
  ]

  pub set_value-Refines :
      (i : ℕ) (x : D) (v : SparseVector D)
      → i < v.dimension
      → IsVector v
      → Refines v (effect v.dimension (setting i x) (held v)) (set_value i x v)
  unfolding set_value
  set_value-Refines i x v h w = elim (Bool-cases (get_or v.marked i false)) [
    | inl t ↦ rw t (write-Refines i x v h w t)
    | inr f ↦ rw f (touch-Refines i x v h w f)
  ]
