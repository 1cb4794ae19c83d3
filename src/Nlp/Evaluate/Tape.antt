-- ===== src/Nlp/Evaluate/Tape.antt =====
-- src/nlp/expression.cpp: the tape of a node holds its children's tapes, in ascending order.
use sih.Prelude.{
  ℕ, zero, suc, ◌+◌, ◌≤◌, ◌<◌, ◌≡◌, ◌∙◌, Bool, true, false, List, [], ◌∷◌, if◌then◌else◌, refl, sym,
  ap, subst, arith, inl, inr, length, length-set, get_or, get_or-set, set, ◌==◌, All, All-impl,
  Bool-cases, range, filter,
}
use sih.Prelude.Double.{Double}
use sih.Nlp.{ExpressionGraph, mark_children, walk_down, node}
use sih.Nlp.Evaluate.{last_or}

abbrev pub IsReached : List Bool → ℕ → Type 0
IsReached r j = get_or r j false ≡ true

length-mark_children : (cs : List ℕ) (r : List Bool) → length (mark_children cs r) ≡ length r
unfolding mark_children
length-mark_children [] r = refl
length-mark_children (c ∷ cs) r = length-mark_children cs (set r c true) ∙ length-set r c true

-- A mark stays.
set-IsReached : (r : List Bool) (c j : ℕ) → IsReached r j → IsReached (set r c true) j
set-IsReached [] c j h = h
set-IsReached (b ∷ r) zero zero h = refl
set-IsReached (b ∷ r) zero (suc j) h = h
set-IsReached (b ∷ r) (suc c) zero h = h
set-IsReached (b ∷ r) (suc c) (suc j) h = set-IsReached r c j h

mark_children-IsReached :
    (cs : List ℕ) (r : List Bool) (j : ℕ) → IsReached r j → IsReached (mark_children cs r) j
unfolding mark_children
mark_children-IsReached [] r j h = h
mark_children-IsReached (c ∷ cs) r j h =
    mark_children-IsReached cs (set r c true) j (set-IsReached r c j h)

mark_children-All :
    (cs : List ℕ) (r : List Bool)
    → All (λ c. c < length r) cs
    → All (IsReached (mark_children cs r)) cs
unfolding mark_children
mark_children-All [] r h = tt
mark_children-All (c ∷ cs) r h =
    let same : (c == c) ≡ true = ground arith in
    let here : IsReached (set r c true) c = get_or-set r c c true false h.0 ∙ rw same refl in
    (
      mark_children-IsReached cs (set r c true) c here,
      mark_children-All cs (set r c true)
          (All-impl _ _ cs (λ k l. omega (arith, length-set r c true)) h.1),
    )

-- Children below a bound leave the marks from there on.
mark_children-above :
    (cs : List ℕ) (r : List Bool) (j : ℕ)
    → All (λ c. c < length r) cs
    → All (λ c. c < j) cs
    → get_or (mark_children cs r) j false ≡ get_or r j false
unfolding mark_children
mark_children-above [] r j h k = refl
mark_children-above (c ∷ cs) r j h k =
    let other : (c == j) ≡ false = ground arith in
    mark_children-above cs (set r c true) j
      (All-impl _ _ cs (λ i l. omega (arith, length-set r c true)) h.1) k.1
    ∙ get_or-set r c j true false h.0
    ∙ rw other refl

mark_children-only {κ} :
    (P : ℕ → Type κ) (cs : List ℕ) (r : List Bool)
    → All (λ c. c < length r) cs
    → All P cs
    → ((j : ℕ) → IsReached r j → P j)
    → (j : ℕ) → IsReached (mark_children cs r) j
    → P j
unfolding mark_children
mark_children-only P [] r h p k j m = k j m
mark_children-only P (c ∷ cs) r h p k j m =
    mark_children-only P cs (set r c true)
      (All-impl _ _ cs (λ i l. omega (arith, length-set r c true)) h.1) p.1
      (λ i n. elim (Bool-cases (c == i)) [
        | inl t ↦ subst P (ground arith) p.0
        | inr f ↦ k i (sym (get_or-set r c i true false h.0 ∙ rw f refl) ∙ n)
      ])
      j m

module _ {ℓ} {D : Type ℓ} ⦃d : Double D⦄ (g : ExpressionGraph D) where
  -- The children of the nodes below a bound come before them.
  abbrev pub IsLayered : ℕ → Type 0
  IsLayered n = (i : ℕ) → i < n → All (λ c. c < i) (node g i).children

  abbrev visit : ℕ → List Bool → List Bool
  visit i r = if get_or r i false then mark_children (node g i).children r else r

  length-visit : (i : ℕ) (r : List Bool) → length (visit i r) ≡ length r
  length-visit i r = elim (Bool-cases (get_or r i false)) [
    | inl t ↦ rw t (length-mark_children (node g i).children r)
    | inr f ↦ rw f refl
  ]

  visit-IsReached : (i : ℕ) (r : List Bool) (j : ℕ) → IsReached r j → IsReached (visit i r) j
  visit-IsReached i r j h = elim (Bool-cases (get_or r i false)) [
    | inl t ↦ rw t (mark_children-IsReached (node g i).children r j h)
    | inr f ↦ rw f h
  ]

  pub walk_down-IsReached :
      (n : ℕ) (r : List Bool) (j : ℕ) → IsReached r j → IsReached (walk_down g n r) j
  unfolding walk_down
  walk_down-IsReached zero r j h = h
  walk_down-IsReached (suc i) r j h = walk_down-IsReached i (visit i r) j (visit-IsReached i r j h)

  visit-above :
      (i : ℕ) (r : List Bool) (j : ℕ)
      → IsLayered (suc i)
      → suc i ≤ length r
      → i ≤ j
      → get_or (visit i r) j false ≡ get_or r j false
  visit-above i r j w h k = elim (Bool-cases (get_or r i false)) [
    | inr f ↦ rw f refl
    | inl t ↦
        let before = w i (omega arith) in
        rw t (
          mark_children-above (node g i).children r j (All-impl _ _ _ (λ c l. omega arith) before)
            (All-impl _ _ _ (λ c l. omega arith) before))
  ]

  lower-IsLayered : (i : ℕ) → IsLayered (suc i) → IsLayered i
  lower-IsLayered i w k h = w k (omega arith)

  walk_down-above :
      (n : ℕ) (r : List Bool) (j : ℕ)
      → IsLayered n
      → n ≤ length r
      → n ≤ suc j
      → get_or (walk_down g n r) j false ≡ get_or r j false
  unfolding walk_down
  walk_down-above zero r j w h k = refl
  walk_down-above (suc i) r j w h k =
      walk_down-above i (visit i r) j (lower-IsLayered i w) (omega (arith, length-visit i r))
        (omega arith)
      ∙ visit-above i r j w h (omega arith)

  pub length-walk_down : (n : ℕ) (r : List Bool) → length (walk_down g n r) ≡ length r
  unfolding walk_down
  length-walk_down zero r = refl
  length-walk_down (suc i) r = length-walk_down i (visit i r) ∙ length-visit i r

  -- The children of a marked node are marked.
  pub walk_down-closed :
      (n : ℕ) (r : List Bool) (i : ℕ)
      → IsLayered n
      → n ≤ length r
      → i < n
      → IsReached (walk_down g n r) i
      → All (IsReached (walk_down g n r)) (node g i).children
  unfolding walk_down
  walk_down-closed zero r i w h k m = absurd (omega arith)
  walk_down-closed (suc n) r i w h k m = elim (Bool-cases (i == n)) [
    | inr f ↦
        walk_down-closed n (visit n r) i (lower-IsLayered n w) (omega (arith, length-visit n r))
          (ground arith) m
    | inl t ↦
        let e : i ≡ n = ground arith in
        let here : IsReached r n =
          sym (
            walk_down-above n (visit n r) n (lower-IsLayered n w) (omega (arith, length-visit n r))
              (omega arith)
            ∙ visit-above n r n w h (omega arith))
          ∙ ap (λ k. get_or (walk_down g n (visit n r)) k false) (sym e)
          ∙ m in
        let marked : All (IsReached (visit n r)) (node g n).children = rw here (
          mark_children-All (node g n).children r
            (All-impl _ _ _ (λ c l. omega arith) (w n (omega arith)))) in
        rw e
          (All-impl _ _ (node g n).children (λ c l. walk_down-IsReached n (visit n r) c l) marked)
  ]

  -- What holds of the marked nodes and goes from a node to its children holds of all that are marked.
  pub walk_down-only {κ} :
      (P : ℕ → Type κ) (n : ℕ) (r : List Bool)
      → IsLayered n
      → n ≤ length r
      → ((i : ℕ) → i < n → P i → All P (node g i).children)
      → ((j : ℕ) → IsReached r j → P j)
      → (j : ℕ) → IsReached (walk_down g n r) j
      → P j
  unfolding walk_down
  walk_down-only P zero r w h down start j m = start j m
  walk_down-only P (suc i) r w h down start j m =
      walk_down-only P i (visit i r) (lower-IsLayered i w) (omega (arith, length-visit i r))
        (λ k l. down k (omega arith)) (step_start) j m
    where
      step_start : (k : ℕ) → IsReached (visit i r) k → P k
      step_start k n = elim (Bool-cases (get_or r i false)) [
        | inr f ↦ start k (rw f at n)
        | inl t ↦
            mark_children-only P (node g i).children r
              (All-impl _ _ _ (λ c l. omega arith) (w i (omega arith)))
              (down i (omega arith) (start i t)) start k (rw t at n)
      ]

-- A range that ends with a kept number, and what is kept.
pub last_or-filter :
    (p : ℕ → Bool) (i n k : ℕ) → p (i + n) ≡ true → last_or k (filter p (range i (suc n))) ≡ i + n
last_or-filter p i zero k h =
    let e : i + 0 ≡ i = omega arith in
    let t : p i ≡ true = rw e at h in rw (t, filter) (omega arith)
last_or-filter p i (suc n) k h =
    let moved : suc i + n ≡ i + suc n = omega arith in
    let later = λ (j : ℕ). last_or-filter p (suc i) n j (rw moved h) ∙ moved in
    elim (Bool-cases (p i)) [ inl t ↦ rw (t, filter) (later i) | inr f ↦ rw (f, filter) (later k) ]
