-- ===== src/Pool/Members.antt =====
-- The lists that `offer` goes through: the search for a duplicate, and the insertion.
use sih.Prelude.{
  ℕ, ◌≤◌, ◌≡◌, inl, inr, true, false, Option, none, some, List, [], ◌∷◌, arith, Bool-cases,
  Option-cases, length, erase_at, All, All-erase_at, All-impl, Pairwise, Pairwise-erase_at,
}
use sih.Prelude.Double.{Double, ◌≼◌, IsNumber, IsOrdered}
use sih.Prelude.Int.{ℤ}
use sih.Pool.{Entry, SolutionPool, same_key, drop_duplicate, insert_entry}
use sih.Pool.Keys.{same_key_iff, same_key_sym}

module _ {ℓ} {D : Type ℓ} ⦃d : Double D⦄ where
  abbrev pub Ascending : List (Entry D) → Type 0
  Ascending = Pairwise (λ e f. e.objective ≼ f.objective)

  abbrev pub Distinct : List (Entry D) → Type 0
  Distinct = Pairwise (λ e f. same_key e.key f.key ≡ false)

  -- Best first, no two members with one assignment, every objective a number.
  pub record IsPool (es : List (Entry D)) : Type 0 where
    pub numbers : All (λ e. IsNumber e.objective) es
    pub ascending : Ascending es
    pub distinct : Distinct es

  pub record IsValid (p : SolutionPool D) : Type 0 where
    pub pool : IsPool p.entries
    pub within : length p.entries ≤ p.capacity

  -- The bound `x` is no worse than any member.
  abbrev pub Below : D → List (Entry D) → Type 0
  Below x = All (λ e. x ≼ e.objective)

  abbrev pub Fresh : List ℤ → List (Entry D) → Type 0
  Fresh key = All (λ e. same_key e.key key ≡ false)

  pub IsPool-erase_at : (es : List (Entry D)) (i : ℕ) → IsPool es → IsPool (erase_at es i)
  IsPool-erase_at es i p = record {
    numbers = All-erase_at _ es i p.numbers;
    ascending = Pairwise-erase_at _ es i p.ascending;
    distinct = Pairwise-erase_at _ es i p.distinct;
  }

  IsPool-tail : (e : Entry D) (es : List (Entry D)) → IsPool (e ∷ es) → IsPool es
  IsPool-tail e es p = record {
    numbers = p.numbers.1;
    ascending = p.ascending.1;
    distinct = p.distinct.1;
  }

  -- What the search for a duplicate finds: none, or one that is worse than the offer and goes.
  pub data Dropped (objective : D) (key : List ℤ) : List (Entry D) → List (Entry D) → Type ℓ where
    nothing : Dropped objective key [] []
    worse :
        {m : Entry D} {es : List (Entry D)}
        → same_key m.key key ≡ true
        → d.le m.objective objective ≡ false
        → Dropped objective key (m ∷ es) es
    other :
        {m : Entry D} {es kept : List (Entry D)}
        → same_key m.key key ≡ false
        → Dropped objective key es kept
        → Dropped objective key (m ∷ es) (m ∷ kept)

  -- A member has the key and is no worse than the offer.
  pub data Held (objective : D) (key : List ℤ) : List (Entry D) → Type ℓ where
    found :
        {m : Entry D} {es : List (Entry D)}
        → same_key m.key key ≡ true
        → m.objective ≼ objective
        → Held objective key (m ∷ es)
    later :
        {m : Entry D} {es : List (Entry D)} → Held objective key es → Held objective key (m ∷ es)

  abbrev pub Searched : D → List ℤ → List (Entry D) → Option (List (Entry D)) → Type ℓ
  Searched objective key es none = Held objective key es
  Searched objective key es (some kept) = Dropped objective key es kept

  pub drop_duplicate-Searched :
      (objective : D) (key : List ℤ) (es : List (Entry D))
      → Searched objective key es (drop_duplicate objective key es)
  unfolding drop_duplicate
  drop_duplicate-Searched objective key [] = nothing
  drop_duplicate-Searched objective key (m ∷ es) =
      let ih = drop_duplicate-Searched objective key es in
      elim (Bool-cases (same_key m.key key)) [
        | inl same ↦ elim (Bool-cases (d.le m.objective objective)) [
          | inl le ↦ rw (same, le) (found same le)
          | inr gt ↦ rw (same, gt) (worse same gt)
        ]
        | inr ne ↦ elim (Option-cases (drop_duplicate objective key es)) [
          | inl e ↦ rw (ne, e) (later (rw e at ih))
          | inr (kept, e) ↦ rw (ne, e) (other ne (rw e at ih))
        ]
      ]

  module _ {objective : D} {key : List ℤ} where
    pub Dropped-All {κ} :
        {es kept : List (Entry D)} (P : Entry D → Type κ)
        → Dropped objective key es kept
        → All P es
        → All P kept
    Dropped-All P nothing h = h
    Dropped-All P (worse s g) h = h.1
    Dropped-All P (other s r) h = (h.0, Dropped-All P r h.1)

    pub Dropped-IsPool :
        {es kept : List (Entry D)} → Dropped objective key es kept → IsPool es → IsPool kept
    Dropped-IsPool nothing p = p
    Dropped-IsPool (worse {m} {es} s g) p = IsPool-tail m es p
    Dropped-IsPool (other {m} {es} s r) p =
        let q = Dropped-IsPool r (IsPool-tail m es p) in
        record {
          numbers = (p.numbers.0, q.numbers);
          ascending = (Dropped-All _ r p.ascending.0, q.ascending);
          distinct = (Dropped-All _ r p.distinct.0, q.distinct);
        }

    pub Dropped-Fresh :
        {es kept : List (Entry D)} → Dropped objective key es kept → Distinct es → Fresh key kept
    Dropped-Fresh nothing h = tt
    Dropped-Fresh (worse {m} {es} s g) h =
        All-impl _ _ es (λ e ne. ground (arith, same_key_iff m.key key, same_key_sym m.key e.key))
          h.0
    Dropped-Fresh (other s r) h = (s, Dropped-Fresh r h.1)

  All-insert_entry {κ} :
      (P : Entry D → Type κ) (new : Entry D) (es : List (Entry D))
      → P new
      → All P es
      → All P (insert_entry new es)
  unfolding insert_entry
  All-insert_entry P new [] h hs = (h, tt)
  All-insert_entry P new (e ∷ es) h hs = elim (Bool-cases (d.lt new.objective e.objective)) [
    | inl c ↦ rw c (h, hs)
    | inr c ↦ rw c (hs.0, All-insert_entry P new es h hs.1)
  ]

  Distinct-insert_entry :
      (new : Entry D) (es : List (Entry D))
      → Fresh new.key es
      → Distinct es
      → Distinct (insert_entry new es)
  unfolding insert_entry
  Distinct-insert_entry new [] f h = (tt, tt)
  Distinct-insert_entry new (e ∷ es) f h = elim (Bool-cases (d.lt new.objective e.objective)) [
    | inl c ↦ rw c (All-impl _ _ (e ∷ es) (λ m ne. ground (arith, same_key_sym new.key m.key)) f, h)
    | inr c ↦ rw c (All-insert_entry _ new es f.0 h.0, Distinct-insert_entry new es f.1 h.1)
  ]

  module _ (laws : IsOrdered D) where
    open laws use {numbers_of_le, numbers_of_lt, le_trans, le_total, lt-eq-not-le}

    pub le_of_lt : (x y : D) → d.lt x y ≡ true → x ≼ y
    le_of_lt x y h =
        let (hx, hy) = numbers_of_lt x y h in
        ground (arith, lt-eq-not-le x y hx hy, le_total x y hx hy)

    pub le_of_not_lt : (x y : D) → IsNumber x → IsNumber y → d.lt x y ≡ false → y ≼ x
    le_of_not_lt x y hx hy h = ground (arith, lt-eq-not-le x y hx hy)

    Ascending-insert_entry :
        (new : Entry D) (es : List (Entry D))
        → IsNumber new.objective
        → All (λ e. IsNumber e.objective) es
        → Ascending es
        → Ascending (insert_entry new es)
    unfolding insert_entry
    Ascending-insert_entry new [] n ns h = (tt, tt)
    Ascending-insert_entry new (e ∷ es) n ns h =
        elim (Bool-cases (d.lt new.objective e.objective)) [
          | inl c ↦
              let first = le_of_lt new.objective e.objective c in
              rw c ((first, All-impl _ _ es (λ m le. le_trans _ _ _ first le) h.0), h)
          | inr c ↦ rw c (
            All-insert_entry _ new es (le_of_not_lt _ _ n ns.0 c) h.0,
            Ascending-insert_entry new es n ns.1 h.1,
          )
        ]

    pub IsPool-insert_entry :
        (new : Entry D) (es : List (Entry D))
        → IsNumber new.objective
        → IsPool es
        → Fresh new.key es
        → IsPool (insert_entry new es)
    IsPool-insert_entry new es n p f = record {
      numbers = All-insert_entry _ new es n p.numbers;
      ascending = Ascending-insert_entry new es n p.numbers p.ascending;
      distinct = Distinct-insert_entry new es f p.distinct;
    }
