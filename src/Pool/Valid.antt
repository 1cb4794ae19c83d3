-- ===== src/Pool/Valid.antt =====
-- What the pool holds after any sequence of offers.
use sih.Prelude.{
  ℕ, suc, ◌≤◌, ◌≡◌, inl, inr, Bool, false, List, [], ◌∷◌, refl, arith, Bool-cases, Option-cases,
  ◌==◌, length, All,
}
use sih.Prelude.Double.{Double, ◌≼◌, IsNumber, IsOrdered}
use sih.Prelude.Int.{ℤ}
use sih.Pool.{
  Entry, SolutionPool, solution_pool, drop_duplicate, insert_entry, evict_down, key_of, offer,
}
use sih.Pool.Evict.{evict_down_inv}
use sih.Pool.Members.{
  IsPool, IsValid, Below, Dropped, nothing, worse, other, Held, found, later,
  drop_duplicate-Searched, Dropped-IsPool, Dropped-Fresh, IsPool-insert_entry, IsPool-erase_at,
}

module _ {ℓ} {D : Type ℓ} ⦃d : Double D⦄ where
  insert_entry-cons :
      (new : Entry D) (es : List (Entry D))
      → (h : Entry D) × (t : List (Entry D)) × (insert_entry new es ≡ h ∷ t)
  unfolding insert_entry
  insert_entry-cons new [] = (new, [], refl)
  insert_entry-cons new (e ∷ es) = elim (Bool-cases (d.lt new.objective e.objective)) [
    | inl c ↦ (new, e ∷ es, rw c)
    | inr c ↦ (e, insert_entry new es, rw c)
  ]

  -- The member that a call of `insert_entry` puts in, and those behind and before it.
  Below-insert_entry :
      (x : D) (new : Entry D) (es : List (Entry D))
      → Below x (insert_entry new es)
      → (x ≼ new.objective) × Below x es
  unfolding insert_entry
  Below-insert_entry x new [] h = (h.0, tt)
  Below-insert_entry x new (e ∷ es) h = elim (Bool-cases (d.lt new.objective e.objective)) [
    | inl c ↦ rw c at h
    | inr c ↦
        let h' : Below x (e ∷ insert_entry new es) = rw c at h in
        let (n, rest) = Below-insert_entry x new es h'.1 in (n, (h'.0, rest))
  ]

  module _ (laws : IsOrdered D) where
    open laws use {numbers_of_le, le_trans, le_total}

    Below-Dropped :
        {objective : D} {key : List ℤ} {es kept : List (Entry D)} (x : D)
        → Dropped objective key es kept
        → All (λ e. IsNumber e.objective) es
        → x ≼ objective
        → Below x kept
        → Below x es
    Below-Dropped x nothing n h b = tt
    Below-Dropped {objective} x (worse {m} s g) n h b =
        let le = le_total m.objective objective n.0 (numbers_of_le x objective h).1 in
        let up : objective ≼ m.objective = ground arith in (le_trans _ _ _ h up, b)
    Below-Dropped x (other s r) n h b = (b.0, Below-Dropped x r n.1 h b.1)

    Below-Held :
        {objective : D} {key : List ℤ} {es : List (Entry D)} (x : D)
        → Held objective key es
        → Below x es
        → x ≼ objective
    Below-Held x (found s le) b = le_trans _ _ _ b.0 le
    Below-Held x (later h) b = Below-Held x h b.1

    -- The members after an offer, from those before.
    pub record IsNext (objective : D) (capacity : ℕ) (es after : List (Entry D)) : Type ℓ where
      pub pool : IsPool after
      pub within : length after ≤ capacity
      pub best : Entry D
      pub rest : List (Entry D)
      pub leads : after ≡ best ∷ rest
      pub below : Below best.objective es
      pub beats : best.objective ≼ objective

    IsNext-grown :
        (diversity : Bool) (capacity : ℕ) (new : Entry D) (es kept : List (Entry D))
        → 1 ≤ capacity
        → IsNumber new.objective
        → IsPool es
        → Dropped new.objective new.key es kept
        → let grown = insert_entry new kept in
          IsNext new.objective capacity es (evict_down diversity capacity (length grown) grown)
    IsNext-grown diversity capacity new es kept hc n p r =
        let (h, t, e) = insert_entry-cons new kept in
        let q : IsPool (h ∷ t) =
          rw e at (
            IsPool-insert_entry laws new kept n (Dropped-IsPool r p)
              (Dropped-Fresh r p.distinct)) in
        let (rest, kept_to, r', fits) =
          evict_down_inv IsPool (λ m ms i. IsPool-erase_at (m ∷ ms) (suc i)) diversity capacity
            (length (h ∷ t)) h t hc (omega arith) q in
        let below : Below h.objective (insert_entry new kept) = rw e (q.numbers.0, q.ascending.0) in
        let (beats, below_kept) = Below-insert_entry h.objective new kept below in
        rw e (record {
          pool = rw kept_to r';
          within = rw kept_to fits;
          best = h;
          rest = rest;
          leads = kept_to;
          below = Below-Dropped h.objective r p.numbers beats below_kept;
          beats = beats;
        })

    IsNext-same :
        {objective : D} {key : List ℤ} {capacity : ℕ} {es : List (Entry D)}
        → IsPool es
        → length es ≤ capacity
        → Held objective key es
        → IsNext objective capacity es es
    IsNext-same p w (found {m} {es} s le) = record {
      pool = p;
      within = w;
      best = m;
      rest = es;
      leads = refl;
      below = (p.numbers.0, p.ascending.0);
      beats = le;
    }
    IsNext-same p w (later {m} {es} h) = record {
      pool = p;
      within = w;
      best = m;
      rest = es;
      leads = refl;
      below = (p.numbers.0, p.ascending.0);
      beats = Below-Held m.objective (later {m = m} h) (p.numbers.0, p.ascending.0);
    }

    -- An offer with a number for its objective, to a valid pool that keeps anything: the members
    -- are valid and fit the capacity, and the first of them is at least as good as the offer and
    -- as every member before it. The capacity and the choice of diversity stay.
    pub offer-IsNext :
        (llround : D → ℤ) (objective : D) (x : List D) (p : SolutionPool D)
        → IsValid p
        → 1 ≤ p.capacity
        → IsNumber objective
        → let q = offer llround objective x p in
          IsNext objective p.capacity p.entries q.entries
          × (q.capacity ≡ p.capacity)
          × (q.diversity ≡ p.diversity)
    unfolding offer
    offer-IsNext llround objective x p v hc n =
        let key = key_of llround d.nought p.integer_columns x in
        let searched = drop_duplicate-Searched objective key p.entries in
        let new : Entry D = record { objective = objective; x = x; key = key } in
        let keeps : (p.capacity == 0) ≡ false = ground arith in
        elim (Option-cases (drop_duplicate objective key p.entries)) [
          | inl e ↦ rw (keeps, e) (IsNext-same v.pool v.within (rw e at searched), refl, refl)
          | inr (kept, e) ↦
              rw (keeps, e)
                (
                  IsNext-grown p.diversity p.capacity new p.entries kept hc n v.pool
                      (rw e at searched),
                  refl,
                  refl,
                )
        ]

    pub offer-IsValid :
        (llround : D → ℤ) (objective : D) (x : List D) (p : SolutionPool D)
        → IsValid p
        → IsNumber objective
        → IsValid (offer llround objective x p)
    offer-IsValid llround objective x p v n = elim (Bool-cases (p.capacity == 0)) [
      | inl z ↦ unfold offer in rw z v
      | inr c ↦
          let (next, size, kind) = offer-IsNext llround objective x p v (ground arith) n in
          record { pool = next.pool; within = rw size next.within }
    ]

  -- The offers of one search, in order.
  abbrev pub offer_all : (D → ℤ) → List (D × List D) → SolutionPool D → SolutionPool D
  offer_all llround [] p = p
  offer_all llround ((objective, x) ∷ rest) p = offer_all llround rest (offer llround objective x p)

  offer_all-IsValid :
      (laws : IsOrdered D) (llround : D → ℤ) (offers : List (D × List D)) (p : SolutionPool D)
      → All (λ o. IsNumber o.0) offers
      → IsValid p
      → IsValid (offer_all llround offers p)
  offer_all-IsValid laws llround [] p h v = v
  offer_all-IsValid laws llround (o ∷ rest) p h v =
      offer_all-IsValid laws llround rest _ h.1 (offer-IsValid laws llround o.0 o.1 p v h.0)

  -- After any sequence of offers whose objectives are numbers, a pool holds no more members than
  -- its capacity, best first, and no two with the same integer assignment.
  pub solution_pool-IsValid :
      (laws : IsOrdered D) (llround : D → ℤ) (columns : List ℕ) (capacity : ℕ) (diversity : Bool)
      (offers : List (D × List D))
      → All (λ o. IsNumber o.0) offers
      → IsValid (offer_all llround offers (solution_pool columns capacity diversity))
  unfolding solution_pool
  solution_pool-IsValid laws llround columns capacity diversity offers h =
      offer_all-IsValid laws llround offers _ h (record {
        pool = record { numbers = tt; ascending = tt; distinct = tt };
        within = omega arith;
      })
