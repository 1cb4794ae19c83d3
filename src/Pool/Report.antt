-- ===== src/Pool/Report.antt =====
-- What the pool tells the search and the caller: `cutoff` and `finish`.
use sih.Prelude.{
  ℕ, zero, suc, ◌+◌, ◌≤◌, ◌≡◌, inl, inr, Bool, true, false, List, [], ◌∷◌, ◌++◌, refl, ap, arith,
  Bool-cases, Option-cases, ◌==◌, ltb, leb, length, length-append, All, All-impl, ◌||◌, ◌&&◌,
}
use sih.Prelude.Double
use sih.Prelude.Double.{Double, ◌≼◌, IsNumber, IsOrdered, is_finite}
use sih.Prelude.Int.{ℤ}
use sih.Pool.{
  Entry, SolutionPool, same_key, drop_duplicate, insert_entry, pop_back, evict_one, evict_down,
  key_of, offer, full, cutoff, last_objective, finish_from, finish,
}
use sih.Pool.Keys.{same_key_sym}
use sih.Pool.Members.{
  IsPool, IsValid, Ascending, Distinct, Dropped, nothing, worse, other, drop_duplicate-Searched,
}

module _ {ℓ} {D : Type ℓ} ⦃d : Double D⦄ where
  module _ (laws : IsOrdered D) where
    open laws use {numbers_of_le, numbers_of_lt, le_trans, lt-eq-not-le}

    not_lt_of_le : (x y : D) → x ≼ y → d.lt y x ≡ false
    not_lt_of_le x y h =
        let (hx, hy) = numbers_of_le x y h in ground (arith, lt-eq-not-le y x hy hx)

    -- Every member is at most the last one.
    below-last :
        (x : D) (e : Entry D) (es : List (Entry D))
        → Ascending (e ∷ es)
        → IsNumber e.objective
        → last_objective e.objective es ≼ x
        → All (λ m. m.objective ≼ x) (e ∷ es)
    below-last x e [] a n h = (h, tt)
    below-last x e (e' ∷ es) a n h =
        let rest = below-last x e' es a.1 (numbers_of_le _ _ a.0.0).1 h in
        (le_trans _ _ _ a.0.0 rest.0, rest)

    -- An offer no better than every member is dropped at once, or put behind all of them.
    Dropped-same :
        {objective : D} {key : List ℤ} {es kept : List (Entry D)}
        → Dropped objective key es kept
        → All (λ m. m.objective ≼ objective) es
        → kept ≡ es
    Dropped-same nothing h = refl
    Dropped-same (worse s g) h = ground arith
    Dropped-same (other {m} s r) h = ap (◌∷◌ m) (Dropped-same r h.1)

    insert_entry-append :
        (new : Entry D) (es : List (Entry D))
        → All (λ m. m.objective ≼ new.objective) es
        → insert_entry new es ≡ es ++ new ∷ []
    unfolding insert_entry
    insert_entry-append new [] h = refl
    insert_entry-append new (e ∷ es) h =
        rw (not_lt_of_le e.objective new.objective h.0)
          (ap (◌∷◌ e) (insert_entry-append new es h.1))

  pop_back-append : (es : List (Entry D)) (new : Entry D) → pop_back (es ++ new ∷ []) ≡ es
  unfolding pop_back
  pop_back-append [] new = refl
  pop_back-append (e ∷ []) new = refl
  pop_back-append (e ∷ e' ∷ es) new = ap (◌∷◌ e) (pop_back-append (e' ∷ es) new)

  evict_one-pop_back : (es : List (Entry D)) → evict_one false es ≡ pop_back es
  unfolding evict_one pop_back
  evict_one-pop_back [] = refl
  evict_one-pop_back (e ∷ es) = refl

  evict_down_small :
      (diversity : Bool) (capacity fuel : ℕ) (es : List (Entry D))
      → length es ≤ capacity
      → evict_down diversity capacity fuel es ≡ es
  unfolding evict_down
  evict_down_small diversity capacity zero es h = refl
  evict_down_small diversity capacity (suc fuel) es h =
      let fits : ltb capacity (length es) ≡ false = ground arith in rw fits

  -- One member too many, put behind the others, goes again.
  evict_down_last :
      (capacity : ℕ) (es : List (Entry D)) (new : Entry D)
      → length es ≡ capacity
      → let grown = es ++ new ∷ [] in evict_down false capacity (length grown) grown ≡ es
  unfolding evict_down
  evict_down_last capacity es new h =
      let grown = es ++ new ∷ [] in
      let size : length grown ≡ suc capacity = omega (arith, length-append es (new ∷ [])) in
      let over : ltb capacity (suc capacity) ≡ true = ground arith in
      rw (size, size, over, evict_one-pop_back grown, pop_back-append es new)
        (evict_down_small false capacity capacity es (omega arith))

  offer-kept :
      (llround : D → ℤ) (objective : D) (x : List D) (p : SolutionPool D)
      → IsOrdered D
      → p.diversity ≡ false
      → length p.entries ≡ p.capacity
      → All (λ m. m.objective ≼ objective) p.entries
      → offer llround objective x p ≡ p
  unfolding offer
  offer-kept llround objective x p laws nd size above =
      let key = key_of llround d.nought p.integer_columns x in
      let new : Entry D = record { objective = objective; x = x; key = key } in
      let searched = drop_duplicate-Searched objective key p.entries in
      elim (Bool-cases (p.capacity == 0)) [
        | inl z ↦ rw z
        | inr c ↦ elim (Option-cases (drop_duplicate objective key p.entries)) [
          | inl e ↦ rw (c, e)
          | inr (kept, e) ↦
              let same : kept ≡ p.entries = Dropped-same laws (rw e at searched) above in
              rw (c, e, same, nd, insert_entry-append laws new p.entries above)
                (ap (λ es. record p { diversity = false; entries = es })
                  (evict_down_last p.capacity p.entries new size))
        ]
      ]

  full_below :
      (laws : IsOrdered D) (x : D) (es : List (Entry D))
      → IsPool es
      → 1 ≤ length es
      → last_objective d.infinity es ≼ x
      → All (λ m. m.objective ≼ x) es
  full_below laws x [] p n h = absurd (omega arith)
  full_below laws x (e ∷ es) p n h = below-last laws x e es p.ascending p.numbers.0 h

  -- A pool with every member it may have, ordered by objective alone: a point whose objective is
  -- at least `cutoff` leaves the pool exactly as it is, so a node with such a bound adds nothing.
  pub offer_beyond_cutoff :
      (laws : IsOrdered D) (llround : D → ℤ) (objective : D) (x : List D) (p : SolutionPool D)
      → IsValid p
      → p.diversity ≡ false
      → full p ≡ true
      → cutoff p ≼ objective
      → offer llround objective x p ≡ p
  unfolding cutoff full
  offer_beyond_cutoff laws llround objective x p v nd f h =
      let top : last_objective d.infinity p.entries ≼ objective = ground arith in
      let size : (1 ≤ length p.entries) × (length p.entries ≡ p.capacity) =
        (ground arith, ground (arith, v.within)) in
      offer-kept llround objective x p laws nd size.1
        (full_below laws objective p.entries v.pool size.0 top)

  -- The part of the report behind the incumbent.
  abbrev Reported : List ℤ → D → List (Entry D) → Type 0
  Reported first limit es =
      Distinct es
      × All
          (λ e.
            (same_key first e.key ≡ false) × ((is_finite limit && d.lt limit e.objective) ≡ false))
          es

  finish_from-All {κ} :
      (P : Entry D → Type κ) (capacity size : ℕ) (first : List ℤ) (limit : D) (es : List (Entry D))
      → All P es
      → All P (finish_from capacity size first limit es)
  unfolding finish_from
  finish_from-All P capacity size first limit [] h = tt
  finish_from-All P capacity size first limit (e ∷ es) h = elim (Bool-cases (leb capacity size)) [
    | inl c ↦ rw c tt
    | inr c ↦
        elim (Bool-cases (same_key e.key first || (is_finite limit && d.lt limit e.objective))) [
          | inl k ↦ rw (c, k) (finish_from-All P capacity size first limit es h.1)
          | inr k ↦ rw (c, k) (h.0, finish_from-All P capacity (suc size) first limit es h.1)
        ]
  ]

  finish_from-Reported :
      (capacity size : ℕ) (first : List ℤ) (limit : D) (es : List (Entry D))
      → Distinct es
      → size ≤ capacity
      → let out = finish_from capacity size first limit es in
        Reported first limit out × (size + length out ≤ capacity)
  unfolding finish_from
  finish_from-Reported capacity size first limit [] h n = ((tt, tt), omega arith)
  finish_from-Reported capacity size first limit (e ∷ es) h n =
      elim (Bool-cases (leb capacity size)) [
        | inl c ↦ rw c ((tt, tt), omega arith)
        | inr c ↦
            elim (Bool-cases
              (same_key e.key first || (is_finite limit && d.lt limit e.objective))) [
                | inl k ↦ rw (c, k) (finish_from-Reported capacity size first limit es h.1 n)
                | inr k ↦
                    let ((distinct, each), fits) =
                      finish_from-Reported capacity (suc size) first limit es h.1 (ground arith) in
                    let new : same_key first e.key ≡ false =
                      ground (arith, same_key_sym first e.key) in
                    rw (c, k)
                      (
                        (
                          (finish_from-All _ capacity (suc size) first limit es h.0, distinct),
                          ((new, ground arith), each),
                        ),
                        omega arith,
                      )
              ]
      ]

  -- The report of a valid pool that keeps anything: the incumbent leads, it has no more members
  -- than the capacity, no two members are one assignment, and no member is beyond the gap's limit
  -- where that is finite.
  pub finish_lem :
      (llround : D → ℤ) (objective : D) (x : List D) (relative_gap : D) (p : SolutionPool D)
      → IsValid p
      → 1 ≤ p.capacity
      → let limit = d.add objective (d.mul relative_gap (Double.max d.one (d.abs objective))) in
        (first : Entry D) × (rest : List (Entry D)) × (finish llround objective x relative_gap p
          ≡ first ∷ rest)
        × (first.objective ≡ objective)
        × (first.x ≡ x)
        × Distinct (first ∷ rest)
        × (length (first ∷ rest) ≤ p.capacity)
        × All (λ e. (is_finite limit && d.lt limit e.objective) ≡ false) rest
  unfolding finish
  finish_lem llround objective x relative_gap p v hc =
      let key = key_of llround d.nought p.integer_columns x in
      let limit = d.add objective (d.mul relative_gap (Double.max d.one (d.abs objective))) in
      let rest = finish_from p.capacity 1 key limit p.entries in
      let keeps : (p.capacity == 0) ≡ false = ground arith in
      let ((distinct, each), fits) =
        finish_from-Reported p.capacity 1 key limit p.entries v.pool.distinct hc in
      (
        record { objective = objective; x = x; key = key },
        rest,
        rw keeps,
        refl,
        refl,
        (All-impl _ _ rest (λ e h. h.0) each, distinct),
        omega arith,
        All-impl _ _ rest (λ e h. h.1) each,
      )
