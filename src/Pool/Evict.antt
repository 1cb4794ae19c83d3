-- ===== src/Pool/Evict.antt =====
-- Eviction removes one member, and never the best of two or more.
use sih.Prelude.{
  ℕ, zero, suc, ◌+◌, ◌-◌, ◌≤◌, ◌<◌, ◌≡◌, Bool, not, ◌||◌, ltb, Option, none, List, [], ◌∷◌, refl,
  ap, arith, inl, inr, Bool-cases, length, erase_at, length-erase_at,
}
use sih.Pool.{Entry, victim, nearest, at_most, pop_back, evict_one, evict_down}

module _ {ℓ} {D : Type ℓ} where
  victim_bounds :
      (all : List (Entry D)) (k : ℕ) (es : List (Entry D)) (best : ℕ) (near : Option ℕ) (top : ℕ)
      → 1 ≤ k
      → k + length es ≤ top
      → 1 ≤ best
      → best < top
      → (1 ≤ victim all k es best near) × (victim all k es best near < top)
  unfolding victim
  victim_bounds all k [] best near top hk ht hb hm = (hb, hm)
  victim_bounds all k (e ∷ es) best near top hk ht hb hm =
      elim (Bool-cases (at_most (nearest e.key k 0 all none) near)) [
        | inl c ↦
            rw c (victim_bounds all (suc k) es k _ top (omega arith) (omega arith) hk (omega arith))
        | inr c ↦ rw c (victim_bounds all (suc k) es best _ top (omega arith) (omega arith) hb hm)
      ]

  pop_back-erase_at :
      (e : Entry D) (es : List (Entry D)) → pop_back (e ∷ es) ≡ erase_at (e ∷ es) (length es)
  unfolding pop_back
  pop_back-erase_at e [] = refl
  pop_back-erase_at e (e' ∷ es) = ap (◌∷◌ e) (pop_back-erase_at e' es)

  -- Of two members or more the best stays, and some other one goes.
  evict_one-erase_at :
      (diversity : Bool) (best e : Entry D) (es : List (Entry D))
      → (i : ℕ) × (i < length (e ∷ es))
        × (evict_one diversity (best ∷ e ∷ es) ≡ best ∷ erase_at (e ∷ es) i)
  unfolding evict_one pop_back
  evict_one-erase_at diversity best e es =
      let all : List (Entry D) = best ∷ e ∷ es in
      let v = victim all 1 (e ∷ es) (length (e ∷ es)) none in
      let (low, high) =
        victim_bounds all 1 (e ∷ es) (length (e ∷ es)) none (length all) (omega arith) (omega arith)
          (omega arith) (omega arith) in
      let step : v ≡ suc (v - 1) = omega arith in
      elim (Bool-cases (not diversity || ltb (length all) 3)) [
        | inl c ↦ (length es, omega arith, rw c (ap (◌∷◌ best) (pop_back-erase_at e es)))
        | inr c ↦ (v - 1, omega arith, rw c (ap (erase_at all) step))
      ]

  -- What survives a removal of any member but the first survives the whole eviction, which ends
  -- with no more than `capacity` members.
  pub evict_down_inv {κ} :
      (P : List (Entry D) → Type κ)
      → ((e : Entry D) (es : List (Entry D)) (i : ℕ) → P (e ∷ es) → P (e ∷ erase_at es i))
      → (diversity : Bool) (capacity fuel : ℕ) (best : Entry D) (es : List (Entry D)) → 1 ≤ capacity
      → length (best ∷ es) ≤ fuel + capacity
      → P (best ∷ es)
      → (rest : List (Entry D)) × (evict_down diversity capacity fuel (best ∷ es) ≡ best ∷ rest)
        × P (best ∷ rest)
        × (length (best ∷ rest) ≤ capacity)
  unfolding evict_down
  evict_down_inv P keep diversity capacity zero best es hc hl p = (es, refl, p, omega arith)
  evict_down_inv P keep diversity capacity (suc fuel) best [] hc hl p =
      ([], ground arith, p, omega arith)
  evict_down_inv P keep diversity capacity (suc fuel) best (e ∷ es) hc hl p =
      let (i, hi, gone) = evict_one-erase_at diversity best e es in
      let size = length-erase_at (e ∷ es) i hi in
      elim (Bool-cases (ltb capacity (length (best ∷ e ∷ es)))) [
        | inl c ↦
            rw (c, gone)
              (evict_down_inv P keep diversity capacity fuel best (erase_at (e ∷ es) i) hc
                (omega arith) (keep best (e ∷ es) i p))
        | inr c ↦ (e ∷ es, rw c, p, ground arith)
      ]
