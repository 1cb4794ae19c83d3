-- ===== src/Iis/Sound.antt =====
-- What the reported subsystem's witnesses show.
use sih.Prelude.{
  Bool, true, false, ◌||◌, ◌≡◌, ◌⊎◌, List, [], ◌∷◌, ◌++◌, arith, Bool-cases, inl, inr, All,
  All-append, All-split,
}
use sih.Status.{SolveStatus, optimal, feasible, infeasible, claims_a_point}
use sih.Iis.{Element, Trial, Shape, Member, is_redundant, elements, deletion_filter, filter_iis}

module _ {ℓ} {D : Type ℓ} (solve : List Element → Trial D) (Sat : List D → Element → Type 0) where
  -- A solver that claims a point of a sub-model hands over one that meets every active element.
  abbrev pub GivesPoints : Type 0
  GivesPoints =
      (active : List Element)
      → ((solve active).status ≡ optimal) ⊎ ((solve active).status ≡ feasible)
      → All (Sat (solve active).col_value) active

  -- Each witness meets every member but its own.
  abbrev pub Irreducible : List Element → List (Member D) → Type 0
  Irreducible before [] = Unit
  Irreducible before (m ∷ ms) =
      All (Sat m.witness) (before ++ elements ms) × Irreducible (before ++ m.element ∷ []) ms

  -- What holds of every candidate holds of every one that stays.
  deletion_filter-All :
      (P : Element → Type 0) (kept rest : List Element)
      → All P rest
      → All P (elements (deletion_filter solve kept rest).0)
  unfolding deletion_filter
  deletion_filter-All P kept [] h = tt
  deletion_filter-All P kept (e ∷ rest) h =
      elim (Bool-cases (is_redundant (solve (kept ++ rest)).status).0) [
        | inl c ↦ rw c (deletion_filter-All P kept rest h.1)
        | inr c ↦ rw c (h.0, deletion_filter-All P (kept ++ e ∷ []) rest h.1)
      ]

  conclusive :
      (s : SolveStatus)
      → (is_redundant s).0 ≡ false
      → (is_redundant s).1 ≡ false
      → ((s ≡ optimal) ⊎ (s ≡ feasible)) × (claims_a_point s ≡ true)
  unfolding claims_a_point
  conclusive s h k = ground arith

  deletion_filter-Irreducible :
      (kept rest : List Element)
      → GivesPoints
      → (deletion_filter solve kept rest).1 ≡ false
      → Irreducible kept (deletion_filter solve kept rest).0
  unfolding deletion_filter
  deletion_filter-Irreducible kept [] g h = tt
  deletion_filter-Irreducible kept (e ∷ rest) g h =
      let s = (solve (kept ++ rest)).status in
      elim (Bool-cases (is_redundant s).0) [
        | inl c ↦ rw c (deletion_filter-Irreducible kept rest g (rw c at h))
        | inr c ↦
            let sure : ((is_redundant s).1 || (deletion_filter solve (kept ++ e ∷ []) rest).1)
                ≡ false =
              rw c at h in
            let (point, claims) = conclusive s c (ground arith) in
            let (before, after) = All-split _ kept rest (g (kept ++ rest) point) in
            rw (c, claims)
              (
                All-append _ kept _ before (
                    deletion_filter-All (Sat (solve (kept ++ rest)).col_value) (kept ++ e ∷ []) rest
                      after),
                deletion_filter-Irreducible (kept ++ e ∷ []) rest g (ground arith),
              )
      ]

  -- When the filter does not call its result inconclusive: the solver found the reported subsystem
  -- infeasible and its certificate was proved again on the full model, every member is one of the
  -- candidates, and the witness of each member meets all the others, so that none can be left out.
  -- The solver is assumed to give a point that meets every active element where it claims one.
  pub filter_iis-Irreducible :
      (proves : List D → Bool) (shape : Shape D) (y : List D) (found : List Element)
      → GivesPoints
      → let iis = filter_iis solve proves shape y found in
        iis.inconclusive ≡ false
        → ((solve (elements iis.members)).status ≡ infeasible)
          × (proves iis.farkas_dual ≡ true)
          × Irreducible [] iis.members
          × ((P : Element → Type 0) → All P found → All P (elements iis.members))
  unfolding filter_iis
  filter_iis-Irreducible proves shape y found g h =
      let members = (deletion_filter solve [] found).0 in
      let final_trial = solve (elements members) in
      (
        ground arith,
        ground arith,
        deletion_filter-Irreducible [] found g (ground arith),
        λ P. deletion_filter-All P [] found,
      )
