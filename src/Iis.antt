-- ===== src/Iis.antt =====
-- src/core/iis.cpp: the deletion filter that finds an irreducible infeasible subsystem. A working
-- sub-model is the list of its active elements, the rest being free; the solver on a sub-model, the
-- re-proof of a certificate and the tests of a bound are parameters.
use sih.Prelude.{
  ℕ, zero, suc, ◌+◌, Bool, true, false, not, ◌&&◌, ◌||◌, ◌==◌, List, [], ◌∷◌, ◌++◌, map,
  if◌then◌else◌, length, get_or,
}
use sih.Prelude.Double
use sih.Prelude.Double.{Double, eq}
use sih.Status.{SolveStatus, optimal, feasible, infeasible, claims_a_point}
pub mod Sound

-- A row, or one side of a column's bounds.
pub data Element : Type 0 where
  row col_lo col_hi : ℕ → Element

-- What a solve of a sub-model gives.
pub record Trial {ℓ} (D : Type ℓ) : Type ℓ where
  pub status : SolveStatus
  pub farkas_dual : List D
  pub col_value : List D

-- The part of the model that the filter reads: its columns as (row, value) entries, and which of
-- the bounds are finite.
pub record Shape {ℓ} (D : Type ℓ) : Type ℓ where
  pub num_rows : ℕ
  pub columns : List (List (ℕ × D))
  pub lower_is_finite : List Bool
  pub upper_is_finite : List Bool

-- An element that stays, with the point of its trial.
abbrev pub Member {ℓ} : Type ℓ → Type ℓ
Member D = record { element : Element; witness : List D }

abbrev pub elements {ℓ} : {D : Type ℓ} → List (Member D) → List Element
elements = map (λ m. m.element)

-- `is_redundant`: whether the candidate goes, and whether the trial was inconclusive.
abbrev pub is_redundant : SolveStatus → Bool × Bool
is_redundant infeasible = (true, false)
is_redundant optimal = (false, false)
is_redundant feasible = (false, false)
is_redundant _ = (false, true)

abbrev pub is_infeasible : SolveStatus → Bool
is_infeasible infeasible = true
is_infeasible _ = false

pub record Iis {ℓ} (D : Type ℓ) : Type ℓ where
  pub members : List (Member D)
  pub farkas_dual : List D
  pub witnesses_claimed : Bool
  pub inconclusive : Bool

module _ {ℓ} {D : Type ℓ} ⦃d : Double D⦄ where
  -- One column of `d = A'y`, and the largest term so far.
  pub aggregate_column : List D → List (ℕ × D) → D → D → D × D
  aggregate_column y [] sum scale = (sum, scale)
  aggregate_column y ((i, v) ∷ entries) sum scale =
      let term = d.mul v (get_or y i d.nought) in
      aggregate_column y entries (d.add sum term) (Double.max scale (d.abs term))

  pub aggregate : List D → List (List (ℕ × D)) → D → List D × D
  aggregate y [] scale = ([], scale)
  aggregate y (c ∷ cs) scale =
      let (sum, scale') = aggregate_column y c d.nought scale in
      let (rest, last) = aggregate y cs scale' in (sum ∷ rest, last)

  pub row_candidates : ℕ → List D → List Element
  row_candidates i [] = []
  row_candidates i (y ∷ ys) =
      let rest = row_candidates (suc i) ys in if not (eq y d.nought) then row i ∷ rest else rest

  -- `side` tells the aggregates that lean on this side of the bounds.
  pub bound_candidates : (ℕ → Element) → (D → Bool) → ℕ → List D → List Bool → List Element
  bound_candidates element side j (dj ∷ ds) (finite ∷ fs) =
      let rest = bound_candidates element side (suc j) ds fs in
      if side dj && finite then element j ∷ rest else rest
  bound_candidates element side j _ _ = []

  -- The support of the certificate: rows, then lower bounds, then upper bounds.
  unfoldable pub candidates : D → Shape D → List D → List Element
  unfolding row_candidates bound_candidates aggregate aggregate_column
  candidates zero_drop shape y =
      let (ds, scale) = aggregate y shape.columns d.nought in
      let threshold = d.mul zero_drop (Double.max d.one scale) in
      row_candidates 0 y
      ++ (bound_candidates col_lo (λ dj. d.lt dj (d.neg threshold)) 0 ds shape.lower_is_finite
          ++ bound_candidates col_hi (λ dj. d.lt threshold dj) 0 ds shape.upper_is_finite)

unfoldable pub every_witness {ℓ} : {D : Type ℓ} → ℕ → List (Member D) → Bool
every_witness columns [] = true
every_witness columns (m ∷ ms) = length m.witness == columns && every_witness columns ms

module _ {ℓ} {D : Type ℓ} (solve : List Element → Trial D) where
  -- The three loops, over the candidates in order: those kept so far, those still to try.
  unfoldable pub deletion_filter : List Element → List Element → List (Member D) × Bool
  unfolding claims_a_point
  deletion_filter kept [] = ([], false)
  deletion_filter kept (e ∷ rest) =
      let trial = solve (kept ++ rest) in
      let dropped = deletion_filter kept rest in
      let (later, unsure) = deletion_filter (kept ++ e ∷ []) rest in
      let (redundant, inconclusive) = is_redundant trial.status in
      let point : List D = if claims_a_point trial.status then trial.col_value else [] in
      if redundant
      then dropped
      else (record { element = e; witness = point } ∷ later, inconclusive || unsure)

  -- Steps 3 to 5, from the candidates and the full model's certificate.
  unfoldable pub filter_iis : (List D → Bool) → Shape D → List D → List Element → Iis D
  filter_iis proves shape y found =
      let (members, unsure) = deletion_filter [] found in
      let final_trial = solve (elements members) in
      let certified =
        is_infeasible final_trial.status
        && length final_trial.farkas_dual == shape.num_rows
        && proves final_trial.farkas_dual in
      let inconclusive =
        unsure || not certified || not (every_witness (length shape.columns) members) in
      record {
        members = members;
        farkas_dual = if certified then final_trial.farkas_dual else y;
        witnesses_claimed = not inconclusive;
        inconclusive = inconclusive;
      }
