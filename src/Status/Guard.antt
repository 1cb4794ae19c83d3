-- ===== src/Status/Guard.antt =====
-- The two guards of src/core/solve.cpp that hold an engine's claim against its measured point.
-- Of a `Solution` the record keeps the fields that the guards read or write; a message is the list
-- of its parts.
use sih.Prelude.{ℕ, Bool, true, false, not, ◌&&◌, ◌||◌, List, [], ◌∷◌, ◌++◌, if◌then◌else◌}
use sih.Prelude.Double.{Double, is_finite}
use sih.Status.{
  SolveStatus, optimal, feasible, iteration_limit, time_limit, node_limit, interrupted,
  numerical_error, claims_a_point,
}
pub mod Verdict

-- The texts that the guards append to a message.
pub data Detail : Type 0 where
  primal_violation fractional_column dual_violation complementarity : Detail
  no_point_found not_a_number : Detail
  from_engine : ℕ → Detail

pub record Solution {ℓ} (D : Type ℓ) : Type ℓ where
  pub status : SolveStatus
  pub objective : D
  pub dual_bound : D
  pub col_value : List D
  pub row_activity : List D
  pub primal_infeasibility_scaled : D
  pub integrality_violation : D
  pub dual_infeasibility_scaled : D
  pub complementarity_violation : D
  pub message : List Detail

pub record Tolerances {ℓ} (D : Type ℓ) : Type ℓ where
  pub primal : D
  pub dual : D
  pub integrality : D
  pub complementarity_limit : D

-- `status == kOptimal`
abbrev pub is_optimal : SolveStatus → Bool
is_optimal optimal = true
is_optimal _ = false

abbrev pub claims_a_conclusion : SolveStatus → Bool
claims_a_conclusion optimal = true
claims_a_conclusion feasible = true
claims_a_conclusion _ = false

abbrev pub stopped_on_a_limit : SolveStatus → Bool
stopped_on_a_limit time_limit = true
stopped_on_a_limit iteration_limit = true
stopped_on_a_limit node_limit = true
stopped_on_a_limit interrupted = true
stopped_on_a_limit _ = false

module _ {ℓ} {D : Type ℓ} ⦃d : Double D⦄ where
  abbrev pub downgrade : Solution D → SolveStatus → Detail → Solution D
  downgrade s status detail = record s { status = status; message = s.message ++ detail ∷ [] }

  -- The two dual checks, which end in a feasible point.
  pub check_dual_claims : Solution D → Tolerances D → Solution D
  check_dual_claims s t =
      let s' =
        if is_optimal s.status && d.lt t.dual s.dual_infeasibility_scaled
        then downgrade s feasible dual_violation
        else s in
      if is_optimal s'.status && d.lt t.complementarity_limit s'.complementarity_violation
      then downgrade s' feasible complementarity
      else s'

  unfoldable pub reconcile_status_with_measurement : Solution D → Tolerances D → Bool → Solution D
  unfolding check_dual_claims claims_a_point
  reconcile_status_with_measurement s t check_dual =
      if not (claims_a_point s.status)
      then s
      else if not (claims_a_conclusion s.status)
      then s
      else if d.lt t.primal s.primal_infeasibility_scaled
      then downgrade s numerical_error primal_violation
      else if d.lt t.integrality s.integrality_violation
      then downgrade s numerical_error fractional_column
      else if check_dual
      then check_dual_claims s t
      else s

  unfoldable pub all_finite : List D → Bool
  all_finite [] = true
  all_finite (v ∷ vs) = is_finite v && all_finite vs

  -- `std::isinf`
  abbrev pub is_infinite : D → Bool
  is_infinite x = d.le d.infinity (d.abs x)

  unfoldable pub refuse_a_non_finite_answer : Solution D → Solution D
  unfolding claims_a_point
  refuse_a_non_finite_answer s =
      if not (claims_a_point s.status)
      then s
      else if stopped_on_a_limit s.status && all_finite s.col_value && is_infinite s.objective
      then record s {
        col_value = [];
        row_activity = [];
        message = s.message ++ no_point_found ∷ [];
      }
      else if is_finite s.objective && all_finite s.col_value
      then s
      else record s {
        message = s.message ++ not_a_number ∷ [];
        status = numerical_error;
        col_value = [];
        row_activity = [];
        objective = d.nought;
        dual_bound = d.nought;
      }
