-- ===== src/Tests/Status.antt =====
-- src/core/solve.cpp: the two guards, on answers measured in exact integers.
use sih.Prelude.{true, false, ◌≡◌, ◌⊎◌, ◌↔◌, [], ◌∷◌, refl}
use sih.Prelude.Double.{extended_double, Extended, num, high, nan, is_finite}
use sih.Prelude.Int.{pos, negsuc, ◌-ℤ◌}
use sih.Status.{optimal, feasible, numerical_error, claims_a_point, time_limit}
use sih.Status.Guard.{
  Solution, Tolerances, reconcile_status_with_measurement, refuse_a_non_finite_answer, all_finite,
  is_infinite, stopped_on_a_limit, dual_violation, no_point_found,
}
use sih.Status.Guard.Verdict.{
  IsSupported, reconcile-optimal_iff, reconcile_weakens, reconcile_idem, refuse-IsClean,
}

abbrev tolerances : Tolerances Extended
tolerances = record {
  primal = num (pos 1);
  dual = num (pos 1);
  integrality = num (pos 1);
  complementarity_limit = num (pos 1);
}

abbrev answer : Solution Extended
answer = record {
  status = optimal;
  objective = num (pos 7);
  dual_bound = num (pos 7);
  col_value = num (pos 3) ∷ num (negsuc 1) ∷ [];
  row_activity = num (pos 1) ∷ [];
  primal_infeasibility_scaled = num (pos 0);
  integrality_violation = num (pos 1);
  dual_infeasibility_scaled = num (pos 5);
  complementarity_violation = num (pos 0);
  message = [];
}

abbrev limited : Solution Extended
limited = record answer { status = time_limit; objective = high }

falls_to_feasible :
    (reconcile_status_with_measurement answer tolerances true
      ≡ record answer { status = feasible; message = dual_violation ∷ [] })
    × (reconcile_status_with_measurement answer tolerances false ≡ answer)
unfolding reconcile_status_with_measurement
falls_to_feasible = (refl, refl)

loses_its_point :
    (refuse_a_non_finite_answer limited
      ≡ record limited { col_value = []; row_activity = []; message = no_point_found ∷ [] })
    × ((refuse_a_non_finite_answer (record answer { objective = nan })).status ≡ numerical_error)
unfolding refuse_a_non_finite_answer all_finite ◌-ℤ◌
loses_its_point = (refl, refl)

reconcile-optimal_iff_example :
    ((reconcile_status_with_measurement answer tolerances false).status ≡ optimal)
    ↔ ((optimal ≡ optimal) × IsSupported answer tolerances false)
reconcile-optimal_iff_example = reconcile-optimal_iff answer tolerances false

reconcile_weakens_example :
    let r = reconcile_status_with_measurement answer tolerances true in
    ((r.status ≡ optimal)
      ⊎ ((r.status ≡ numerical_error) ⊎ ((optimal ≡ optimal) × (r.status ≡ feasible))))
    × (r.col_value ≡ num (pos 3) ∷ num (negsuc 1) ∷ [])
    × (r.objective ≡ num (pos 7))
reconcile_weakens_example = reconcile_weakens answer tolerances true

reconcile_idem_example :
    let r = reconcile_status_with_measurement answer tolerances true in
    reconcile_status_with_measurement r tolerances true ≡ r
reconcile_idem_example = reconcile_idem answer tolerances true

refuse-IsClean_example :
    let r = refuse_a_non_finite_answer limited in
    ((is_finite r.objective ≡ true) × (all_finite r.col_value ≡ true))
    ⊎ ((r.col_value ≡ [])
        × (r.row_activity ≡ [])
        × (stopped_on_a_limit r.status ≡ true)
        × (is_infinite r.objective ≡ true))
unfolding refuse_a_non_finite_answer all_finite claims_a_point ◌-ℤ◌
refuse-IsClean_example = refuse-IsClean limited refl
