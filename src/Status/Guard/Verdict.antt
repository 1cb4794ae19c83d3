-- ===== src/Status/Guard/Verdict.antt =====
-- What a claim is worth after the guards of src/core/solve.cpp.
use sih.Prelude.{Bool, true, false, [], ◌≡◌, ◌⊎◌, ◌↔◌, refl, arith}
use sih.Prelude.Double.{Double, is_finite}
use sih.Status.{optimal, feasible, numerical_error, claims_a_point}
use sih.Status.Guard.{
  Solution, Tolerances, reconcile_status_with_measurement, refuse_a_non_finite_answer, all_finite,
  is_infinite, stopped_on_a_limit,
}

module _ {ℓ} {D : Type ℓ} ⦃d : Double D⦄ where
  -- What an optimal claim rests on.
  pub record IsSupported (s : Solution D) (t : Tolerances D) (check_dual : Bool) : Type 0 where
    pub primal_ok : d.lt t.primal s.primal_infeasibility_scaled ≡ false
    pub integral_ok : d.lt t.integrality s.integrality_violation ≡ false
    pub dual_ok : check_dual ≡ true → d.lt t.dual s.dual_infeasibility_scaled ≡ false
    pub slackness_ok :
        check_dual ≡ true → d.lt t.complementarity_limit s.complementarity_violation ≡ false

  optimal→IsSupported :
      (s : Solution D) (t : Tolerances D) (check_dual : Bool)
      → (reconcile_status_with_measurement s t check_dual).status ≡ optimal
      → (s.status ≡ optimal) × IsSupported s t check_dual
  unfolding reconcile_status_with_measurement
  optimal→IsSupported s t check_dual h = (
    ground arith,
    record {
      primal_ok = ground arith;
      integral_ok = ground arith;
      dual_ok = ground arith;
      slackness_ok = ground arith;
    },
  )

  pub IsSupported→same :
      (s : Solution D) (t : Tolerances D) (check_dual : Bool)
      → s.status ≡ optimal
      → IsSupported s t check_dual
      → reconcile_status_with_measurement s t check_dual ≡ s
  unfolding reconcile_status_with_measurement
  IsSupported→same s t true e h = ground (arith, h.dual_ok refl, h.slackness_ok refl)
  IsSupported→same s t false e h = ground arith

  -- The reconciled answer is called optimal exactly when the engine called it optimal and no
  -- measured violation exceeds its tolerance, the two dual measures only where they are checked.
  pub reconcile-optimal_iff :
      (s : Solution D) (t : Tolerances D) (check_dual : Bool)
      → ((reconcile_status_with_measurement s t check_dual).status ≡ optimal)
        ↔ ((s.status ≡ optimal) × IsSupported s t check_dual)
  reconcile-optimal_iff s t check_dual =
      (optimal→IsSupported s t check_dual, λ h. rw (IsSupported→same s t check_dual h.0 h.1) h.0)

  -- The guard never strengthens a claim: the status stays, or becomes a numerical error, or falls
  -- from optimal to feasible. The point itself is left alone.
  pub reconcile_weakens :
      (s : Solution D) (t : Tolerances D) (check_dual : Bool)
      → let r = reconcile_status_with_measurement s t check_dual in
        ((r.status ≡ s.status)
          ⊎ ((r.status ≡ numerical_error) ⊎ ((s.status ≡ optimal) × (r.status ≡ feasible))))
        × (r.col_value ≡ s.col_value)
        × (r.objective ≡ s.objective)
  unfolding reconcile_status_with_measurement
  reconcile_weakens s t check_dual = ground arith

  -- Reconciling twice is reconciling once.
  pub reconcile_idem :
      (s : Solution D) (t : Tolerances D) (check_dual : Bool)
      → let r = reconcile_status_with_measurement s t check_dual in
        reconcile_status_with_measurement r t check_dual ≡ r
  unfolding reconcile_status_with_measurement
  reconcile_idem s t check_dual = ground arith

  -- An answer that still claims a point after the second guard holds finite values alone and has a
  -- finite objective, or it is a limited search with no point and an infinite objective.
  pub refuse-IsClean :
      (s : Solution D)
      → let r = refuse_a_non_finite_answer s in
        claims_a_point r.status ≡ true
        → ((is_finite r.objective ≡ true) × (all_finite r.col_value ≡ true))
          ⊎ ((r.col_value ≡ [])
              × (r.row_activity ≡ [])
              × (stopped_on_a_limit r.status ≡ true)
              × (is_infinite r.objective ≡ true))
  unfolding refuse_a_non_finite_answer
  refuse-IsClean s h = ground arith
