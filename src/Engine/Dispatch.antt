-- ===== src/Engine/Dispatch.antt =====
-- src/solver_engine/solver_engine_dispatch.cpp: validate, select, solve, and hold the answer to the
-- guards. `problem` is whether `Model::validate` found one, and `allocated` is what
-- `Solution::allocate_for` gives; the texts of the three refusals are left out.
use sih.Prelude.{
  Bool, true, false, ◌≡◌, none, some, List, refl, ◌∙◌, arith, if◌then◌else◌, Option-cases, inl, inr,
}
use sih.Prelude.Double.{Double, is_finite}
use sih.Engine.{Model, SolverEngine, Answer, solved, unsupported, wrapped_solve, supports, classify}
use sih.Engine.Select.{Request, select, is_lp}
use sih.Status.{optimal, model_error, not_solved}
use sih.Status.Guard.{
  Solution, Tolerances, reconcile_status_with_measurement, refuse_a_non_finite_answer, all_finite,
}
use sih.Status.Guard.Verdict.{IsSupported, IsSupported→same, reconcile-optimal_iff}

module _ {ℓ} {D : Type ℓ} ⦃d : Double D⦄ where
  -- `unsupported_class_result`
  pub engine_answer : Solution D → Answer (Solution D) → Solution D
  engine_answer allocated (solved s) = s
  engine_answer allocated (unsupported name c) = record allocated { status = not_solved }

  unfoldable pub solve :
      List (SolverEngine (Solution D))
      → Model
      → Request
      → Tolerances D
      → Bool
      → Solution D
      → Solution D
  unfolding engine_answer
  solve registry m r t problem allocated =
      if problem
      then record allocated { status = model_error }
      else (elim (select registry m r).engine [
        | none ↦ record allocated { status = not_solved }
        | some e ↦ refuse_a_non_finite_answer (
            reconcile_status_with_measurement (engine_answer allocated (wrapped_solve e m)) t
              (is_lp (classify m)))
      ])

  refuse-optimal :
      (s : Solution D)
      → (refuse_a_non_finite_answer s).status ≡ optimal
      → (refuse_a_non_finite_answer s ≡ s)
        × (is_finite s.objective ≡ true)
        × (all_finite s.col_value ≡ true)
  unfolding refuse_a_non_finite_answer
  refuse-optimal s h = ground arith

  wrapped_solve_supported :
      (e : SolverEngine (Solution D)) (m : Model) (allocated : Solution D)
      → (engine_answer allocated (wrapped_solve e m)).status ≡ optimal
      → (supports e m ≡ true) × (engine_answer allocated (wrapped_solve e m) ≡ e.solve)
  unfolding engine_answer wrapped_solve
  wrapped_solve_supported e m allocated h = ground arith

  -- What the two guards pass on as optimal is what they were given.
  guarded_optimal :
      (s : Solution D) (t : Tolerances D) (check_dual : Bool)
      → let r = refuse_a_non_finite_answer (reconcile_status_with_measurement s t check_dual) in
        r.status ≡ optimal
        → (r ≡ s)
          × (s.status ≡ optimal)
          × IsSupported s t check_dual
          × (is_finite s.objective ≡ true)
          × (all_finite s.col_value ≡ true)
  guarded_optimal s t check_dual h =
      let (kept, finite, numbers) =
        refuse-optimal (reconcile_status_with_measurement s t check_dual) h in
      let (claimed, supported) = (reconcile-optimal_iff s t check_dual).0 (rw kept at h) in
      let same : reconcile_status_with_measurement s t check_dual ≡ s =
        IsSupported→same s t check_dual claimed supported in
      (kept ∙ same, claimed, supported, rw same at finite, rw same at numbers)

  -- An answer is called optimal only for a model without a problem. It is then the answer of the
  -- engine that the selector chose, which accepts the model's class and called it optimal; its
  -- measured violations are within the tolerances, the dual ones on an LP, and its objective and
  -- values are finite. Each engine of the registry is taken to refuse a class that it does not accept,
  -- as the interface asks.
  pub solve_optimal :
      (registry : List (SolverEngine (Solution D))) (m : Model) (r : Request) (t : Tolerances D)
      (problem : Bool) (allocated : Solution D)
      → (solve registry m r t problem allocated).status ≡ optimal
      → (problem ≡ false)
        × (e : SolverEngine (Solution D)) × ((select registry m r).engine ≡ some e)
        × (supports e m ≡ true)
        × (solve registry m r t problem allocated ≡ e.solve)
        × IsSupported e.solve t (is_lp (classify m))
        × (is_finite e.solve.objective ≡ true)
        × (all_finite e.solve.col_value ≡ true)
  unfolding solve
  solve_optimal registry m r t true allocated h = cc
  solve_optimal registry m r t false allocated h =
      elim (Option-cases (select registry m r).engine) [
        | inl no_engine ↦ let claimed : not_solved ≡ optimal = rw no_engine at h in cc
        | inr (e, chosen) ↦
            let answered = engine_answer allocated (wrapped_solve e m) in
            let (same, claimed, supported, finite, numbers) =
              guarded_optimal answered t (is_lp (classify m)) (rw chosen at h) in
            let (supports_it, is_its) = wrapped_solve_supported e m allocated claimed in
            (
              refl,
              e,
              chosen,
              supports_it,
              rw chosen (same ∙ is_its),
              rw is_its at supported,
              rw is_its at finite,
              rw is_its at numbers,
            )
      ]
