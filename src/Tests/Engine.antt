-- ===== src/Tests/Engine.antt =====
-- src/solver_engine and src/core/deterministic_mode.cpp on the built-in engines, whose algorithms
-- answer with one solution each.
use Prim.Native.String.{String}
use text.Mathlib.Text.{◌==◌}
use text.Mathlib.TextEquality.{eq_iff}
use sih.Prelude.{
  ℕ, true, false, ◌≡◌, ◌≢◌, ◌⊎◌, none, some, List, [], ◌∷◌, refl, arith, if◌then◌else◌,
}
use sih.Prelude.Double.{Extended, nan, low, high, num, is_finite, eq, extended_double}
use sih.Prelude.Int.{pos, negsuc}
use sih.Status.{optimal}
use sih.Status.Guard.{
  Solution, Tolerances, all_finite, reconcile_status_with_measurement, refuse_a_non_finite_answer,
}
use sih.Status.Guard.Verdict.{IsSupported}
use sih.Deterministic.{Options, Defaults, apply_deterministic_mode, apply_deterministic_mode_lem}
use sih.Engine.{Model, wrapped_solve, SolverEngine, classify, accepts, supports}
use sih.Engine.Builtin.{StartingBasis, Algorithms, builtin, ipm_capabilities, simplex_capabilities}
use sih.Engine.Registry.{register_all, register_engine, find, HasUniqueNames, register_engine_lem}
use sih.Engine.Select.{Request, select, is_lp}
use sih.Engine.Select.Sound.{Suits, select-auto-Suits, select-requested}
use sih.Engine.Dispatch.{solve, solve_optimal}

abbrev model : Model
model = record {
  num_rows = 20;
  num_cols = 30;
  num_nonzeros = 90;
  has_integrality = false;
  has_quadratic_objective = false;
}

abbrev request : String → Request
request algorithm = record {
  algorithm = algorithm;
  gpu = false;
  warm_start = true;
  cuda = false;
  device_available = false;
  device = "";
  gpu_is_safe = false;
}

abbrev answer : Solution Extended
answer = record {
  status = optimal;
  objective = num (pos 7);
  dual_bound = num (pos 7);
  col_value = num (pos 1) ∷ [];
  row_activity = [];
  primal_infeasibility_scaled = num (pos 0);
  integrality_violation = num (pos 0);
  dual_infeasibility_scaled = num (pos 0);
  complementarity_violation = num (pos 0);
  message = [];
}

abbrev tolerances : Tolerances Extended
tolerances = record {
  primal = num (pos 1);
  dual = num (pos 1);
  integrality = num (pos 1);
  complementarity_limit = num (pos 1);
}

abbrev algorithms : Algorithms ℕ (Solution Extended)
algorithms = record {
  primal_simplex = λ o. answer;
  primal_simplex_warm = λ o. answer;
  dual_simplex = λ o. answer;
  dual_simplex_warm = λ o. answer;
  pdhg = λ o. answer;
  pdhg_gpu = λ o. answer;
  ipm = λ o. answer;
  convex_qp = λ o. answer;
  branch_and_bound = λ o. answer;
  verified = λ s. s;
}

abbrev no_basis : StartingBasis
no_basis = record { col_statuses = 0; row_statuses = 0 }

abbrev engines : List (SolverEngine (Solution Extended))
engines = builtin algorithms (λ o. o) 0 no_basis model false false

solve_optimal_example :
    let answered = solve engines model (request "ipm") tolerances false answer in
    (false ≡ false)
    × (e : SolverEngine (Solution Extended)) × ((select engines model (request "ipm")).engine
        ≡ some e)
    × (supports e model ≡ true)
    × (answered ≡ e.solve)
    × IsSupported e.solve tolerances (is_lp (classify model))
    × (is_finite e.solve.objective ≡ true)
    × (all_finite e.solve.col_value ≡ true)
unfolding solve select find builtin register_all register_engine accepts classify ipm_capabilities
    refuse_a_non_finite_answer reconcile_status_with_measurement wrapped_solve all_finite
solve_optimal_example = solve_optimal engines model (request "ipm") tolerances false answer refl

select-auto-Suits_example : Suits model true (select engines model (request "auto")).engine
select-auto-Suits_example =
    select-auto-Suits algorithms (λ o. o) 0 no_basis model (request "auto") refl

select-requested_example :
    let chosen = (select engines model (request "ipm")).engine in
    (find "ipm" engines ≡ none → chosen ≡ none)
    × ((named : SolverEngine (Solution Extended))
        → find "ipm" engines ≡ some named
        → (accepts named.capabilities (classify model) ≡ false → chosen ≡ none)
          × (accepts named.capabilities (classify model) ≡ true
              → (chosen ≡ some named)
                ⊎ ((named.name ≡ "pdhg")
                    × (false ≡ true)
                    × (false ≡ true)
                    × (chosen ≡ find "pdhg-gpu" engines)
                    × (chosen ≢ none))))
select-requested_example =
    select-requested engines model (request "ipm") (ground (arith, eq_iff "ipm" "auto"))

abbrev first_engine : SolverEngine ℕ
first_engine = record { name = "ipm"; capabilities = simplex_capabilities; solve = 1 }

abbrev options : Options Extended ℕ
options = record {
  deterministic = true;
  time_limit = num (pos 60);
  polish_max_seconds = num (pos 10);
  threads = pos 8;
  others = 3;
}

abbrev defaults : Defaults Extended
defaults = record { time_limit = num (pos 9); polish_max_seconds = num (pos 5); threads = pos 0 }

nine_exact : (t : Extended) → eq t (num (pos 9)) ≡ true → t ≡ num (pos 9)
nine_exact nan h = absurd cc
nine_exact low h = absurd cc
nine_exact high h = absurd cc
nine_exact (num (pos n)) h = ground arith
nine_exact (num (negsuc n)) h = ground arith

apply_deterministic_mode_lem_example :
    let other = record options { time_limit = num (pos 30); polish_max_seconds = num (pos 20) } in
    (true ≡ true
      → (apply_deterministic_mode defaults options).0 ≡ (apply_deterministic_mode defaults other).0)
    × (true ≡ false → apply_deterministic_mode defaults options ≡ (options, []))
apply_deterministic_mode_lem_example =
    apply_deterministic_mode_lem defaults options (num (pos 30)) (num (pos 20)) nine_exact

replacement : SolverEngine ℕ
replacement = record first_engine { solve = 2 }

register_engine_lem_example :
    ((name : String)
      → find name (register_engine replacement (first_engine ∷ []))
        ≡ (if replacement.name == name then some replacement else find name (first_engine ∷ [])))
    × HasUniqueNames (register_engine replacement (first_engine ∷ []))
register_engine_lem_example = register_engine_lem replacement (first_engine ∷ []) (tt, tt)
