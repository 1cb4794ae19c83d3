-- ===== src/Engine/Select.antt =====
-- src/solver_engine/solver_selector.cpp: the engine for a model under the options. `cuda` is
-- `SANKHYA_ENABLE_CUDA`, and the device's probe and the shared guard's verdict are arguments.
use Prim.Native.String.{String}
use text.Mathlib.Text.{◌==◌}
use sih.Prelude.{
  Bool, true, false, not, ◌&&◌, ◌||◌, Option, none, some, List, [], ◌∷◌, if◌then◌else◌,
}
use sih.Engine.{ProblemClass, lp, milp, qp, miqp, Model, SolverEngine, classify, accepts, supports}
use sih.Engine.Registry.{find, candidates}
use sih.Engine.Rule.{select_engine}
pub mod Sound

pub record EngineChoice {ℓ} (A : Type ℓ) : Type ℓ where
  pub engine : Option (SolverEngine A)
  pub rule : String

-- What `select` reads of the options and of the machine.
pub record Request : Type 0 where
  pub algorithm : String
  pub gpu : Bool
  pub warm_start : Bool
  pub cuda : Bool
  pub device_available : Bool
  pub device : String
  pub gpu_is_safe : Bool

abbrev pub is_lp : ProblemClass → Bool
is_lp lp = true
is_lp _ = false

module _ {ℓ} {A : Type ℓ} (registry : List (SolverEngine A)) (m : Model) (r : Request) where
  pub should_use_gpu_pdhg : Bool → Bool
  should_use_gpu_pdhg rule_says_gpu =
      if not r.cuda
      then false
      else if not rule_says_gpu
      then false
      else (elim (find "pdhg-gpu" registry) [ none ↦ false | some e ↦ r.gpu_is_safe ])

  -- An algorithm asked for by name.
  pub select_requested : Option (SolverEngine A) → EngineChoice A
  select_requested none = record { engine = none; rule = "unregistered" }
  select_requested (some named) =
      if not (accepts named.capabilities (classify m))
      then record { engine = none; rule = "unsupported" }
      else record {
        engine =
            if named.name == "pdhg" && should_use_gpu_pdhg r.gpu
            then find "pdhg-gpu" registry
            else some named;
        rule = (select_engine m r.algorithm r.warm_start false "").rule;
      }

  pub select_lp : EngineChoice A
  select_lp =
      let chosen =
        select_engine m r.algorithm r.warm_start (r.cuda && r.device_available)
          (if r.cuda then r.device else "") in
      record {
        engine =
            find
              (if chosen.algorithm == "pdhg" && should_use_gpu_pdhg (chosen.use_gpu || r.gpu)
                then "pdhg-gpu"
                else chosen.algorithm)
              registry;
        rule = chosen.rule;
      }

  pub select_candidate : List (SolverEngine A) → EngineChoice A
  select_candidate [] = record { engine = none; rule = "no-candidate" }
  select_candidate (e ∷ es) = record { engine = some e; rule = "only-candidate" }

  unfoldable pub select : EngineChoice A
  unfolding should_use_gpu_pdhg select_requested select_lp select_candidate
  select =
      if not (r.algorithm == "auto")
      then select_requested (find r.algorithm registry)
      else if is_lp (classify m)
      then select_lp
      else select_candidate (candidates m registry)
