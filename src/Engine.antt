-- ===== src/Engine.antt =====
-- src/solver_engine: the interface that every engine implements, and what an engine declares.
-- Of a model the selection reads four numbers and two facts; an engine's answer to the model at
-- hand is a value of any type.
use Prim.Native.String.{String}
use sih.Prelude.{ℕ, Bool, not, if◌then◌else◌}
pub mod Registry
pub mod Builtin
pub mod Rule
pub mod Select
pub mod Dispatch

pub data ProblemClass : Type 0 where
  lp milp qp miqp : ProblemClass

pub record Model : Type 0 where
  pub num_rows : ℕ
  pub num_cols : ℕ
  pub num_nonzeros : ℕ
  pub has_integrality : Bool
  pub has_quadratic_objective : Bool

unfoldable pub classify : Model → ProblemClass
classify m =
    if m.has_integrality
    then (if m.has_quadratic_objective then miqp else milp)
    else if m.has_quadratic_objective
    then qp
    else lp

unfoldable pub class_to_string : ProblemClass → String
class_to_string lp = "LP"
class_to_string milp = "MILP"
class_to_string qp = "QP"
class_to_string miqp = "MIQP"

pub record EngineCapabilities : Type 0 where
  pub accepts_lp : Bool
  pub accepts_milp : Bool
  pub accepts_qp : Bool
  pub accepts_miqp : Bool
  pub supports_gpu : Bool
  pub supports_warm_start : Bool
  pub supports_duals : Bool
  pub supports_basis : Bool
  pub supports_certificates : Bool
  pub supports_interrupt : Bool
  pub supports_deterministic_mode : Bool

unfoldable pub accepts : EngineCapabilities → ProblemClass → Bool
accepts c lp = c.accepts_lp
accepts c milp = c.accepts_milp
accepts c qp = c.accepts_qp
accepts c miqp = c.accepts_miqp

-- `solve` is what the engine's underlying algorithm answers for the model at hand.
pub record SolverEngine {ℓ} (A : Type ℓ) : Type ℓ where
  pub name : String
  pub capabilities : EngineCapabilities
  pub solve : A

unfoldable pub supports {ℓ} : {A : Type ℓ} → SolverEngine A → Model → Bool
unfolding classify accepts
supports e m = accepts e.capabilities (classify m)

-- What an answer is, apart from the algorithm's own: the message of `unsupported_class_result`.
pub data Answer {ℓ} (A : Type ℓ) : Type ℓ where
  solved : A → Answer A
  unsupported : String → ProblemClass → Answer A

-- What the interface asks of `solve` for a class that the engine does not accept; each built-in wrapper
-- starts with this guard, and an engine of another origin is taken to meet it.
unfoldable pub wrapped_solve {ℓ} : {A : Type ℓ} → SolverEngine A → Model → Answer A
unfolding supports
wrapped_solve e m = if not (supports e m) then unsupported e.name (classify m) else solved e.solve
