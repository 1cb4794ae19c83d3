-- ===== src/Status.antt =====
-- How a solve ends: `SolveStatus` and `LimitReason` of include/sankhya/model.hpp, and what
-- src/core/resource_limits.cpp and src/core/model.cpp say of them.
use Prim.Native.String.{String}
use sih.Prelude.{Bool, true, false}
pub mod Guard

-- `kNone` is `unstopped`.
pub data LimitReason : Type 0 where
  unstopped interrupt time iterations nodes : LimitReason

pub data SolveStatus : Type 0 where
  not_solved optimal infeasible unbounded infeasible_or_unbounded feasible : SolveStatus
  iteration_limit time_limit node_limit numerical_error model_error interrupted : SolveStatus

unfoldable pub reason_to_string : LimitReason → String
reason_to_string unstopped = "none"
reason_to_string interrupt = "user_interrupt"
reason_to_string time = "time_limit"
reason_to_string iterations = "iteration_limit"
reason_to_string nodes = "node_limit"

unfoldable pub status_to_string : SolveStatus → String
status_to_string not_solved = "not_solved"
status_to_string optimal = "optimal"
status_to_string infeasible = "infeasible"
status_to_string unbounded = "unbounded"
status_to_string infeasible_or_unbounded = "infeasible_or_unbounded"
status_to_string feasible = "feasible"
status_to_string iteration_limit = "iteration_limit"
status_to_string time_limit = "time_limit"
status_to_string node_limit = "node_limit"
status_to_string numerical_error = "numerical_error"
status_to_string model_error = "model_error"
status_to_string interrupted = "interrupted"

unfoldable pub status_for : LimitReason → SolveStatus
status_for unstopped = not_solved
status_for interrupt = interrupted
status_for time = time_limit
status_for iterations = iteration_limit
status_for nodes = node_limit

unfoldable pub claims_a_point : SolveStatus → Bool
claims_a_point optimal = true
claims_a_point feasible = true
claims_a_point unbounded = true
claims_a_point iteration_limit = true
claims_a_point time_limit = true
claims_a_point node_limit = true
claims_a_point interrupted = true
claims_a_point _ = false
