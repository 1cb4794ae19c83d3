-- ===== src/Engine/Rule.antt =====
-- src/core/engine_selection.cpp: the rule table behind `algorithm=auto`. The reason, a sentence for
-- the log, is left out.
use Prim.Native.String.{String}
use text.Mathlib.Text.{◌==◌}
use sih.Prelude.{ℕ, ◌≡◌, ◌⊎◌, arith, Bool, true, false, not, ◌&&◌, leb, if◌then◌else◌}
use sih.Engine.{Model}

pub record EngineSelection : Type 0 where
  pub algorithm : String
  pub rule : String
  pub rows : ℕ
  pub columns : ℕ
  pub nonzeros : ℕ
  pub warm_start : Bool
  pub use_gpu : Bool

abbrev pub dual_simplex_row_limit : ℕ
dual_simplex_row_limit = 20_000

abbrev pub ipm_nonzero_floor : ℕ
ipm_nonzero_floor = 100_000

abbrev pub pdhg_row_floor : ℕ
pdhg_row_floor = 100_000

-- The device's description is empty where none was found.
unfoldable pub select_engine : Model → String → Bool → Bool → String → EngineSelection
select_engine m requested warm_start gpu_available gpu_device =
    if not (requested == "auto")
    then answer requested "requested" false
    else if warm_start
    then answer "dual-simplex" "warm-start" false
    else if leb pdhg_row_floor m.num_rows
    then (if gpu_available && not (gpu_device == "")
        then answer "pdhg" "size:pdhg-gpu" true
        else answer "pdhg" "size:pdhg" false)
    else if leb dual_simplex_row_limit m.num_rows
    then answer "ipm" "size:ipm" false
    else if leb ipm_nonzero_floor m.num_nonzeros
    then answer "ipm" "density:ipm" false
    else answer "dual-simplex" "default:dual-simplex" false
  where
    answer : String → String → Bool → EngineSelection
    answer algorithm rule use_gpu = record {
      algorithm = algorithm;
      rule = rule;
      rows = m.num_rows;
      columns = m.num_cols;
      nonzeros = m.num_nonzeros;
      warm_start = warm_start;
      use_gpu = use_gpu;
    }

-- With `algorithm=auto` the table names one of three engines, and a warm start leads to the dual
-- simplex.
pub select_engine-auto :
    (m : Model) (requested : String) (warm_start gpu : Bool) (device : String)
    → (requested == "auto") ≡ true
    → let chosen = (select_engine m requested warm_start gpu device).algorithm in
      (chosen ≡ "dual-simplex") ⊎ ((warm_start ≡ false) × ((chosen ≡ "pdhg") ⊎ (chosen ≡ "ipm")))
unfolding select_engine
select_engine-auto m requested warm_start gpu device h = rw h (ground arith)
