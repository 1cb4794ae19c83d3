-- ===== src/Engine/Builtin.antt =====
-- src/solver_engine/builtin_engines.cpp: the wrappers over the algorithms, and what each declares.
-- The answers of the underlying algorithms are parameters.
use sih.Prelude.{ℕ, Bool, true, false, not, ◌&&◌, ◌||◌, ◌==◌, List, [], ◌∷◌, ◌++◌, if◌then◌else◌}
use sih.Engine.{Model, EngineCapabilities, SolverEngine}
use sih.Engine.Registry.{register_all}

-- The lengths of `SolveControl`'s starting basis.
pub record StartingBasis : Type 0 where
  pub col_statuses : ℕ
  pub row_statuses : ℕ

-- `has_starting_basis`, and one status for each column and row of this model.
unfoldable pub usable_basis : StartingBasis → Model → Bool
usable_basis b m =
    (not (b.col_statuses == 0) || not (b.row_statuses == 0))
    && b.col_statuses == m.num_cols
    && b.row_statuses == m.num_rows

-- What each underlying algorithm answers under given options.
pub record Algorithms {ℓ} (O A : Type ℓ) : Type ℓ where
  pub primal_simplex : O → A
  pub primal_simplex_warm : O → A
  pub dual_simplex : O → A
  pub dual_simplex_warm : O → A
  pub pdhg : O → A
  pub pdhg_gpu : O → A
  pub ipm : O → A
  pub convex_qp : O → A
  pub branch_and_bound : O → A
  -- `verify_and_keep_certificate`
  pub verified : A → A

abbrev common_capabilities : EngineCapabilities
common_capabilities = record {
  accepts_lp = false;
  accepts_milp = false;
  accepts_qp = false;
  accepts_miqp = false;
  supports_gpu = false;
  supports_warm_start = false;
  supports_duals = false;
  supports_basis = false;
  supports_certificates = false;
  supports_interrupt = true;
  supports_deterministic_mode = true;
}

unfoldable pub simplex_capabilities : EngineCapabilities
simplex_capabilities = record common_capabilities {
  accepts_lp = true;
  supports_warm_start = true;
  supports_duals = true;
  supports_basis = true;
  supports_certificates = true;
}

unfoldable pub pdhg_capabilities : EngineCapabilities
pdhg_capabilities = record common_capabilities { accepts_lp = true; supports_duals = true }

unfoldable pub pdhg_gpu_capabilities : EngineCapabilities
pdhg_gpu_capabilities = record common_capabilities { accepts_lp = true; supports_gpu = true }

unfoldable pub ipm_capabilities : EngineCapabilities
ipm_capabilities = record common_capabilities {
  accepts_lp = true;
  supports_duals = true;
  supports_basis = true;
}

unfoldable pub convex_qp_capabilities : EngineCapabilities
convex_qp_capabilities = record common_capabilities { accepts_qp = true }

unfoldable pub branch_and_bound_capabilities : EngineCapabilities
branch_and_bound_capabilities = record common_capabilities {
  accepts_milp = true;
  accepts_miqp = true;
}

module _ {ℓ} {O A : Type ℓ} (algorithms : Algorithms O A) (effective : O → O) where
  open algorithms use {
    primal_simplex, primal_simplex_warm, dual_simplex, dual_simplex_warm, pdhg, pdhg_gpu, ipm,
    convex_qp, branch_and_bound, verified,
  }

  module _ (options : O) (basis : StartingBasis) (m : Model) (gpu_is_safe : Bool) where
    unfoldable pub simplex_engine : SolverEngine A
    simplex_engine = record {
      name = "simplex";
      capabilities = simplex_capabilities;
      solve = verified (
          if usable_basis basis m
          then primal_simplex_warm (effective options)
          else primal_simplex (effective options));
    }

    unfoldable pub dual_simplex_engine : SolverEngine A
    dual_simplex_engine = record {
      name = "dual-simplex";
      capabilities = simplex_capabilities;
      solve = verified (
          if usable_basis basis m
          then dual_simplex_warm (effective options)
          else dual_simplex (effective options));
    }

    unfoldable pub pdhg_engine : SolverEngine A
    pdhg_engine = record {
      name = "pdhg";
      capabilities = pdhg_capabilities;
      solve = pdhg (effective options);
    }

    -- Built only with CUDA; a device that the shared guard refuses falls back to the CPU.
    unfoldable pub pdhg_gpu_engine : SolverEngine A
    pdhg_gpu_engine = record {
      name = "pdhg-gpu";
      capabilities = pdhg_gpu_capabilities;
      solve = if not gpu_is_safe then pdhg (effective options) else pdhg_gpu (effective options);
    }

    unfoldable pub ipm_engine : SolverEngine A
    ipm_engine = record {
      name = "ipm";
      capabilities = ipm_capabilities;
      solve = ipm (effective options);
    }

    unfoldable pub convex_qp_engine : SolverEngine A
    convex_qp_engine = record {
      name = "convex-qp";
      capabilities = convex_qp_capabilities;
      solve = convex_qp (effective options);
    }

    unfoldable pub branch_and_bound_engine : SolverEngine A
    branch_and_bound_engine = record {
      name = "branch-and-bound";
      capabilities = branch_and_bound_capabilities;
      solve = branch_and_bound (effective options);
    }

    -- `register_builtin_engines`; the flag is `SANKHYA_ENABLE_CUDA`.
    unfoldable pub builtin : Bool → List (SolverEngine A)
    unfolding simplex_engine dual_simplex_engine pdhg_engine pdhg_gpu_engine ipm_engine
        convex_qp_engine branch_and_bound_engine
    builtin cuda =
        register_all
          (simplex_engine
            ∷ dual_simplex_engine
            ∷ pdhg_engine
            ∷ ((if cuda then pdhg_gpu_engine ∷ [] else [])
                ++ ipm_engine ∷ convex_qp_engine ∷ branch_and_bound_engine ∷ []))
          []
