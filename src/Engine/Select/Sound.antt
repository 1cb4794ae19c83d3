-- ===== src/Engine/Select/Sound.antt =====
-- The engine that `select` returns over the built-in registry is one that can take the model.
use text.Mathlib.Text.{◌==◌}
use text.Mathlib.TextEquality.{eq_iff}
use sih.Prelude.{
  Bool, true, false, ◌&&◌, if◌then◌else◌, ◌≡◌, ◌≢◌, ◌⊎◌, Option, none, some, List, refl, arith,
  Bool-cases, inl, inr,
}
use sih.Engine.{lp, Model, SolverEngine, classify, accepts, supports}
use sih.Engine.Builtin.{
  Algorithms, StartingBasis, builtin, simplex_engine, dual_simplex_engine, pdhg_engine,
  pdhg_gpu_engine, ipm_engine, convex_qp_engine, branch_and_bound_engine, simplex_capabilities,
  pdhg_capabilities, pdhg_gpu_capabilities, ipm_capabilities, convex_qp_capabilities,
  branch_and_bound_capabilities,
}
use sih.Engine.Registry.{find, candidates, register_engine, register_all}
use sih.Engine.Rule.{select_engine-auto}
use sih.Engine.Select.{
  Request, select, select_lp, select_requested, should_use_gpu_pdhg, select_candidate, is_lp,
}

module _ {ℓ} {A : Type ℓ} where
  -- An engine is there, it accepts the model's class, and on an LP with a starting basis it can
  -- start from it.
  abbrev pub Suits : Model → Bool → Option (SolverEngine A) → Type 0
  Suits m warm_start none = ⊥
  Suits m warm_start (some e) =
      (supports e m ≡ true)
      × (classify m ≡ lp → warm_start ≡ true → e.capabilities.supports_warm_start ≡ true)

module _ {ℓ} {O A : Type ℓ} (algorithms : Algorithms O A) (effective : O → O) (options : O)
    (basis : StartingBasis) (m : Model) (gpu_is_safe : Bool) where
  abbrev built : Bool → List (SolverEngine A)
  built = builtin algorithms effective options basis m gpu_is_safe

  find-dual_simplex :
      (cuda : Bool)
      → find "dual-simplex" (built cuda)
        ≡ some (dual_simplex_engine algorithms effective options basis m gpu_is_safe)
  unfolding find builtin register_all register_engine
  find-dual_simplex true = refl
  find-dual_simplex false = refl

  find-ipm :
      (cuda : Bool)
      → find "ipm" (built cuda) ≡ some (ipm_engine algorithms effective options basis m gpu_is_safe)
  unfolding find builtin register_all register_engine
  find-ipm true = refl
  find-ipm false = refl

  find-pdhg :
      (cuda : Bool)
      → find "pdhg" (built cuda)
        ≡ some (pdhg_engine algorithms effective options basis m gpu_is_safe)
  unfolding find builtin register_all register_engine
  find-pdhg true = refl
  find-pdhg false = refl

  find-pdhg_gpu :
      find "pdhg-gpu" (built true)
      ≡ some (pdhg_gpu_engine algorithms effective options basis m gpu_is_safe)
  unfolding find builtin register_all register_engine
  find-pdhg_gpu = refl

  lp-supports :
      (e : SolverEngine A)
      → classify m ≡ lp
      → e.capabilities.accepts_lp ≡ true
      → supports e m ≡ true
  unfolding supports
  lp-supports e c h = ground arith

  upgrade_needs_cuda :
      (registry : List (SolverEngine A)) (r : Request) (rule_says_gpu : Bool)
      → should_use_gpu_pdhg registry m r rule_says_gpu ≡ true
      → r.cuda ≡ true
  unfolding should_use_gpu_pdhg
  upgrade_needs_cuda registry r rule_says_gpu h = ground arith

  -- The name that `select` looks up on an LP is "pdhg-gpu" only in a build that has that engine.
  find_upgraded :
      (r : Request) (rule_says_gpu : Bool)
      → classify m ≡ lp
      → Suits m false (
          find
            (if should_use_gpu_pdhg (built r.cuda) m r rule_says_gpu then "pdhg-gpu" else "pdhg")
            (built r.cuda))
  unfolding pdhg_engine pdhg_capabilities pdhg_gpu_engine pdhg_gpu_capabilities
  find_upgraded r rule_says_gpu c =
      elim (Bool-cases (should_use_gpu_pdhg (built r.cuda) m r rule_says_gpu)) [
        | inl u ↦
            rw (u, upgrade_needs_cuda (built r.cuda) r rule_says_gpu u, find-pdhg_gpu)
              (lp-supports _ c refl, λ _ cold. cc)
        | inr u ↦ rw (u, find-pdhg r.cuda) (lp-supports _ c refl, λ _ cold. cc)
      ]

  select_lp-Suits :
      (r : Request)
      → (r.algorithm == "auto") ≡ true
      → classify m ≡ lp
      → Suits m r.warm_start (select_lp (built r.cuda) m r).engine
  unfolding select_lp dual_simplex_engine simplex_capabilities ipm_engine ipm_capabilities
  select_lp-Suits r h c =
      let probed = r.cuda && r.device_available in
      let device = if r.cuda then r.device else "" in
      elim (select_engine-auto m r.algorithm r.warm_start probed device h) [
        | inl dual ↦ rw (dual, find-dual_simplex r.cuda) (lp-supports _ c refl, λ _ _. refl)
        | inr (cold, inl pdhg) ↦
            rw (pdhg, cold) (find_upgraded (record r { warm_start = false }) _ c)
        | inr (cold, inr ipm) ↦ rw (ipm, cold, find-ipm r.cuda) (lp-supports _ c refl, λ _ w. cc)
      ]

  select_candidate-Suits :
      (cuda warm_start : Bool) (r : Request)
      → is_lp (classify m) ≡ false
      → Suits m warm_start (select_candidate (built cuda) m r (candidates m (built cuda))).engine
  unfolding select_candidate candidates builtin register_all register_engine supports simplex_engine
      simplex_capabilities dual_simplex_engine pdhg_engine pdhg_capabilities pdhg_gpu_engine
      pdhg_gpu_capabilities ipm_engine ipm_capabilities convex_qp_engine convex_qp_capabilities
      branch_and_bound_engine branch_and_bound_capabilities
  select_candidate-Suits true warm_start r h = ground arith
  select_candidate-Suits false warm_start r h = ground arith

module _ {ℓ} {O A : Type ℓ} (algorithms : Algorithms O A) (effective : O → O) (options : O)
    (basis : StartingBasis) where
  -- With `algorithm=auto` an engine of the built-in registry is chosen for every model, on every
  -- build and machine; it accepts the model's class, and on an LP with a starting basis it is one
  -- that supports a warm start.
  pub select-auto-Suits :
      (m : Model) (r : Request)
      → r.algorithm ≡ "auto"
      → let registry = builtin algorithms effective options basis m r.gpu_is_safe r.cuda in
        Suits m r.warm_start (select registry m r).engine
  unfolding select
  select-auto-Suits m r h =
      let auto : (r.algorithm == "auto") ≡ true = (eq_iff r.algorithm "auto").1 h in
      elim (Bool-cases (is_lp (classify m))) [
        | inl l ↦
            rw (auto, l)
              (select_lp-Suits algorithms effective options basis m r.gpu_is_safe r auto
                (ground arith))
        | inr l ↦
            rw (auto, l)
              (select_candidate-Suits algorithms effective options basis m r.gpu_is_safe r.cuda
                r.warm_start r l)
      ]

module _ {ℓ} {A : Type ℓ} where
  -- An algorithm asked for by name, on any registry: an engine comes back exactly when the name is
  -- registered and that engine accepts the model's class, and it is that engine, or the GPU one in
  -- its place where PDHG was asked for.
  pub select-requested :
      (registry : List (SolverEngine A)) (m : Model) (r : Request)
      → r.algorithm ≢ "auto"
      → let chosen = (select registry m r).engine in
        (find r.algorithm registry ≡ none → chosen ≡ none)
        × ((named : SolverEngine A)
            → find r.algorithm registry ≡ some named
            → (accepts named.capabilities (classify m) ≡ false → chosen ≡ none)
              × (accepts named.capabilities (classify m) ≡ true
                  → (chosen ≡ some named)
                    ⊎ ((named.name ≡ "pdhg")
                        × (r.gpu ≡ true)
                        × (r.gpu_is_safe ≡ true)
                        × (chosen ≡ find "pdhg-gpu" registry)
                        × (chosen ≢ none))))
  unfolding select select_requested should_use_gpu_pdhg
  select-requested registry m r h =
      let named : (r.algorithm == "auto") ≡ false = ground (arith, eq_iff r.algorithm "auto") in
      (ground arith, λ e f. (ground arith, λ a. ground (arith, eq_iff e.name "pdhg")))
