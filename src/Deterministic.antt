-- ===== src/Deterministic.antt =====
-- src/core/deterministic_mode.cpp: the rewrite that takes the clock out of every decision. The
-- options that it does not touch are one value of any type.
use sih.Prelude.{Bool, true, false, not, List, [], ◌∷◌, ◌++◌, ◌≡◌, arith, if◌then◌else◌}
use sih.Prelude.Double.{Double, eq}
use sih.Prelude.Int.{ℤ, pos, ℤ_eq}

pub record Options {ℓ} (D : Type ℓ) (R : Type ℓ) : Type ℓ where
  pub deterministic : Bool
  pub time_limit : D
  pub polish_max_seconds : D
  pub threads : ℤ
  pub others : R

-- The registry's defaults of the options that the rewrite compares with.
pub record Defaults {ℓ} (D : Type ℓ) : Type ℓ where
  pub time_limit : D
  pub polish_max_seconds : D
  pub threads : ℤ

pub data Warning : Type 0 where
  time_limit_refused polish_refused threads_kept : Warning

module _ {ℓ} {D R : Type ℓ} ⦃d : Double D⦄ (defaults : Defaults D) where
  unfoldable pub apply_deterministic_mode : Options D R → Options D R × List Warning
  apply_deterministic_mode o =
      let limited = not (eq o.time_limit defaults.time_limit) in
      let polished = not (eq o.polish_max_seconds defaults.polish_max_seconds) in
      let chosen = not (ℤ_eq o.threads defaults.threads) in
      if not o.deterministic then (o, []) else (
        record o {
          time_limit = if limited then defaults.time_limit else o.time_limit;
          polish_max_seconds = d.largest;
          threads = if chosen then o.threads else pos 1;
        },
        (if limited then time_limit_refused ∷ [] else [])
            ++ ((if polished then polish_refused ∷ [] else [])
                ++ (if chosen then threads_kept ∷ [] else [])),
      )

  -- In deterministic mode two requests that differ only in the two options that read the clock run
  -- under the same options, where the default time limit is the only value equal to itself as a
  -- double; outside the mode a request is left as it is and nothing is warned of.
  pub apply_deterministic_mode_lem :
      (o : Options D R) (limit polish : D)
      → ((t : D) → eq t defaults.time_limit ≡ true → t ≡ defaults.time_limit)
      → let other = record o { time_limit = limit; polish_max_seconds = polish } in
        (o.deterministic ≡ true
          → (apply_deterministic_mode o).0 ≡ (apply_deterministic_mode other).0)
        × (o.deterministic ≡ false → apply_deterministic_mode o ≡ (o, []))
  unfolding apply_deterministic_mode
  apply_deterministic_mode_lem o limit polish exact = (
    λ h.
        let first : (apply_deterministic_mode o).0.time_limit ≡ defaults.time_limit =
          ground (arith, exact o.time_limit) in
        let second : (apply_deterministic_mode
              (record o { time_limit = limit; polish_max_seconds = polish })).0.time_limit
            ≡ defaults.time_limit =
          ground (arith, exact limit) in
        ground arith,
    ground arith,
  )
