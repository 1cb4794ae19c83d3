-- ===== src/Limits.antt =====
-- src/core/resource_limits.cpp: the limits that one solve runs under. The three options that the
-- constructor reads are its arguments, and the options that it warns of are a result.
use sih.Prelude.{Bool, true, false, ◌&&◌, ◌||◌, List, [], ◌∷◌, ◌++◌, if◌then◌else◌}
use sih.Prelude.Double.{Double, is_nan, is_finite, sub}
use sih.Prelude.Int.{ℤ, pos, negsuc, leb_ℤ, ltb_ℤ}
use sih.Status.{LimitReason, unstopped, time, iterations, nodes}
pub mod Read
pub mod Stop

pub record ResourceLimits {ℓ} (D : Type ℓ) : Type ℓ where
  pub has_time_limit : Bool
  pub time_limit : D
  pub iteration_limit : ℤ
  pub node_limit : ℤ

-- The options that the constructor warns of.
pub data Refused : Type 0 where
  time_limit_refused iteration_limit_refused node_limit_refused : Refused

-- An iteration or node limit as the constructor keeps it; -1 means no limit.
pub read_count : ℤ → Refused → ℤ × List Refused
read_count n why = if ltb_ℤ n (negsuc 0) then (negsuc 0, why ∷ []) else (n, [])

abbrev count_exhausted : ℤ → ℤ → Bool
count_exhausted limit done = leb_ℤ (pos 0) limit && leb_ℤ limit done

module _ {ℓ} {D : Type ℓ} ⦃d : Double D⦄ where
  -- The time limit as the constructor keeps it.
  pub read_time : D → Bool × D × List Refused
  read_time seconds =
      if is_nan seconds || d.lt seconds d.nought
      then (false, d.nought, time_limit_refused ∷ [])
      else if is_finite seconds && d.lt seconds d.largest
      then (true, seconds, [])
      else (false, d.nought, [])

  unfoldable pub resource_limits : D → ℤ → ℤ → ResourceLimits D × List Refused
  unfolding read_time read_count
  resource_limits seconds iteration_option node_option =
      let (bounded, limit, warned) = read_time seconds in
      let (iteration_limit, warned_iterations) =
        read_count iteration_option iteration_limit_refused in
      let (node_limit, warned_nodes) = read_count node_option node_limit_refused in
      (
        record {
          has_time_limit = bounded;
          time_limit = limit;
          iteration_limit = iteration_limit;
          node_limit = node_limit;
        },
        warned ++ (warned_iterations ++ warned_nodes),
      )

  unfoldable pub time_exhausted : ResourceLimits D → D → Bool
  time_exhausted l elapsed =
      if l.has_time_limit then d.le l.time_limit d.nought || d.lt l.time_limit elapsed else false

  unfoldable pub iterations_exhausted : ResourceLimits D → ℤ → Bool
  iterations_exhausted l done = count_exhausted l.iteration_limit done

  unfoldable pub nodes_exhausted : ResourceLimits D → ℤ → Bool
  nodes_exhausted l done = count_exhausted l.node_limit done

  unfoldable pub exhausted : ResourceLimits D → D → ℤ → ℤ → LimitReason
  unfolding time_exhausted iterations_exhausted nodes_exhausted
  exhausted l elapsed done_iterations done_nodes =
      if time_exhausted l elapsed
      then time
      else if iterations_exhausted l done_iterations
      then iterations
      else if nodes_exhausted l done_nodes
      then nodes
      else unstopped

  unfoldable pub remaining_seconds : ResourceLimits D → D → D
  remaining_seconds l elapsed =
      let left = sub l.time_limit elapsed in
      if l.has_time_limit then (if d.lt d.nought left then left else d.nought) else d.largest
