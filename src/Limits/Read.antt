-- ===== src/Limits/Read.antt =====
-- How the constructor of `ResourceLimits` reads the three options, against the documented meaning.
use sih.Prelude.{ℕ, Bool, false, not, ◌||◌, ◌&&◌, ◌≡◌, arith, leb}
use sih.Prelude.Double.{Double, is_nan, is_finite}
use sih.Prelude.Int.{ℤ, pos, negsuc}
use sih.Limits.{resource_limits, time_exhausted, iterations_exhausted, nodes_exhausted}

-- The documented meaning of a counter's option once `done` steps are done: a negative option never
-- stops the solve, and `n` stops it when `n` steps are done.
abbrev pub stops_count : ℤ → ℕ → Bool
stops_count (pos n) done = leb n done
stops_count (negsuc _) done = false

module _ {ℓ} {D : Type ℓ} ⦃d : Double D⦄ where
  -- A duration: not NaN, not negative, and below the no-limit sentinel.
  abbrev pub is_duration : D → Bool
  is_duration s = not (is_nan s) && not (d.lt s d.nought) && is_finite s && d.lt s d.largest

  abbrev pub stops_clock : D → D → Bool
  stops_clock seconds elapsed =
      is_duration seconds && (d.le seconds d.nought || d.lt seconds elapsed)

  -- The limits read from the options stop a solve exactly where the documentation says that the
  -- options do: the clock, the iterations and the nodes, for every value of the options.
  pub resource_limits_meaning :
      (seconds elapsed : D) (iterations nodes : ℤ) (done : ℕ)
      → let l = (resource_limits seconds iterations nodes).0 in
        (time_exhausted l elapsed ≡ stops_clock seconds elapsed)
        × (iterations_exhausted l (pos done) ≡ stops_count iterations done)
        × (nodes_exhausted l (pos done) ≡ stops_count nodes done)
  unfolding resource_limits time_exhausted iterations_exhausted nodes_exhausted
  resource_limits_meaning seconds elapsed iterations nodes done =
      (ground arith, ground arith, ground arith)
