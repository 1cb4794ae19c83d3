-- ===== src/Limits/Stop.antt =====
-- src/core/stop_controller.hpp and the callback window of include/sankhya/solve_control.hpp. The
-- steady clock is in milliseconds; the callback is a function of the check, whose result says what
-- it returned and whether an interrupt was requested meanwhile.
use sih.Prelude.{
  ℕ, zero, suc, ◌+◌, ◌-◌, ◌≤◌, ◌<◌, Bool, true, false, not, ◌&&◌, ◌||◌, Option, none, some, List,
  [], ◌∷◌, if◌then◌else◌, ltb,
}
use sih.Prelude.Double.{Double}
use sih.Status.{LimitReason, interrupt, time, SolveStatus, status_for}
use sih.Limits.{ResourceLimits, time_exhausted}
pub mod Window

pub record SolveControl : Type 0 where
  pub interrupt_requested : Bool
  pub has_callback : Bool
  pub callback_seen : Bool
  pub last_callback : ℕ

-- What one invocation of the progress callback did.
pub record Invocation : Type 0 where
  pub nonzero : Bool
  pub interrupted_meanwhile : Bool

abbrev pub callback_interval : ℕ
callback_interval = 100

pub callback_due : SolveControl → ℕ → Bool × SolveControl
callback_due c now =
    if c.callback_seen && ltb (now - c.last_callback) callback_interval
    then (false, c)
    else (true, record c { callback_seen = true; last_callback = now })

unfoldable pub reset : SolveControl → SolveControl
reset c = record c { interrupt_requested = false; callback_seen = false }

-- After a callback that was due, in a control whose window is already recorded.
pub after_callback : SolveControl → Invocation → Option LimitReason × SolveControl
after_callback c v =
    let c' = record c { interrupt_requested = c.interrupt_requested || v.interrupted_meanwhile } in
    if v.nonzero
    then (some interrupt, record c' { interrupt_requested = true })
    else if c'.interrupt_requested
    then (some interrupt, c')
    else (none, c')

module _ {ℓ} {D : Type ℓ} ⦃d : Double D⦄ where
  -- `none` is `false`, go on; the control is `nullptr` in the second function.
  unfoldable pub should_stop :
      ResourceLimits D → D → ℕ → Invocation → SolveControl → Option LimitReason × SolveControl
  unfolding time_exhausted callback_due after_callback
  should_stop l elapsed now v c =
      let (due, c') = callback_due c now in
      if c.interrupt_requested
      then (some interrupt, c)
      else if time_exhausted l elapsed
      then (some time, c)
      else if c.has_callback
      then (if due then after_callback c' v else (none, c'))
      else (none, c)

  unfoldable pub should_stop_uncontrolled : ResourceLimits D → D → Option LimitReason
  unfolding time_exhausted
  should_stop_uncontrolled l elapsed = if time_exhausted l elapsed then some time else none

  -- The status form.
  unfoldable pub stop_status :
      ResourceLimits D → D → ℕ → Invocation → SolveControl → Option SolveStatus × SolveControl
  unfolding should_stop status_for
  stop_status l elapsed now v c =
      let (reason, c') = should_stop l elapsed now v c in
      (elim reason [ none ↦ none | some r ↦ some (status_for r) ], c')
