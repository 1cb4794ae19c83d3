-- ===== src/Limits/Stop/Window.antt =====
-- Which reason is reported, and how often the callback runs.
use sih.Prelude.{ℕ, ◌+◌, ◌≤◌, ◌≡◌, ◌↔◌, ◌⊎◌, true, false, some, List, [], ◌∷◌, refl, arith}
use sih.Prelude.Double.{Double}
use sih.Status.{SolveStatus, interrupted, time_limit, claims_a_point}
use sih.Limits.{ResourceLimits, time_exhausted}
use sih.Limits.Stop.{SolveControl, Invocation, callback_due, stop_status, callback_interval, reset}

-- The checks of one solve, in order: the steady clock at each, and whether the callback was due.
pub fired : SolveControl → List ℕ → List ℕ
fired c [] = []
fired c (now ∷ later) = elim (callback_due c now).0 [
  | true ↦ now ∷ fired (callback_due c now).1 later
  | false ↦ fired (callback_due c now).1 later
]

-- Times that do not run backwards, from `start` on.
abbrev pub IsRunning : ℕ → List ℕ → Type 0
IsRunning start [] = Unit
IsRunning start (t ∷ ts) = (start ≤ t) × IsRunning t ts

-- Times that are a callback interval apart, from `last` on.
abbrev pub IsSpaced : ℕ → List ℕ → Type 0
IsSpaced last [] = Unit
IsSpaced last (t ∷ ts) = (last + callback_interval ≤ t) × IsSpaced t ts

fired_after :
    (c : SolveControl) (start : ℕ) (times : List ℕ)
    → c.callback_seen ≡ true
    → c.last_callback ≤ start
    → IsRunning start times
    → IsSpaced c.last_callback (fired c times)
unfolding fired callback_due
fired_after c start [] seen h r = tt
fired_after c start (now ∷ later) seen h (r, rs) = ground (
  arith,
  fired_after c now later seen,
  fired_after (record c { callback_seen = true; last_callback = now }) now later,
)

-- From a control that was reset, with a steady clock that does not run backwards, two callbacks of
-- one solve are at least 100 milliseconds apart, whatever the checks between them; and the first
-- check fires.
pub fired-IsSpaced :
    (c : SolveControl) (now : ℕ) (later : List ℕ)
    → IsRunning now later
    → (rest : List ℕ) × (fired (reset c) (now ∷ later) ≡ now ∷ rest) × IsSpaced now rest
unfolding fired callback_due reset
fired-IsSpaced c now later r =
    let c' = record c { interrupt_requested = false; callback_seen = true; last_callback = now } in
    (fired c' later, ground arith, fired_after c' now later refl (omega arith) r)

-- A callback is due at the first check after a reset, and an interval after the last one.
abbrev pub IsDue : SolveControl → ℕ → Type 0
IsDue c now = (c.callback_seen ≡ false) ⊎ (c.last_callback + callback_interval ≤ now)

-- What one invocation says that stops a solve.
abbrev pub AsksToStop : Invocation → Type 0
AsksToStop v = (v.nonzero ≡ true) ⊎ (v.interrupted_meanwhile ≡ true)

module _ {ℓ} {D : Type ℓ} ⦃d : Double D⦄ where
  -- The check runs the callback: there is one, it is due, and neither an interrupt nor the clock stops
  -- the solve before it.
  abbrev pub Runs : ResourceLimits D → D → ℕ → SolveControl → Type 0
  Runs l elapsed now c =
      (c.interrupt_requested ≡ false)
      × (time_exhausted l elapsed ≡ false)
      × (c.has_callback ≡ true)
      × IsDue c now

  -- A check says interrupted exactly where an interrupt was requested before, or where it runs the
  -- callback and that returns nonzero or an interrupt comes meanwhile; it says time limit exactly where
  -- no interrupt was requested before and the clock is exhausted; it says nothing else, and both claim a
  -- point. The callback is run where there is one, it is due, and nothing stops the solve before it: then
  -- its time is recorded, and else the control stays as it is. Afterwards an interrupt is on record
  -- exactly where the check says interrupted.
  pub stop_status_lem :
      (l : ResourceLimits D) (elapsed : D) (now : ℕ) (v : Invocation) (c : SolveControl)
      → let (status, c') = stop_status l elapsed now v c in
        ((status ≡ some interrupted)
          ↔ ((c.interrupt_requested ≡ true) ⊎ (Runs l elapsed now c × AsksToStop v)))
        × ((status ≡ some time_limit)
            ↔ ((c.interrupt_requested ≡ false) × (time_exhausted l elapsed ≡ true)))
        × ((s : SolveStatus)
            → status ≡ some s
            → ((s ≡ interrupted) ⊎ (s ≡ time_limit)) × (claims_a_point s ≡ true))
        × (Runs l elapsed now c → (c'.callback_seen ≡ true) × (c'.last_callback ≡ now))
        × (¬ Runs l elapsed now c → c' ≡ c)
        × ((c'.interrupt_requested ≡ true) ↔ (status ≡ some interrupted))
  unfolding stop_status claims_a_point
  stop_status_lem l elapsed now v c = (
    ground arith,
    ground arith,
    λ s h. ground arith,
    λ r. ground arith,
    λ r. ground arith,
    ground arith,
  )
