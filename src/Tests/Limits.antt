-- ===== src/Tests/Limits.antt =====
-- src/core/resource_limits.cpp and src/core/stop_controller.hpp on exact integers.
use sih.Prelude.{ℕ, ◌↔◌, ◌⊎◌, true, false, ◌≡◌, some, List, [], ◌∷◌, refl, arith}
use sih.Prelude.Double.{extended_double, Extended, num, nan}
use sih.Prelude.Int.{pos, negsuc, ◌+ℤ◌, ◌-ℤ◌}
use sih.Status.{SolveStatus, interrupted, time_limit, claims_a_point, time}
use sih.Limits.{
  ResourceLimits, resource_limits, time_exhausted, iterations_exhausted, nodes_exhausted, exhausted,
  remaining_seconds,
}
use sih.Limits.Read.{stops_clock, stops_count, resource_limits_meaning}
use sih.Limits.Stop.{SolveControl, Invocation, reset, stop_status}
use sih.Limits.Stop.Window.{fired, IsSpaced, fired-IsSpaced, Runs, AsksToStop, stop_status_lem}

abbrev three : ResourceLimits Extended
three = record {
  has_time_limit = true;
  time_limit = num (pos 60);
  iteration_limit = pos 3;
  node_limit = negsuc 0;
}

abbrev control : SolveControl
control = record {
  interrupt_requested = false;
  has_callback = true;
  callback_seen = true;
  last_callback = 10;
}

reads : (resource_limits {D = Extended} (num (pos 60)) (pos 3) (negsuc 0)).0 ≡ three
unfolding resource_limits
reads = refl

time_first : exhausted three (num (pos 61)) (pos 3) (pos 0) ≡ time
unfolding exhausted
time_first = refl

leaves_nothing : remaining_seconds three (num (pos 61)) ≡ num (pos 0)
unfolding remaining_seconds ◌+ℤ◌ ◌-ℤ◌
leaves_nothing = refl

resource_limits_meaning_example :
    let l = (resource_limits {D = Extended} (num (pos 0)) (negsuc 4) (pos 2)).0 in
    (time_exhausted l nan ≡ stops_clock {D = Extended} (num (pos 0)) nan)
    × (iterations_exhausted l (pos 9) ≡ stops_count (negsuc 4) 9)
    × (nodes_exhausted l (pos 9) ≡ stops_count (pos 2) 9)
resource_limits_meaning_example =
    resource_limits_meaning {D = Extended} (num (pos 0)) nan (negsuc 4) (pos 2) 9

fired-IsSpaced_example :
    (rest : List ℕ) × (fired (reset control) (5 ∷ 50 ∷ 105 ∷ 300 ∷ []) ≡ 5 ∷ rest) × IsSpaced 5 rest
fired-IsSpaced_example = fired-IsSpaced control 5 (50 ∷ 105 ∷ 300 ∷ []) (omega arith)

-- The callback is due, and returns nonzero.
abbrev refusing : Invocation
refusing = record { nonzero = true; interrupted_meanwhile = false }

stopped_by_callback : (stop_status three (num (pos 5)) 200 refusing control).0 ≡ some interrupted
unfolding stop_status
stopped_by_callback = refl

stop_status_lem_example :
    let (status, c') = stop_status three (num (pos 5)) 200 refusing control in
    ((status ≡ some interrupted)
      ↔ ((false ≡ true) ⊎ (Runs three (num (pos 5)) 200 control × AsksToStop refusing)))
    × ((status ≡ some time_limit) ↔ ((false ≡ false) × (time_exhausted three (num (pos 5)) ≡ true)))
    × ((s : SolveStatus)
        → status ≡ some s
        → ((s ≡ interrupted) ⊎ (s ≡ time_limit)) × (claims_a_point s ≡ true))
    × (Runs three (num (pos 5)) 200 control → (c'.callback_seen ≡ true) × (c'.last_callback ≡ 200))
    × (¬ Runs three (num (pos 5)) 200 control → c' ≡ control)
    × ((c'.interrupt_requested ≡ true) ↔ (status ≡ some interrupted))
stop_status_lem_example = stop_status_lem three (num (pos 5)) 200 refusing control
