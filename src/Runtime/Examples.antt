-- ===== src/Runtime/Examples.antt =====
-- Writes of a script that interleave, and a script that goes on to schedule tasks.
use botloader.Prelude.{◌+◌, ◌*◌, ◌≤◌, ◌≡◌, true, some, List, [], ◌∷◌}
use botloader.Runtime.Storage.{Calls, no_calls, Event, begins, answers, looks, deletes, steps}
use botloader.Runtime.Metering.{steps-metered}

abbrev writes : List Event
writes = begins ∷ begins ∷ answers (some 5) ∷ looks ∷ begins ∷ deletes 1 ∷ begins ∷ []

steps-metered_example :
    let c = steps 100 writes no_calls in
    (c.checkers ≤ 1) × (c.fast + c.state.requests_until_limit_check ≡ 10 * c.good_checks)
steps-metered_example = steps-metered 100 writes

abbrev at_limit : Calls
at_limit = record no_calls {
  state = record no_calls.state { hit_limit = true };
  waiters = 1;
  fast = 3;
}
