-- ===== src/IntervalTimers/Examples.antt =====
-- A manager with one timer that is due and one that is not.
use botloader.Prelude.{◌≡◌, ◌≢◌, refl, none, some, [], ◌∷◌}
use botloader.ScheduledTasks.{run}
use botloader.IntervalTimers.{
  minutes, minutes_type, IntervalManager, new, script_started, WrappedIntervalTimer, trigger_timers,
  next_action,
}
use botloader.IntervalTimers.Keyed.{initial, next, started, next_action-settled}

abbrev cleanup : WrappedIntervalTimer
cleanup = record {
  inner = record { name = "cleanup"; interval = minutes 5; last_run = 0 };
  parsed_type = minutes_type 5;
  next_run = 300000;
}

abbrev report : WrappedIntervalTimer
report = record {
  inner = record { name = "report"; interval = minutes 60; last_run = 0 };
  parsed_type = minutes_type 60;
  next_run = 3600000;
}

abbrev manager : IntervalManager
manager = record { loaded_intervals = ("cleanup", cleanup) ∷ ("report", report) ∷ []; pending = [] }

manager-started :
    script_started
      (λ expression. none)
      (λ timer. some timer)
      0
      (some [])
      (record { name = "cleanup"; interval = minutes 5 }
        ∷ record { name = "report"; interval = minutes 60 }
        ∷ [])
      new
    ≡ some manager
unfolding script_started
manager-started = refl

next_action-settled_example : next_action 400000 (trigger_timers 400000 manager).0 ≢ run
next_action-settled_example = next_action-settled 400000 manager (
    next initial (
      started (λ expression. none) (λ timer. some timer) 0 (some [])
        (record { name = "cleanup"; interval = minutes 5 }
          ∷ record { name = "report"; interval = minutes 60 }
          ∷ [])
        manager-started))
