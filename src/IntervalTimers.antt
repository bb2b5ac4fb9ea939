-- ===== src/IntervalTimers.antt =====
-- cmd/scheduler/src/interval_timer_manager.rs: the interval timers of a guild, those that a worker
-- still has to acknowledge, and when the next one is due. The timer store and the crate that reads
-- cron expressions are not modelled: `update` is what the store answers (none is an error) and
-- `parse` what the crate makes of "0 " and the expression, as the function from a time to the next one after
-- it. A time is a number of milliseconds; the panic of chrono on a date out of its range is left out.
pub mod Due
pub mod Keyed
mod Examples
use text.Mathlib.Text.{◌==◌}
use botloader.Prelude.{
  ℕ, ◌+◌, ◌-◌, ◌*◌, ◌^◌, Bool, true, false, not, ◌&&◌, Option, none, some, List, [], ◌∷◌, ◌++◌, map,
  String, ltb, ◌>>=◌, if◌then◌else◌, keep, position, swap_remove,
}
use botloader.ScheduledTasks.{NextAction, nothing, wait, run, contains_string}

pub data IntervalType : Type 0 where
  minutes : ℕ → IntervalType
  cron : String → IntervalType

pub record IntervalTimer : Type 0 where
  pub name : String
  pub interval : IntervalType
  pub last_run : ℕ

pub record IntervalTimerContrib : Type 0 where
  pub name : String
  pub interval : IntervalType

pub data ParsedIntervalType : Type 0 where
  minutes_type : ℕ → ParsedIntervalType
  cron_type : String → (ℕ → Option ℕ) → ParsedIntervalType

pub record WrappedIntervalTimer : Type 0 where
  pub inner : IntervalTimer
  pub parsed_type : ParsedIntervalType
  pub next_run : ℕ

-- The map `loaded_intervals` has the timers under their names.
pub record IntervalManager : Type 0 where
  pub loaded_intervals : List (String × WrappedIntervalTimer)
  pub pending : List String

abbrev pub new : IntervalManager
new = record { loaded_intervals = []; pending = [] }

-- The cast of the minutes to `i64` wraps to a negative number.
unfoldable pub add_minutes : ℕ → ℕ → ℕ
add_minutes t m = if ltb m (2 ^ 63) then t + m * 60000 else t - (2 ^ 64 - m) * 60000

unfoldable pub next_run_time : ParsedIntervalType → ℕ → Option ℕ
unfolding add_minutes
next_run_time (cron_type expression after) t = after t
next_run_time (minutes_type m) t = some (add_minutes t m)

unfoldable pub is_triggered : ℕ → WrappedIntervalTimer → Bool
is_triggered t timer = ltb timer.next_run t

unfoldable pub parse_interval :
    (String → Option (ℕ → Option ℕ)) → IntervalType → Option ParsedIntervalType
parse_interval parse (minutes mins) = some (minutes_type mins)
parse_interval parse (cron c) = elim (parse c) [
  | none ↦ none
  | some parsed ↦ some (cron_type c parsed)
]

-- None stands for both errors, which the caller only logs.
unfoldable pub wrap_timer :
    (String → Option (ℕ → Option ℕ)) → IntervalTimer → Option WrappedIntervalTimer
unfolding parse_interval next_run_time
wrap_timer parse timer = do
  interval_type ← parse_interval parse timer.interval
  next ← next_run_time interval_type timer.last_run
  some (record { inner = timer; parsed_type = interval_type; next_run = next })

abbrev pub not_pending : List String → String × WrappedIntervalTimer → Bool
not_pending pending (name, timer) = not (contains_string name pending)

abbrev pub min_time : ℕ → Option ℕ → Option ℕ
min_time t none = some t
min_time t (some u) = some (if ltb u t then u else t)

-- The lowest `next_run`.
unfoldable pub lowest : List (String × WrappedIntervalTimer) → Option ℕ
lowest [] = none
lowest ((name, timer) ∷ rest) = min_time timer.next_run (lowest rest)

unfoldable pub next_event_time : IntervalManager → Option ℕ
unfolding keep lowest contains_string
next_event_time m = lowest (keep (not_pending m.pending) m.loaded_intervals)

unfoldable pub next_action : ℕ → IntervalManager → NextAction
unfolding next_event_time
next_action now m = elim (next_event_time m) [
  | none ↦ nothing
  | some next_time ↦ if ltb next_time now then run else wait next_time
]

abbrev pub inner_timer : String × WrappedIntervalTimer → IntervalTimer
inner_timer (name, timer) = timer.inner

abbrev pub timer_name : IntervalTimer → String
timer_name timer = timer.name

abbrev pub triggered_at : ℕ → String × WrappedIntervalTimer → Bool
triggered_at now (name, timer) = is_triggered now timer

unfoldable pub get_triggered_timers : ℕ → IntervalManager → List IntervalTimer
unfolding keep is_triggered contains_string
get_triggered_timers now m =
    map inner_timer (keep (triggered_at now) (keep (not_pending m.pending) m.loaded_intervals))

unfoldable pub trigger_timers : ℕ → IntervalManager → IntervalManager × List IntervalTimer
unfolding next_event_time get_triggered_timers
trigger_timers now m = elim (next_event_time m) [
  | none ↦ (m, [])
  | some next_time ↦
      if ltb next_time now
      then (
        record m { pending = m.pending ++ map timer_name (get_triggered_timers now m) },
        get_triggered_timers now m,
      )
      else (m, [])
]

unfoldable pub change_named :
    String
    → (WrappedIntervalTimer → WrappedIntervalTimer)
    → List (String × WrappedIntervalTimer)
    → List (String × WrappedIntervalTimer)
change_named key f [] = []
change_named key f ((name, timer) ∷ rest) =
    if name == key then (name, f timer) ∷ rest else (name, timer) ∷ change_named key f rest

unfoldable pub insert_named :
    String
    → WrappedIntervalTimer
    → List (String × WrappedIntervalTimer)
    → List (String × WrappedIntervalTimer)
insert_named key new_timer [] = (key, new_timer) ∷ []
insert_named key new_timer ((name, timer) ∷ rest) =
    if name == key
    then (name, new_timer) ∷ rest
    else (name, timer) ∷ insert_named key new_timer rest

unfoldable pub run_again : ℕ → WrappedIntervalTimer → WrappedIntervalTimer
unfolding next_run_time
run_again t timer = record timer {
  inner = record timer.inner { last_run = t };
  next_run = elim (next_run_time timer.parsed_type t) [
    | some next ↦ next
    | none ↦ t + 1000 * 3600000
  ];
}

-- The write to the store at the end has no effect on the manager.
unfoldable pub update_next_run : ℕ → String → IntervalManager → IntervalManager
unfolding change_named run_again
update_next_run t name m = record m {
  loaded_intervals = change_named name (run_again t) m.loaded_intervals;
}

unfoldable pub timer_ack : ℕ → String → IntervalManager → IntervalManager
unfolding position swap_remove update_next_run
timer_ack now timer m = elim (position (λ v. v == timer) m.pending) [
  | none ↦ m
  | some index ↦ update_next_run now timer (record m { pending = swap_remove index m.pending })
]

unfoldable pub find_timer : String → List IntervalTimer → Option IntervalTimer
find_timer name [] = none
find_timer name (t ∷ ts) = if t.name == name then some t else find_timer name ts

-- None is the error of the store.
unfoldable pub init_timer :
    (String → Option (ℕ → Option ℕ))
    → (IntervalTimer → Option IntervalTimer)
    → ℕ
    → IntervalTimerContrib
    → Option IntervalTimer
    → IntervalManager
    → Option IntervalManager
unfolding wrap_timer insert_named
init_timer parse update now script_timer db_timer m =
    elim (update (record {
      name = script_timer.name;
      interval = script_timer.interval;
      last_run = elim db_timer [ some v ↦ v.last_run | none ↦ now ];
    })) [
      | none ↦ none
      | some timer ↦ elim (wrap_timer parse timer) [
        | some wrapped ↦ some (record m {
          loaded_intervals = insert_named wrapped.inner.name wrapped m.loaded_intervals;
        })
        | none ↦ some m
      ]
    ]

-- None is a panic: a query that fails is unwrapped.
unfoldable pub init_timers :
    (String → Option (ℕ → Option ℕ))
    → (IntervalTimer → Option IntervalTimer)
    → ℕ
    → List IntervalTimer
    → List IntervalTimerContrib
    → IntervalManager
    → Option IntervalManager
unfolding init_timer find_timer
init_timers parse update now all_guild_timers [] m = some m
init_timers parse update now all_guild_timers (c ∷ cs) m = do
  m' ← init_timer parse update now c (find_timer c.name all_guild_timers) m
  init_timers parse update now all_guild_timers cs m'

-- `all` is the answer to `get_all_interval_timers`.
unfoldable pub script_started :
    (String → Option (ℕ → Option ℕ))
    → (IntervalTimer → Option IntervalTimer)
    → ℕ
    → Option (List IntervalTimer)
    → List IntervalTimerContrib
    → IntervalManager
    → Option IntervalManager
unfolding init_timers
script_started parse update now all [] m = some m
script_started parse update now all (c ∷ cs) m = do
  all_guild_timers ← all
  init_timers parse update now all_guild_timers (c ∷ cs) m

abbrev pub clear_loaded_timers : IntervalManager → IntervalManager
clear_loaded_timers m = record m { loaded_intervals = [] }

abbrev pub clear_pending_acks : IntervalManager → IntervalManager
clear_pending_acks m = record m { pending = [] }
