-- ===== src/IntervalTimers/Keyed.antt =====
-- The names under which the timers of cmd/scheduler/src/interval_timer_manager.rs stand in their map,
-- over the sequences of the manager's operations.
use text.Mathlib.Text.{◌==◌}
use text.Mathlib.TextEquality.{eq_iff}
use botloader.Prelude.{
  ℕ, ◌≡◌, ◌≢◌, refl, subst, Option, none, some, List, [], ◌∷◌, String, All, arith, Bool-cases,
  Option-cases, inl, inr, position, ltb,
}
use botloader.ScheduledTasks.{run}
use botloader.IntervalTimers.{
  IntervalTimer, IntervalTimerContrib, WrappedIntervalTimer, IntervalManager, new, run_again,
  change_named, insert_named, update_next_run, timer_ack, trigger_timers, find_timer, wrap_timer,
  init_timer, init_timers, script_started, clear_loaded_timers, clear_pending_acks, next_action,
  next_event_time,
}
use botloader.IntervalTimers.Due.{Entry, IsKeyed, next_action-trigger_timers}

abbrev Keyed : IntervalManager → Type 0
Keyed m = All IsKeyed m.loaded_intervals

insert_named-IsKeyed :
    (key : String) (t : WrappedIntervalTimer) (xs : List Entry)
    → t.inner.name ≡ key
    → All IsKeyed xs
    → All IsKeyed (insert_named key t xs)
unfolding insert_named
insert_named-IsKeyed key t [] e h = (e, tt)
insert_named-IsKeyed key t ((name, timer) ∷ xs) e h = elim (Bool-cases (name == key)) [
  | inl f ↦ rw f (ground (arith, eq_iff name key), h.1)
  | inr f ↦ rw f (h.0, insert_named-IsKeyed key t xs e h.1)
]

change_named-IsKeyed :
    (key : String) (now : ℕ) (xs : List Entry)
    → All IsKeyed xs
    → All IsKeyed (change_named key (run_again now) xs)
unfolding change_named run_again
change_named-IsKeyed key now [] h = tt
change_named-IsKeyed key now ((name, timer) ∷ xs) h = elim (Bool-cases (name == key)) [
  | inl f ↦ rw f h
  | inr f ↦ rw f (h.0, change_named-IsKeyed key now xs h.1)
]

timer_ack-Keyed :
    (now : ℕ) (timer : String) (m : IntervalManager) → Keyed m → Keyed (timer_ack now timer m)
unfolding timer_ack update_next_run
timer_ack-Keyed now timer m h = elim (Option-cases (position (λ v. v == timer) m.pending)) [
  | inl e ↦ rw (e, timer_ack) h
  | inr (i, e) ↦ rw (e, timer_ack) (change_named-IsKeyed timer now m.loaded_intervals h)
]

trigger_timers-Keyed : (now : ℕ) (m : IntervalManager) → Keyed m → Keyed (trigger_timers now m).0
unfolding trigger_timers
trigger_timers-Keyed now m h = elim (Option-cases (next_event_time m)) [
  | inl e ↦ rw (e, trigger_timers) h
  | inr (t, e) ↦ elim (Bool-cases (ltb t now)) [
    | inl f ↦ rw (e, trigger_timers, f) h
    | inr f ↦ rw (e, trigger_timers, f) h
  ]
]

abbrev KeptIn : Option IntervalManager → Type 0
KeptIn none = Unit
KeptIn (some m) = Keyed m

module _ (parse : String → Option (ℕ → Option ℕ)) (update : IntervalTimer → Option IntervalTimer)
    (now : ℕ) where
  init_timer-Keyed :
      (c : IntervalTimerContrib) (db : Option IntervalTimer) (m : IntervalManager)
      → Keyed m
      → KeptIn (init_timer parse update now c db m)
  unfolding init_timer
  init_timer-Keyed c db m h =
      elim (Option-cases (
        update (record {
          name = c.name;
          interval = c.interval;
          last_run = elim db [ some v ↦ v.last_run | none ↦ now ];
        }))) [
          | inl e ↦ rw (e, init_timer) tt
          | inr (timer, e) ↦ elim (Option-cases (wrap_timer parse timer)) [
            | inl f ↦ rw (e, init_timer, f) h
            | inr (wrapped, f) ↦
                rw (e, init_timer, f)
                  (insert_named-IsKeyed wrapped.inner.name wrapped m.loaded_intervals refl h)
          ]
        ]

  init_timers-Keyed :
      (db : List IntervalTimer) (cs : List IntervalTimerContrib) (m : IntervalManager)
      → Keyed m
      → KeptIn (init_timers parse update now db cs m)
  unfolding init_timers
  init_timers-Keyed db [] m h = h
  init_timers-Keyed db (c ∷ cs) m h =
      elim (Option-cases (init_timer parse update now c (find_timer c.name db) m)) [
        | inl e ↦ rw e tt
        | inr (m', e) ↦ rw e (
            init_timers-Keyed db cs m'
              (subst KeptIn e (init_timer-Keyed c (find_timer c.name db) m h)))
      ]

  script_started-Keyed :
      (all : Option (List IntervalTimer)) (cs : List IntervalTimerContrib) (m : IntervalManager)
      → Keyed m
      → KeptIn (script_started parse update now all cs m)
  unfolding script_started
  script_started-Keyed all [] m h = h
  script_started-Keyed none (c ∷ cs) m h = tt
  script_started-Keyed (some db) (c ∷ cs) m h = init_timers-Keyed db (c ∷ cs) m h

pub data Step : IntervalManager → IntervalManager → Type 0 where
  triggered : {m : IntervalManager} (now : ℕ) → Step m (trigger_timers now m).0
  acked : {m : IntervalManager} (now : ℕ) (timer : String) → Step m (timer_ack now timer m)
  started :
      {m m' : IntervalManager} (parse : String → Option (ℕ → Option ℕ))
      (update : IntervalTimer → Option IntervalTimer) (now : ℕ) (all : Option (List IntervalTimer))
      (cs : List IntervalTimerContrib)
      → script_started parse update now all cs m ≡ some m'
      → Step m m'
  timers_cleared : {m : IntervalManager} → Step m (clear_loaded_timers m)
  acks_cleared : {m : IntervalManager} → Step m (clear_pending_acks m)

pub data Reachable : IntervalManager → Type 0 where
  initial : Reachable new
  next : {m m' : IntervalManager} → Reachable m → Step m m' → Reachable m'

Step-Keyed : {m m' : IntervalManager} → Step m m' → Keyed m → Keyed m'
Step-Keyed (triggered {m} now) h = trigger_timers-Keyed now m h
Step-Keyed (acked {m} now timer) h = timer_ack-Keyed now timer m h
Step-Keyed (started {m} parse update now all cs e) h =
    subst KeptIn e (script_started-Keyed parse update now all cs m h)
Step-Keyed timers_cleared h = tt
Step-Keyed acks_cleared h = h

Reachable-Keyed : {m : IntervalManager} → Reachable m → Keyed m
Reachable-Keyed initial = tt
Reachable-Keyed (next r s) = Step-Keyed s (Reachable-Keyed r)

-- Whatever the manager did before, and whatever the store answered, it does not ask to run its timers
-- at the very time at which it triggered those that were due.
pub next_action-settled :
    (now : ℕ) (m : IntervalManager) → Reachable m → next_action now (trigger_timers now m).0 ≢ run
next_action-settled now m r = next_action-trigger_timers now m (Reachable-Keyed r)
