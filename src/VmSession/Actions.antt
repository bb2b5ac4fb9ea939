-- ===== src/VmSession/Actions.antt =====
-- cmd/scheduler/src/vm_session.rs: the dispatch of events to the worker, the actions of the session
-- and its shutdown. `select` in `next_action` is an argument: what arrives first where no timer is
-- due.
use botloader.Prelude.{
  ℕ, zero, suc, Bool, true, false, Option, none, some, List, [], ◌∷◌, String, insert, keep,
  if◌then◌else◌, ◌>>=◌, is_empty, length,
}
use botloader.GuildScheduler.{VmSessionEvent, too_many_invalid_requests, forcibly_shutdown}
use botloader.ScheduledTasks as ScheduledTasks
use botloader.ScheduledTasks.{
  ScheduledTask, start_triggered_tasks, init_next_task_time, nothing, wait, run,
}
use botloader.IntervalTimers as IntervalTimers
use botloader.IntervalTimers.{IntervalTimer, trigger_timers}
use botloader.VmSession.{
  EventData, task_fired, timer_fired, ShutdownReason, too_many_requests, dispatch_event, complete,
  WorkerMessage, shutdown_message, PendingAck, scheduled_task, interval_timer, Env, Script,
  VmSession, gen_id, reset_contribs, handle_worker_msg, broken_worker, deliver, Offers,
  ensure_claim_worker, load_contribs,
}

-- One round of the loop of `dispatch_worker_evt`: whether the event went out.
unfoldable pub dispatch_round :
    Env → Offers → String → EventData → PendingAck → VmSession → Option (VmSession × Offers × Bool)
unfolding ensure_claim_worker broken_worker
dispatch_round env offers t value ack s = do
  (claimed, offers') ← ensure_claim_worker offers s
  let s' : VmSession = gen_id claimed
  elim s'.current_worker [
    | none ↦ some (s', offers', false)
    | some worker ↦
        if worker.is_open
        then some (
          record s' {
            current_worker = some (deliver (dispatch_event t s'.id_gen value) worker);
            pending_acks = insert s'.id_gen ack s'.pending_acks;
          },
          offers',
          true,
        )
        else elim (broken_worker env s') [ none ↦ none | some s'' ↦ some (s'', offers', false) ]
  ]

-- The loop, for at most so many rounds.
unfoldable pub dispatch_rounds :
    ℕ → Env → Offers → String → EventData → PendingAck → VmSession → Option (VmSession × Offers)
unfolding dispatch_round
dispatch_rounds zero env offers t value ack s = none
dispatch_rounds (suc n) env offers t value ack s = elim (dispatch_round env offers t value ack s) [
  | none ↦ none
  | some (s', offers', true) ↦ some (s', offers')
  | some (s', offers', false) ↦ dispatch_rounds n env offers' t value ack s'
]

-- Each round but the first takes an offer.
unfoldable pub dispatch_worker_evt :
    Env → Offers → String → EventData → PendingAck → VmSession → Option (VmSession × Offers)
unfolding dispatch_rounds
dispatch_worker_evt env offers t value ack s =
    if is_empty s.scripts
    then some (s, offers)
    else dispatch_rounds (suc (suc (length offers))) env offers t value ack s

unfoldable pub dispatch_scheduled_tasks :
    Env → Offers → List ScheduledTask → VmSession → Option (VmSession × Offers)
unfolding dispatch_worker_evt
dispatch_scheduled_tasks env offers [] s = some (s, offers)
dispatch_scheduled_tasks env offers (task ∷ tasks) s = do
  (s', offers') ←
      dispatch_worker_evt env offers "BOTLOADER_SCHEDULED_TASK_FIRED" (task_fired task)
        (scheduled_task task.id) s
  dispatch_scheduled_tasks env offers' tasks s'

unfoldable pub dispatch_interval_timers :
    Env → Offers → List IntervalTimer → VmSession → Option (VmSession × Offers)
unfolding dispatch_worker_evt
dispatch_interval_timers env offers [] s = some (s, offers)
dispatch_interval_timers env offers (timer ∷ timers) s = do
  (s', offers') ←
      dispatch_worker_evt env offers "BOTLOADER_INTERVAL_TIMER_FIRED" (timer_fired timer.name)
        (interval_timer timer.name) s
  dispatch_interval_timers env offers' timers s'

pub data NextAction : Type 0 where
  worker_message : Option WorkerMessage → NextAction
  check_scheduled_tasks check_interval_timers : NextAction

abbrev shutdown_event : ShutdownReason → VmSessionEvent
shutdown_event too_many_requests = too_many_invalid_requests
shutdown_event _ = forcibly_shutdown

abbrev no_event : VmSession × Offers → VmSession × Offers × Option VmSessionEvent
no_event (s, offers) = (s, offers, none)

abbrev quietly : Option (VmSession × Offers) → Option (VmSession × Offers × Option VmSessionEvent)
quietly none = none
quietly (some result) = some (no_event result)

unfoldable pub handle_action :
    Env → Offers → NextAction → VmSession → Option (VmSession × Offers × Option VmSessionEvent)
unfolding handle_worker_msg broken_worker reset_contribs dispatch_scheduled_tasks
    dispatch_interval_timers
handle_action env offers (worker_message (some (shutdown_message reason))) s =
    some (record (reset_contribs s) { pending_acks = [] }, offers, some (shutdown_event reason))
handle_action env offers (worker_message (some msg)) s = do
  s' ← handle_worker_msg env msg s
  some (s', offers, none)
handle_action env offers (worker_message none) s = do
  s' ← broken_worker env s
  some (s', offers, none)
handle_action env offers check_scheduled_tasks s =
    let (m, tasks) = start_triggered_tasks env.triggered_tasks env.now s.scheduled_tasks_man in
    quietly (dispatch_scheduled_tasks env offers tasks (record s { scheduled_tasks_man = m }))
handle_action env offers check_interval_timers s =
    let (m, timers) = trigger_timers env.now s.interval_timers_man in
    quietly (dispatch_interval_timers env offers timers (record s { interval_timers_man = m }))

unfoldable pub next_action : ℕ → NextAction → VmSession → NextAction
next_action now select s = elim (ScheduledTasks.next_action now s.scheduled_tasks_man) [
  | run ↦ check_scheduled_tasks
  | _ ↦ elim (IntervalTimers.next_action now s.interval_timers_man) [
    | run ↦ check_interval_timers
    | _ ↦ select
  ]
]

-- What `shutdown` does before its loop.
unfoldable pub complete_worker : Env → VmSession → Option VmSession
unfolding broken_worker
complete_worker env s = elim s.current_worker [
  | none ↦ some s
  | some worker ↦
      if worker.is_open
      then some (record s { current_worker = some (deliver complete worker) })
      else broken_worker env s
]

-- One round of the loop of `shutdown` while a worker is there, with whether the loop ends after it.
unfoldable pub shutdown_round : Env → NextAction → VmSession → Option (VmSession × Bool)
unfolding next_action handle_worker_msg broken_worker
shutdown_round env select s = elim (next_action env.now select s) [
  | worker_message (some msg) ↦ elim (handle_worker_msg env msg s) [
    | none ↦ none
    | some s' ↦ some (s', false)
  ]
  | worker_message none ↦ elim (broken_worker env s) [ none ↦ none | some s' ↦ some (s', true) ]
  | check_scheduled_tasks ↦ some (s, false)
  | check_interval_timers ↦ some (s, false)
]

-- The loop over the rounds that `rounds` lists: the session, and whether the loop has ended.
unfoldable pub shutdown_rounds : List (Env × NextAction) → VmSession → Option (VmSession × Bool)
unfolding shutdown_round
shutdown_rounds [] s = elim s.current_worker [
  | none ↦ some (s, true)
  | some worker ↦ some (s, false)
]
shutdown_rounds ((env, select) ∷ rounds) s = elim s.current_worker [
  | none ↦ some (s, true)
  | some worker ↦ elim (shutdown_round env select s) [
    | none ↦ none
    | some (s', true) ↦ some (s', true)
    | some (s', false) ↦ shutdown_rounds rounds s'
  ]
]

unfoldable pub init_timers : (List ℕ → List String → Option (Option ℕ)) → ℕ → VmSession → VmSession
init_timers get_next_task_time now s = record s {
  scheduled_tasks_man = init_next_task_time get_next_task_time now s.scheduled_tasks_man;
}

abbrev is_enabled : Script → Bool
is_enabled script = script.enabled

-- `try_retry_load_guild_scripts` over the answers of the store: it tries again after an error.
unfoldable pub load_guild_scripts : List (Option (List Script)) → VmSession → Option VmSession
unfolding keep
load_guild_scripts [] s = none
load_guild_scripts (none ∷ answers) s = load_guild_scripts answers s
load_guild_scripts (some scripts ∷ answers) s =
    some (record s { scripts = keep is_enabled scripts })

-- `start`, and `reload_guild_scripts`, which is the same.
unfoldable pub reload_guild_scripts :
    Env → Offers → List (Option (List Script)) → VmSession → Option (VmSession × Offers)
unfolding load_guild_scripts load_contribs
reload_guild_scripts env offers answers s = do
  s' ← load_guild_scripts answers s
  load_contribs env offers s'
