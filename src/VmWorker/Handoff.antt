-- ===== src/VmWorker/Handoff.antt =====
-- cmd/vmworker/src/main.rs with cmd/scheduler/src/vm_session.rs: what the session makes of the messages that a
-- worker sends when its machine ends.

use botloader.Prelude.{◌≡◌, refl, ap, true, false, none, some, List, [], ◌∷◌, ◌++◌, keep, arith}
use botloader.GuildScheduler.{forcibly_shutdown}
use botloader.ScheduledTasks as ScheduledTasks
use botloader.IntervalTimers as IntervalTimers
use botloader.IntervalTimers.{next_event_time, lowest}
use botloader.VmThread as VmThread
use botloader.VmThread.Machine.{shutdown_event}
use botloader.VmSession.{
  ShutdownReason, other_reason, complete, WorkerMessage, shutdown_message, none_pending, Worker,
  returned, Env, VmSession, deliver, handle_worker_msg, give_back, reset_contribs, Offers,
}
use botloader.VmSession.Actions.{
  NextAction, worker_message, next_action, handle_action, complete_worker, shutdown_round,
  shutdown_rounds,
}
use botloader.VmWorker.{
  WorkerState, VmWorker, continue, reported, handle_vm_evt, handle_scheduler_cmd,
}
use botloader.VmWorker.Completing.{last_messages, handle_vm_evt-last_messages}

rounds-done :
    (env : Env) (select : NextAction) (s s' : VmSession) (worker : Worker)
    → s.current_worker ≡ some worker
    → s'.current_worker ≡ none
    → shutdown_round env select s ≡ some (s', false)
    → shutdown_rounds ((env, select) ∷ []) s ≡ some (s', true)
unfolding shutdown_rounds
rounds-done env select s s' worker w w' e = ground (arith, w, w', e)

-- The session's side of a machine that ended on its own: the reason is handled by `handle_action`,
-- after which the handler's loop ends, and `shutdown` reads the rest.
module _ (env : Env) (offers : Offers) (s : VmSession) (worker : Worker)
    (w : s.current_worker ≡ some worker) (o : worker.is_open ≡ true) where
  reset : VmSession
  reset = record (reset_contribs s) { pending_acks = [] }

  reported-event :
      (reason : VmThread.ShutdownReason)
      → handle_action env offers (worker_message (some (shutdown_message (reported reason)))) s
        ≡ some (reset, offers, some forcibly_shutdown)
  unfolding handle_action reset
  reported-event VmThread.unknown = refl
  reported-event VmThread.runaway = refl
  reported-event VmThread.thread_termination = refl
  reported-event VmThread.out_of_memory = refl

  told : VmSession
  told = record reset { current_worker = some (deliver complete worker) }

  reset-told : complete_worker env reset ≡ some told
  unfolding complete_worker told reset reset_contribs
  reset-told = ground (arith, w, o)

  last_round :
      shutdown_round env (worker_message (some none_pending)) told
      ≡ some (give_back false told, false)
  unfolding shutdown_round next_action handle_worker_msg told reset reset_contribs
      ScheduledTasks.next_action IntervalTimers.next_action next_event_time keep lowest give_back
  last_round = refl

  last_rounds :
      shutdown_rounds ((env, worker_message (some none_pending)) ∷ []) told
      ≡ some (give_back false told, true)
  unfolding told give_back reset reset_contribs
  last_rounds =
      rounds-done env (worker_message (some none_pending)) told (give_back false told)
        (deliver complete worker) refl refl last_round

-- A session whose worker's machine ends on its own gets the worker back to the pool: of the two last
-- messages of the worker, it handles the first as a forced shutdown, which ends its handler's loop, and
-- `shutdown` reads the second and returns the worker, which is not broken. The channels are open, the
-- machine's thread ends, and the runtime has sent nothing that the worker did not pass on.
pub forced_shutdown-returned :
    (env : Env) (offers : Offers) (s : VmSession) (worker : Worker)
    (reason : VmThread.ShutdownReason) (w : VmWorker) (current : WorkerState)
    → s.current_worker ≡ some worker
    → worker.is_open ≡ true
    → w.is_open ≡ true
    → w.current_state ≡ some current
    → w.runtime_evts ≡ []
    → (first second : WorkerMessage) × (w' : VmWorker) × (handle_vm_evt
          (some [])
          current.guild_id
          (shutdown_event reason)
          w
        ≡ some (w', continue))
      × (w'.sent ≡ w.sent ++ first ∷ second ∷ [])
      × (s1 s2 s3 : VmSession) × (handle_action env offers (worker_message (some first)) s
          ≡ some (s1, offers, some forcibly_shutdown))
      × (complete_worker env s1 ≡ some s2)
      × (shutdown_rounds ((env, worker_message (some second)) ∷ []) s2 ≡ some (s3, true))
      × (s3.current_worker ≡ none)
      × (s3.effects ≡ s.effects ++ returned (deliver complete worker) false ∷ [])
unfolding reset told give_back reset_contribs
forced_shutdown-returned env offers s worker reason w current cw o wo e r = (
  shutdown_message (reported reason),
  none_pending,
  record w {
    current_state = none;
    runtime_evts = [];
    sent = w.sent ++ last_messages (w.runtime_evts ++ []) reason;
  },
  handle_vm_evt-last_messages [] reason w current wo e,
  ap (λ evts. w.sent ++ last_messages (evts ++ []) reason) r,
  reset env offers s worker cw o,
  told env offers s worker cw o,
  give_back false (told env offers s worker cw o),
  reported-event env offers s worker cw o reason,
  reset-told env offers s worker cw o,
  last_rounds env offers s worker cw o,
  refl,
  refl,
)

completed :
    (w : VmWorker) (current : WorkerState)
    → w.current_state ≡ some current
    → handle_scheduler_cmd (some []) complete w
      ≡ some (
        record w { current_state = some (record current { told_to_shut_down = true }) },
        continue,
      )
unfolding handle_scheduler_cmd
completed w current e = ground (arith, e)

rounds-panic :
    (env : Env) (rounds : List (Env × NextAction)) (select : NextAction) (s : VmSession)
    (worker : Worker)
    → s.current_worker ≡ some worker
    → shutdown_round env select s ≡ none
    → shutdown_rounds ((env, select) ∷ rounds) s ≡ none
unfolding shutdown_rounds
rounds-panic env rounds select s worker w e = ground (arith, w, e)

round-panics :
    (env : Env) (s : VmSession) (reason : ShutdownReason)
    → next_action env.now (worker_message (some (shutdown_message reason))) s
      ≡ worker_message (some (shutdown_message reason))
    → shutdown_round env (worker_message (some (shutdown_message reason))) s ≡ none
unfolding shutdown_round handle_worker_msg
round-panics env s reason q = ground (arith, q)

session_told :
    (env : Env) (s : VmSession) (worker : Worker)
    → s.current_worker ≡ some worker
    → worker.is_open ≡ true
    → complete_worker env s ≡ some (record s { current_worker = some (deliver complete worker) })
unfolding complete_worker
session_told env s worker cw o = ground (arith, cw, o)

-- What the session holds is nothing to its timers.
quiet_told :
    (env : Env) (s : VmSession) (worker : Worker) (select : NextAction)
    → ((select : NextAction) → next_action env.now select s ≡ select)
    → next_action env.now select (record s { current_worker = some (deliver complete worker) })
      ≡ select
unfolding next_action
quiet_told env s worker select quiet = quiet select

-- When a session is told to shut down while its worker's machine runs, and none of its timers is due, it panics:
-- the machine that it tells to complete ends, the worker reports the end with a reason for
-- a shutdown as its first message, and the loop of `shutdown` takes that message to be impossible.
pub completed_worker-panics :
    (env : Env) (rounds : List (Env × NextAction)) (s : VmSession) (worker : Worker) (w : VmWorker)
    (current : WorkerState)
    → s.current_worker ≡ some worker
    → worker.is_open ≡ true
    → ((select : NextAction) → next_action env.now select s ≡ select)
    → w.is_open ≡ true
    → w.current_state ≡ some current
    → w.runtime_evts ≡ []
    → (w1 w2 : VmWorker) × (first second : WorkerMessage) × (handle_scheduler_cmd
          (some [])
          complete
          w
        ≡ some (w1, continue))
      × (handle_vm_evt (some []) current.guild_id (shutdown_event VmThread.thread_termination) w1
          ≡ some (w2, continue))
      × (w2.sent ≡ w.sent ++ first ∷ second ∷ [])
      × (s1 : VmSession) × (complete_worker env s ≡ some s1)
      × (shutdown_rounds ((env, worker_message (some first)) ∷ rounds) s1 ≡ none)
completed_worker-panics env rounds s worker w current cw o quiet wo e r =
    let s1 : VmSession = record s { current_worker = some (deliver complete worker) } in
    let told : WorkerState = record current { told_to_shut_down = true } in
    (
      record w { current_state = some told },
      record w {
        current_state = none;
        runtime_evts = [];
        sent = w.sent ++ last_messages (w.runtime_evts ++ []) VmThread.thread_termination;
      },
      shutdown_message other_reason,
      none_pending,
      completed w current e,
      handle_vm_evt-last_messages [] VmThread.thread_termination
          (record w { current_state = some told }) told wo refl,
      ap (λ evts. w.sent ++ last_messages (evts ++ []) VmThread.thread_termination) r,
      s1,
      session_told env s worker cw o,
      rounds-panic env rounds (worker_message (some (shutdown_message other_reason))) s1
          (deliver complete worker) refl
          (round-panics env s1 other_reason (
            quiet_told env s worker (worker_message (some (shutdown_message other_reason))) quiet)),
    )
