-- ===== src/VmWorker/Examples.antt =====
-- A worker with a machine, and the session that holds it.
use botloader.Prelude.{◌≡◌, refl, true, false, none, some, [], ◌∷◌}
use botloader.GuildScheduler.{forcibly_shutdown}
use botloader.ScheduledTasks as ScheduledTasks
use botloader.IntervalTimers as IntervalTimers
use botloader.VmThread as VmThread
use botloader.VmThread.Machine.{shutdown_event}
use botloader.VmSession.Fixtures.{worker, env}
use botloader.VmSession.{
  Script, unknown, WorkerMessage, complete, Worker, Env, VmSession, deliver, returned,
}
use botloader.VmSession as VmSession
use botloader.VmSession.Actions.{
  NextAction, worker_message, handle_action, complete_worker, shutdown_rounds, next_action,
}
use botloader.VmWorker.{WorkerState, VmWorker, new, continue, handle_scheduler_cmd, handle_vm_evt}
use botloader.VmWorker.Handoff.{forced_shutdown-returned, completed_worker-panics}

abbrev machine : WorkerState
machine = record { guild_id = 7; load_scripts = []; scripts_vm = []; told_to_shut_down = false }

abbrev busy : VmWorker
busy = record new { current_state = some machine }

abbrev session : VmSession.VmSession
session = record (VmSession.new 7 unknown) { current_worker = some worker }

abbrev script : Script
script = record { id = 1; name = "hello"; original_source = ""; enabled = true }

forced_shutdown-returned_example :
    (first second : WorkerMessage) × (w' : VmWorker) × (handle_vm_evt
        (some [])
        7
        (shutdown_event VmThread.runaway)
        busy
      ≡ some (w', continue))
    × (w'.sent ≡ first ∷ second ∷ [])
    × (s1 s2 s3 : VmSession.VmSession) × (handle_action env [] (worker_message (some first)) session
        ≡ some (s1, [], some forcibly_shutdown))
    × (complete_worker env s1 ≡ some s2)
    × (shutdown_rounds ((env, worker_message (some second)) ∷ []) s2 ≡ some (s3, true))
    × (s3.current_worker ≡ none)
    × (s3.effects ≡ returned (deliver complete worker) false ∷ [])
forced_shutdown-returned_example =
    forced_shutdown-returned env [] session worker VmThread.runaway busy machine refl refl refl refl
      refl

quiet : (select : NextAction) → next_action 100 select session ≡ select
unfolding next_action ScheduledTasks.next_action IntervalTimers.next_action
quiet select = refl

completed_worker-panics_example :
    (w1 w2 : VmWorker) × (first second : WorkerMessage) × (handle_scheduler_cmd
        (some [])
        complete
        busy
      ≡ some (w1, continue))
    × (handle_vm_evt (some []) 7 (shutdown_event VmThread.thread_termination) w1
        ≡ some (w2, continue))
    × (w2.sent ≡ first ∷ second ∷ [])
    × (s1 : VmSession.VmSession) × (complete_worker env session ≡ some s1)
    × (shutdown_rounds ((env, worker_message (some first)) ∷ []) s1 ≡ none)
completed_worker-panics_example =
    completed_worker-panics env [] session worker busy machine refl refl quiet refl refl refl
