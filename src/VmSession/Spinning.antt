-- ===== src/VmSession/Spinning.antt =====
-- cmd/scheduler/src/vm_session.rs: the loop of `shutdown` when a scheduled task is due.
use botloader.Prelude.{ℕ, ◌≡◌, ◌∙◌, true, false, some, List, [], ◌∷◌, All, ltb, arith}
use botloader.ScheduledTasks as ScheduledTasks
use botloader.ScheduledTasks.{TaskManager, run}
use botloader.VmSession.{Env, VmSession, Worker}
use botloader.VmSession.Actions.{
  NextAction, check_scheduled_tasks, next_action, shutdown_round, shutdown_rounds,
}

task_due :
    (now t : ℕ) (m : TaskManager)
    → m.next_task_time ≡ some (some t)
    → ltb t now ≡ true
    → ScheduledTasks.next_action now m ≡ run
unfolding ScheduledTasks.next_action
task_due now t m e h = rw (e, h)

next_action-due :
    (now t : ℕ) (select : NextAction) (s : VmSession)
    → s.scheduled_tasks_man.next_task_time ≡ some (some t)
    → ltb t now ≡ true
    → next_action now select s ≡ check_scheduled_tasks
unfolding next_action
next_action-due now t select s e h = rw (next_action, task_due now t s.scheduled_tasks_man e h)

shutdown_round-due :
    (env : Env) (select : NextAction) (t : ℕ) (s : VmSession)
    → s.scheduled_tasks_man.next_task_time ≡ some (some t)
    → ltb t env.now ≡ true
    → shutdown_round env select s ≡ some (s, false)
unfolding shutdown_round
shutdown_round-due env select t s e h = rw (shutdown_round, next_action-due env.now t select s e h)

-- A round that does not end the loop.
held :
    (env : Env) (select : NextAction) (rounds : List (Env × NextAction)) (s : VmSession)
    (worker : Worker) (s' : VmSession)
    → s.current_worker ≡ some worker
    → shutdown_round env select s ≡ some (s', false)
    → shutdown_rounds ((env, select) ∷ rounds) s ≡ shutdown_rounds rounds s'
unfolding shutdown_rounds
held env select rounds s worker s' w e = ground (arith, w, e)

-- While the session holds a worker and the time of its next scheduled task has passed, the loop of
-- `shutdown` does not end and reads no message of the worker, however many rounds it runs and
-- whatever the worker sends: each round finds the task due and ignores it.
pub shutdown-spins :
    (rounds : List (Env × NextAction)) (t : ℕ) (s : VmSession) (worker : Worker)
    → s.scheduled_tasks_man.next_task_time ≡ some (some t)
    → s.current_worker ≡ some worker
    → All (λ r. ltb t r.0.now ≡ true) rounds
    → shutdown_rounds rounds s ≡ some (s, false)
unfolding shutdown_rounds
shutdown-spins [] t s worker e w h = ground (arith, w)
shutdown-spins ((env, select) ∷ rounds) t s worker e w h =
    held env select rounds s worker s w (shutdown_round-due env select t s e h.0)
    ∙ shutdown-spins rounds t s worker e w h.1
