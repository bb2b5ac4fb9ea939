-- ===== src/VmSession/Examples.antt =====
-- Sessions with a task that is due, with a worker that shut down, and with no worker.
use botloader.Prelude.{◌≡◌, refl, true, false, none, some, [], ◌∷◌, inl, inr, lookup}
use botloader.WorkerPool.{same_guild, other_guild}
use botloader.ScheduledTasks as ScheduledTasks
use botloader.VmSession.Fixtures.{handle, worker, env}
use botloader.VmSession.{
  new, unknown, runaway, ack, none_pending, shutdown_message, Worker, VmSession, Offers, Env,
  gen_id, drain_inbox, handle_worker_msg, load_contribs,
}
use botloader.VmSession.Actions.{worker_message, shutdown_rounds}
use botloader.VmSession.{dispatch, discord_event}
use botloader.VmSession.Actions.{dispatch_worker_evt}
use botloader.VmSession.Dispatch.{Dispatched, dispatch_worker_evt-Dispatched}
use botloader.VmSession.Spinning.{shutdown-spins}
use botloader.VmSession.Broken.{load_contribs-panics}
use botloader.VmSession.Claims.{EnsuresLoaded, load_contribs-Loaded}

abbrev gone : Worker
gone = record {
  handle = handle;
  is_open = false;
  sent = [];
  inbox = ack 3 ∷ shutdown_message runaway ∷ [];
}

abbrev with_due_task : VmSession
with_due_task = record (new 7 unknown) {
  current_worker = some worker;
  scheduled_tasks_man = record ScheduledTasks.new { next_task_time = some (some 50) };
}

shutdown-spins_example :
    shutdown_rounds ((env, worker_message (some none_pending)) ∷ []) with_due_task
    ≡ some (with_due_task, false)
shutdown-spins_example =
    shutdown-spins ((env, worker_message (some none_pending)) ∷ []) 50 with_due_task worker refl
      refl (refl, tt)

abbrev with_gone_worker : VmSession
with_gone_worker = record (new 7 unknown) { current_worker = some gone }

load_contribs-panics_example :
    ((later : Env)
      → handle_worker_msg later
          (shutdown_message runaway)
          (record (gen_id with_gone_worker) { current_worker = none })
        ≡ none)
    × (load_contribs env [] with_gone_worker ≡ none)
unfolding drain_inbox handle_worker_msg lookup
load_contribs-panics_example =
    load_contribs-panics env [] (ack 3 ∷ []) [] runaway with_gone_worker
      (record (gen_id with_gone_worker) { current_worker = none }) gone refl refl refl refl

abbrev with_scripts : VmSession
with_scripts = record (new 7 unknown) {
  scripts = record { id = 1; name = "hello"; original_source = ""; enabled = true } ∷ [];
}

abbrev offers : Offers
offers = (gone, other_guild) ∷ (worker, other_guild) ∷ []

load_contribs-Loaded_example :
    EnsuresLoaded with_scripts.scripts (load_contribs env offers with_scripts)
load_contribs-Loaded_example =
    load_contribs-Loaded env offers with_scripts refl refl (inr (inl refl))

abbrev closed : Worker
closed = record worker { is_open = false }

abbrev with_closed_worker : VmSession
with_closed_worker = record with_scripts { current_worker = some closed }

abbrev more_offers : Offers
more_offers = (closed, same_guild) ∷ (worker, other_guild) ∷ []

dispatch_worker_evt-Dispatched_example :
    Dispatched "MESSAGE_CREATE" (discord_event 5) (dispatch none) (
      dispatch_worker_evt env more_offers "MESSAGE_CREATE"
        (discord_event 5)
        (dispatch none)
        with_closed_worker)
dispatch_worker_evt-Dispatched_example =
    dispatch_worker_evt-Dispatched env more_offers "MESSAGE_CREATE" (discord_event 5)
      (dispatch none) with_closed_worker (some closed) refl refl (refl, (refl, tt))
      (refl, inr (inr (inl refl)))
