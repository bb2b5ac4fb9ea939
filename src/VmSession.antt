-- ===== src/VmSession.antt =====
-- cmd/scheduler/src/vm_session.rs: the session of one guild with the VM worker that it holds. A worker
-- is its handle in the pool with its two channels: `is_open` says whether a message to it still finds a
-- receiver, `sent` is what went through, and `inbox` what it sent and the session did not read yet.
-- What the session tells the rest of the program is the list `effects`. An `Env` has the answers of
-- the stores and of the clock during a call, and `offers` are the workers that the pool hands out,
-- in order. `none` is a panic, or a wait that does not end. Logs and metrics are left out.
pub mod Actions
pub mod Broken
pub mod Claims
pub mod Dispatch
pub mod Spinning
pub mod Fixtures
mod Examples
use botloader.Prelude.{
  ℕ, zero, suc, ◌+◌, ◌%◌, ◌^◌, Bool, true, false, not, ◌&&◌, Option, none, some, List, [], ◌∷◌,
  ◌++◌, map, String, Map, lookup, insert, erase, ltb, if◌then◌else◌, ◌>>=◌, is_empty,
}
use botloader.WorkerPool.{PremiumSlotTier, WorkerHandle, WorkerRetrieved, same_guild, other_guild}
use botloader.Commands.{Command, CommandGroup, TwilightCommand, to_twilight_commands}
use botloader.GuildScheduler.{VmSessionEvent, too_many_invalid_requests, forcibly_shutdown}
use botloader.ScheduledTasks as ScheduledTasks
use botloader.ScheduledTasks.{
  TaskManager, ScheduledTask, clear_pending, clear_task_names, clear_next, start_triggered_tasks,
  ack_triggered_task, nothing, wait, run,
}
use botloader.IntervalTimers as IntervalTimers
use botloader.IntervalTimers.{
  IntervalManager, IntervalTimer, IntervalTimerContrib, clear_loaded_timers, clear_pending_acks,
  trigger_timers, timer_ack,
}

pub data PremiumTierState : Type 0 where
  fetched : Option PremiumSlotTier → PremiumTierState
  unknown : PremiumTierState

unfoldable pub tier_option : PremiumTierState → Option PremiumSlotTier
tier_option (fetched inner) = inner
tier_option unknown = none

pub record ScriptMeta : Type 0 where
  pub script_id : ℕ
  pub commands : List Command
  pub command_groups : List CommandGroup
  pub interval_timers : List IntervalTimerContrib
  pub task_names : List String

-- A script of the store, without what it contributes and its plugin.
pub record Script : Type 0 where
  pub id : ℕ
  pub name : String
  pub original_source : String
  pub enabled : Bool

pub data ShutdownReason : Type 0 where
  runaway out_of_memory other_reason too_many_requests : ShutdownReason

-- The data of an event before its serialization; that of a Discord event is one number.
pub data EventData : Type 0 where
  discord_event : ℕ → EventData
  task_fired : ScheduledTask → EventData
  timer_fired : String → EventData

-- `SchedulerMessage`.
pub data SchedulerMessage : Type 0 where
  dispatch_event : String → ℕ → EventData → SchedulerMessage
  create_scripts_vm : ℕ → ℕ → Option PremiumSlotTier → List Script → SchedulerMessage
  complete shutdown_worker : SchedulerMessage

pub data WorkerMessage : Type 0 where
  ack : ℕ → WorkerMessage
  shutdown_message : ShutdownReason → WorkerMessage
  script_started : ScriptMeta → WorkerMessage
  scripts_init none_pending task_scheduled guild_log : WorkerMessage
  hello : ℕ → WorkerMessage
  metric : WorkerMessage

pub record Worker : Type 0 where
  pub handle : WorkerHandle
  pub is_open : Bool
  pub sent : List SchedulerMessage
  pub inbox : List WorkerMessage

pub data PendingAck : Type 0 where
  dispatch : Option ℕ → PendingAck
  scheduled_task : ℕ → PendingAck
  interval_timer : String → PendingAck

pub data Effect : Type 0 where
  returned : Worker → Bool → Effect
  responded : ℕ → Effect
  contributes : ℕ → List TwilightCommand → List IntervalTimerContrib → Effect
  loaded_script : ℕ → ScriptMeta → Effect

pub record Env : Type 0 where
  pub now : ℕ
  pub parse : String → Option (ℕ → Option ℕ)
  pub update_timer : IntervalTimer → Option IntervalTimer
  pub all_timers : Option (List IntervalTimer)
  pub delete_answers : List Bool
  pub triggered_tasks : ℕ → List ℕ → List String → Option (List ScheduledTask)

pub record VmSession : Type 0 where
  pub guild_id : ℕ
  pub interval_timers_man : IntervalManager
  pub scheduled_tasks_man : TaskManager
  pub premium_tier : PremiumTierState
  pub pending_acks : Map PendingAck
  pub current_worker : Option Worker
  pub force_load_scripts_next : Bool
  pub scripts : List Script
  pub id_gen : ℕ
  pub effects : List Effect

abbrev pub new : ℕ → PremiumTierState → VmSession
new guild_id premium_tier = record {
  guild_id = guild_id;
  interval_timers_man = IntervalTimers.new;
  scheduled_tasks_man = ScheduledTasks.new;
  premium_tier = premium_tier;
  pending_acks = [];
  current_worker = none;
  force_load_scripts_next = false;
  scripts = [];
  id_gen = 1;
  effects = [];
}

abbrev pub emit : Effect → VmSession → VmSession
emit e s = record s { effects = s.effects ++ e ∷ [] }

-- The new id is in the session's `id_gen`.
abbrev pub gen_id : VmSession → VmSession
gen_id s = record s { id_gen = (s.id_gen + 1) % 2 ^ 64 }

unfoldable pub reset_contribs : VmSession → VmSession
reset_contribs s = record s {
  interval_timers_man = clear_pending_acks (clear_loaded_timers s.interval_timers_man);
  scheduled_tasks_man = clear_next (clear_task_names (clear_pending s.scheduled_tasks_man));
}

-- `update_db_contribs`: the error of the store is only logged.
unfoldable pub update_db_contribs : ScriptMeta → VmSession → VmSession
update_db_contribs meta s =
    emit
      (contributes meta.script_id
        (to_twilight_commands s.guild_id meta.commands meta.command_groups) meta.interval_timers)
      s

unfoldable pub script_loaded : Env → ScriptMeta → VmSession → Option VmSession
unfolding update_db_contribs
script_loaded env meta s =
    elim (IntervalTimers.script_started env.parse env.update_timer env.now env.all_timers
      meta.interval_timers s.interval_timers_man) [
        | none ↦ none
        | some m ↦ some (
            emit (loaded_script s.guild_id meta) (record (update_db_contribs meta s) {
              interval_timers_man = m;
              scheduled_tasks_man =
                  ScheduledTasks.script_started meta.task_names s.scheduled_tasks_man;
            }))
      ]

unfoldable pub handle_ack : Env → PendingAck → VmSession → Option VmSession
handle_ack env (dispatch none) s = some s
handle_ack env (dispatch (some resp)) s = some (emit (responded resp) s)
handle_ack env (scheduled_task id) s =
    elim (ack_triggered_task env.delete_answers id s.scheduled_tasks_man) [
      | none ↦ none
      | some m ↦ some (record s { scheduled_tasks_man = m })
    ]
handle_ack env (interval_timer name) s =
    some (record s { interval_timers_man = timer_ack env.now name s.interval_timers_man })

-- `take` of the worker, which goes back to the pool.
unfoldable pub give_back : Bool → VmSession → VmSession
give_back broken s = elim s.current_worker [
  | none ↦ s
  | some worker ↦ emit (returned worker broken) (record s { current_worker = none })
]

unfoldable pub handle_worker_msg : Env → WorkerMessage → VmSession → Option VmSession
unfolding handle_ack script_loaded give_back
handle_worker_msg env (ack id) s = elim (lookup id s.pending_acks) [
  | none ↦ some s
  | some item ↦ handle_ack env item (record s { pending_acks = erase id s.pending_acks })
]
handle_worker_msg env (script_started meta) s = script_loaded env meta s
handle_worker_msg env scripts_init s = none
handle_worker_msg env none_pending s =
    some (if is_empty s.pending_acks then give_back false s else s)
handle_worker_msg env task_scheduled s =
    some (record s { scheduled_tasks_man = clear_next s.scheduled_tasks_man })
handle_worker_msg env guild_log s = some s
handle_worker_msg env (hello id) s = none
handle_worker_msg env (shutdown_message reason) s = none
handle_worker_msg env metric s = some s

-- The loop over `try_recv`.
unfoldable pub drain_inbox : Env → List WorkerMessage → VmSession → Option VmSession
unfolding handle_worker_msg
drain_inbox env [] s = some s
drain_inbox env (msg ∷ msgs) s = do s' ← handle_worker_msg env msg s; drain_inbox env msgs s'

unfoldable pub broken_worker : Env → VmSession → Option VmSession
unfolding drain_inbox reset_contribs
broken_worker env s = elim s.current_worker [
  | none ↦ some s
  | some worker ↦ elim (drain_inbox env worker.inbox (record s { current_worker = none })) [
    | none ↦ none
    | some s' ↦
        some (record (reset_contribs (emit (returned (record worker { inbox = [] }) true) s')) {
          pending_acks = [];
        })
  ]
]

abbrev pub is_same_guild : WorkerRetrieved → Bool
is_same_guild same_guild = true
is_same_guild other_guild = false

unfoldable pub should_send_scripts : WorkerRetrieved → VmSession → Bool
should_send_scripts wr s = not (not s.force_load_scripts_next && is_same_guild wr)

abbrev pub deliver : SchedulerMessage → Worker → Worker
deliver msg worker = record worker { sent = worker.sent ++ msg ∷ [] }

abbrev pub Offers : Type 0
Offers = List (Worker × WorkerRetrieved)

abbrev pub hold : Worker → VmSession → VmSession
hold worker s = record s { force_load_scripts_next = false; current_worker = some worker }

abbrev pub create_message : VmSession → SchedulerMessage
create_message s = create_scripts_vm s.id_gen s.guild_id (tier_option s.premium_tier) s.scripts

-- A session that sends its scripts to a worker forgets what the last one had.
unfoldable pub forget : VmSession → VmSession
unfolding reset_contribs
forget s = gen_id (reset_contribs (record s { pending_acks = [] }))

-- The loop of `ensure_claim_worker`; with no offer left it waits.
unfoldable pub claim_worker : Offers → VmSession → Option (VmSession × Offers)
unfolding should_send_scripts forget
claim_worker [] s = none
claim_worker ((worker, wr) ∷ offers) s =
    let retry = claim_worker offers (emit (returned worker true) (forget s)) in
    let claimed : Option (VmSession × Offers) =
      some (hold (deliver (create_message (forget s)) worker) (forget s), offers) in
    if should_send_scripts wr s
    then (if worker.is_open then claimed else retry)
    else some (hold worker s, offers)

unfoldable pub ensure_claim_worker : Offers → VmSession → Option (VmSession × Offers)
unfolding claim_worker
ensure_claim_worker offers s = elim s.current_worker [
  | none ↦ claim_worker offers s
  | some worker ↦ some (s, offers)
]

unfoldable pub load_contribs : Env → Offers → VmSession → Option (VmSession × Offers)
unfolding broken_worker ensure_claim_worker reset_contribs
load_contribs env offers s =
    let s' = gen_id s in
    elim s'.current_worker [
      | some worker ↦
          if worker.is_open
          then some
              (record s' { current_worker = some (deliver (create_message s') worker) }, offers)
          else elim (broken_worker env s') [ none ↦ none | some s'' ↦ some (s'', offers) ]
      | none ↦
          if is_empty s'.scripts
          then some (reset_contribs s', offers)
          else ensure_claim_worker offers
              (record (reset_contribs s') { force_load_scripts_next = true })
    ]
