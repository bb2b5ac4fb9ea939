-- ===== src/GuildScheduler.antt =====
-- cmd/scheduler/src/scheduler.rs: one handler for each guild, the events that wait for a handler to
-- shut down, and the suspended guilds. `handle_action` is one round of the loop in `run`, and the
-- list of actions is what `next_action` returns, in any order of the map. `alive` says whether the
-- receiver in the handler's task still exists; it ends between two rounds (`ends`). `sent` is
-- everything that went through the handler's channel. Times are in milliseconds, and the guild logs
-- are the guilds that were told that they cannot be unsuspended yet.
pub mod Drain
pub mod Orderly
pub mod Flush
pub mod History
pub mod Rounds
pub mod Replay
pub mod Delivery
pub mod Stuck
mod Examples
use botloader.Prelude.{
  ℕ, zero, suc, ◌+◌, ◌-◌, ◌*◌, Bool, true, false, not, ◌&&◌, Option, none, some, List, [], ◌∷◌,
  ◌++◌, Map, lookup, insert, erase, map_values, keep, ltb, ◌==◌, if◌then◌else◌,
}
use Drain.{drain, remove_first}

pub data EventKind : Type 0 where
  guild_delete other : EventKind

pub record GuildEvent : Type 0 where
  pub guild_id : ℕ
  pub kind : EventKind
  pub body : ℕ

pub data GuildCommand : Type 0 where
  broker_event : GuildEvent → GuildCommand
  reload_scripts purge_cache shutdown : GuildCommand

pub record GuildHandle : Type 0 where
  pub tx : Bool
  pub alive : Bool
  pub sent : List GuildCommand

pub data SuspensionReason : Type 0 where
  excess_cpu excess_invalid_discord_requests : SuspensionReason

unfoldable pub duration : SuspensionReason → ℕ
duration excess_cpu = 15 * 1000
duration excess_invalid_discord_requests = 60 * 10 * 1000

pub record GuildSuspension : Type 0 where
  pub reason : SuspensionReason
  pub suspended_at : ℕ

unfoldable pub can_remove : ℕ → GuildSuspension → Bool
unfolding duration
can_remove now susp = ltb (duration susp.reason) (now - susp.suspended_at)

pub record Scheduler : Type 0 where
  pub guilds : Map GuildHandle
  pub queued_events : List GuildEvent
  pub pending_starts : List ℕ
  pub suspended_guilds : Map GuildSuspension
  pub refused : List ℕ

abbrev pub new : Scheduler
new = record {
  guilds = [];
  queued_events = [];
  pending_starts = [];
  suspended_guilds = [];
  refused = [];
}

abbrev pub of_guild : ℕ → GuildEvent → Bool
of_guild g e = e.guild_id == g

-- `GuildHandler::new_run`: a task with a new channel.
abbrev pub new_run : GuildHandle
new_run = record { tx = true; alive = true; sent = [] }

-- `tx.send(cmd)` over a sender that is there.
unfoldable pub send : GuildCommand → GuildHandle → GuildHandle
send cmd h = if h.alive then record h { sent = h.sent ++ cmd ∷ [] } else h

-- `if let Some(tx) = &g.tx { let _ = tx.send(cmd); }`
unfoldable pub notify : GuildCommand → GuildHandle → GuildHandle
unfolding send
notify cmd h = if h.tx then send cmd h else h

-- `if let Some(tx) = worker.tx.take() { let _ = tx.send(Shutdown); }`
unfoldable pub take_and_shut_down : GuildHandle → GuildHandle
unfolding send
take_and_shut_down h = if h.tx then record (send shutdown h) { tx = false } else h

unfoldable pub shutdown_all : Scheduler → Scheduler
shutdown_all s = record s { guilds = map_values take_and_shut_down s.guilds }

-- A change to the handle of one guild, if there is one.
unfoldable pub on_guild : (GuildHandle → GuildHandle) → ℕ → Scheduler → Scheduler
on_guild f g s = elim (lookup g s.guilds) [
  | none ↦ s
  | some h ↦ record s { guilds = insert g (f h) s.guilds }
]

unfoldable pub get_or_start_guild : ℕ → Scheduler → Scheduler × GuildHandle
get_or_start_guild g s = elim (lookup g s.guilds) [
  | none ↦ (record s { guilds = insert g new_run s.guilds }, new_run)
  | some h ↦ (s, h)
]

unfoldable pub try_unsuspend_guild : ℕ → ℕ → Scheduler → Scheduler × Bool
unfolding can_remove
try_unsuspend_guild now g s = elim (lookup g s.suspended_guilds) [
  | none ↦ (s, true)
  | some susp ↦
      if can_remove now susp
      then (record s { suspended_guilds = erase g s.suspended_guilds }, true)
      else (s, false)
]

unfoldable pub mark_guild_as_suspended : ℕ → ℕ → SuspensionReason → Scheduler → Scheduler
mark_guild_as_suspended now g reason s = record s {
  suspended_guilds = insert g (record { reason = reason; suspended_at = now }) s.suspended_guilds;
  pending_starts = keep (λ v. not (v == g)) s.pending_starts;
  queued_events = keep (λ e. not (of_guild g e)) s.queued_events;
}

-- A failed send gives the event back, and it is queued.
unfoldable pub send_or_queue_broker_evt : GuildEvent → Scheduler → Scheduler
unfolding get_or_start_guild send
send_or_queue_broker_evt evt s =
    let (s', h) = get_or_start_guild evt.guild_id s in
    if h.tx && h.alive
    then record s' { guilds = insert evt.guild_id (send (broker_event evt) h) s'.guilds }
    else record s' { queued_events = s'.queued_events ++ evt ∷ [] }

unfoldable pub send_all : List GuildEvent → Scheduler → Scheduler
send_all [] s = s
send_all (e ∷ es) s = send_all es (send_or_queue_broker_evt e s)

unfoldable pub start_pending : ℕ → Scheduler → Scheduler
start_pending g s = elim (remove_first g s.pending_starts) [
  | none ↦ s
  | some rest ↦ (get_or_start_guild g (record s { pending_starts = rest })).0
]

-- `none` is a panic of `Vec::remove`.
unfoldable pub check_queue_start_worker : ℕ → Scheduler → Option Scheduler
check_queue_start_worker g s =
    let s' = start_pending g s in
    elim (drain (of_guild g) s'.queued_events) [
      | none ↦ none
      | some (evts, rest) ↦ some (send_all evts (record s' { queued_events = rest }))
    ]

pub data VmSessionEvent : Type 0 where
  too_many_invalid_requests forcibly_shutdown : VmSessionEvent

unfoldable pub handle_guild_handler_event : ℕ → ℕ → VmSessionEvent → Scheduler → Scheduler
unfolding mark_guild_as_suspended
handle_guild_handler_event now g forcibly_shutdown s = mark_guild_as_suspended now g excess_cpu s
handle_guild_handler_event now g too_many_invalid_requests s =
    mark_guild_as_suspended now g excess_invalid_discord_requests s

pub data SchedulerCommand : Type 0 where
  broker_connected broker_disconnected stop : SchedulerCommand
  broker_hello : List ℕ → SchedulerCommand
  discord_event : GuildEvent → SchedulerCommand
  reload_guild_scripts purge_guild_cache : ℕ → SchedulerCommand

unfoldable pub start_or_schedule : ℕ → Scheduler → Scheduler
unfolding get_or_start_guild
start_or_schedule g s =
    let (s', h) = get_or_start_guild g s in
    if h.tx then s' else record s' { pending_starts = s'.pending_starts ++ g ∷ [] }

-- The loop over the guilds that the broker is connected to.
unfoldable pub start_connected : ℕ → List ℕ → Scheduler → Scheduler
start_connected now [] s = s
start_connected now (g ∷ gs) s =
    let (s', free) = try_unsuspend_guild now g s in
    start_connected now gs (if free then start_or_schedule g s' else s')

unfoldable pub handle_discord_event : ℕ → GuildEvent → Scheduler → Scheduler
handle_discord_event now evt s =
    let (s', free) = try_unsuspend_guild now evt.guild_id s in
    if free
    then elim evt.kind [
      | guild_delete ↦ on_guild take_and_shut_down evt.guild_id s'
      | other ↦ send_or_queue_broker_evt evt s'
    ]
    else s'

unfoldable pub handle_reload : ℕ → ℕ → Scheduler → Scheduler
handle_reload now g s =
    let (s', free) = try_unsuspend_guild now g s in
    if free
    then on_guild (notify reload_scripts) g (get_or_start_guild g s').0
    else record s' { refused = s'.refused ++ g ∷ [] }

-- `none` is the panic on a command that the caller should have handled.
unfoldable pub handle_scheduler_command : ℕ → SchedulerCommand → Scheduler → Option Scheduler
handle_scheduler_command now (broker_hello gs) s =
    some (start_connected now gs (record (shutdown_all s) { pending_starts = [] }))
handle_scheduler_command now broker_disconnected s = some (shutdown_all s)
handle_scheduler_command now broker_connected s = some s
handle_scheduler_command now (discord_event evt) s = some (handle_discord_event now evt s)
handle_scheduler_command now stop s = none
handle_scheduler_command now (reload_guild_scripts g) s = some (handle_reload now g s)
handle_scheduler_command now (purge_guild_cache g) s = some (on_guild (notify purge_cache) g s)

pub data SchedulerAction : Type 0 where
  cmd : Option SchedulerCommand → SchedulerAction
  guild_handler : ℕ → Option VmSessionEvent → SchedulerAction

unfoldable pub remove_guild : ℕ → Scheduler → Scheduler
remove_guild g s = record s { guilds = erase g s.guilds }

unfoldable pub handle_finished : ℕ → ℕ → Scheduler → Option Scheduler
handle_finished now g s =
    let (s', free) = try_unsuspend_guild now g (remove_guild g s) in
    if free then check_queue_start_worker g s' else some s'

-- Where `run` is: in its loop, in `wait_all_shutdown`, or returned.
pub data Stage : Type 0 where
  looping waiting returned : Stage

pub record Run : Type 0 where
  pub stage : Stage
  pub scheduler : Scheduler

abbrev pub is_empty_map {ℓ} : {V : Type ℓ} → Map V → Bool
is_empty_map [] = true
is_empty_map (x ∷ m) = false

abbrev pub looping_on : Option Scheduler → Option Run
looping_on none = none
looping_on (some s) = some (record { stage = looping; scheduler = s })

-- `wait_all_shutdown` returns where no guild is left.
unfoldable pub wait_on : Scheduler → Run
wait_on s = record { stage = if is_empty_map s.guilds then returned else waiting; scheduler = s }

abbrev pub waiting_on : Option Scheduler → Option Run
waiting_on none = none
waiting_on (some s) = some (wait_on s)

unfoldable pub loop_step : ℕ → SchedulerAction → Scheduler → Option Run
loop_step now (cmd (some stop)) s = some (wait_on (shutdown_all s))
loop_step now (cmd (some c)) s = looping_on (handle_scheduler_command now c s)
loop_step now (cmd none) s = some (wait_on (shutdown_all s))
loop_step now (guild_handler g none) s = looping_on (handle_finished now g s)
loop_step now (guild_handler g (some evt)) s =
    looping_on (some (handle_guild_handler_event now g evt s))

unfoldable pub wait_step : SchedulerAction → Scheduler → Option Run
wait_step (guild_handler g none) s = waiting_on (check_queue_start_worker g (remove_guild g s))
wait_step _ s = some (record { stage = waiting; scheduler = s })

-- One step of the program at a time, or the end of a guild's handler.
pub data Event : Type 0 where
  action : ℕ → SchedulerAction → Event
  ends : ℕ → Event

unfoldable pub end_handler : GuildHandle → GuildHandle
end_handler h = record h { alive = false }

unfoldable pub step : Event → Run → Option Run
step (ends g) r = some (record r { scheduler = on_guild end_handler g r.scheduler })
step (action now a) r = elim r.stage [
  | looping ↦ loop_step now a r.scheduler
  | waiting ↦ wait_step a r.scheduler
  | returned ↦ some r
]

abbrev pub and_then : Option Run → (Run → Option Run) → Option Run
and_then none f = none
and_then (some r) f = f r

unfoldable pub run : List Event → Run → Option Run
run [] r = some r
run (e ∷ es) r = and_then (step e r) (run es)

abbrev pub start : Run
start = record { stage = looping; scheduler = new }
