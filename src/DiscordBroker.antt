-- ===== src/DiscordBroker.antt =====
-- cmd/discordbroker/src/broker.rs: the broker between Discord's gateway and the scheduler, which keeps
-- the events that come while no scheduler is connected. The connection is the list of what becomes of
-- each of the messages that are sent over it; past its end it is dead. `sent` is what arrived at a
-- scheduler, each message with whether its acknowledgement came back. `to_dispatch` is the conversion
-- of the gateway's library, an event's data is one number, and times are in milliseconds. The cache of
-- Discord's state is an argument, and metrics and logs are left out.
pub mod Queue
pub mod Fifo
pub mod Expiry
mod Examples
use botloader.Prelude.{
  ℕ, ◌-◌, ◌*◌, Bool, true, false, Option, none, some, List, [], ◌∷◌, ◌++◌, ltb, if◌then◌else◌,
}

-- Which event of the gateway it is, with its guild.
pub data EventKind : Type 0 where
  ready other : EventKind
  guild_delete : ℕ → Bool → EventKind
  guild_create member_add member_remove member_update reaction_remove_emoji thread_delete :
      ℕ → EventKind
  message_create message_delete message_delete_bulk message_update : Option ℕ → EventKind
  reaction_add reaction_remove reaction_remove_all interaction_create : Option ℕ → EventKind
  channel_create channel_update channel_delete thread_create thread_update : Option ℕ → EventKind

pub record GatewayEvent : Type 0 where
  pub kind : EventKind
  pub body : ℕ

-- A queued event: its guild and its data.
abbrev pub QueuedEvent : Type 0
QueuedEvent = ℕ × ℕ

pub data BrokerEvent : Type 0 where
  hello : List ℕ → BrokerEvent
  discord_event : QueuedEvent → BrokerEvent

-- What becomes of a message: it arrives and is acknowledged, it arrives and the acknowledgement is
-- lost, or it does not arrive.
pub data Answer : Type 0 where
  acked unacked unsent : Answer

pub data StoreCall : Type 0 where
  left : ℕ → StoreCall
  joined : ℕ → StoreCall

pub record Broker : Type 0 where
  pub connected_scheduler : Option (List Answer)
  pub queued_events : List QueuedEvent
  pub scheduler_disconnected_at : ℕ
  pub is_ready : Bool
  pub sent : List (BrokerEvent × Bool)
  pub store_calls : List StoreCall

-- The state that `run_broker` starts with.
abbrev pub new : ℕ → Broker
new now = record {
  connected_scheduler = none;
  queued_events = [];
  scheduler_disconnected_at = now;
  is_ready = false;
  sent = [];
  store_calls = [];
}

abbrev pub queue_lifetime : ℕ
queue_lifetime = 60 * 1000

-- `send_event` with `wait_for_ack`: whether both succeed.
unfoldable pub send_event : BrokerEvent → Broker → Broker × Bool
send_event msg b = elim b.connected_scheduler [
  | none ↦ (b, true)
  | some [] ↦ (b, false)
  | some (acked ∷ rest) ↦
      (record b { connected_scheduler = some rest; sent = b.sent ++ (msg, true) ∷ [] }, true)
  | some (unacked ∷ rest) ↦
      (record b { connected_scheduler = some rest; sent = b.sent ++ (msg, false) ∷ [] }, false)
  | some (unsent ∷ rest) ↦ (record b { connected_scheduler = some rest }, false)
]

abbrev pub enqueue : QueuedEvent → Broker → Broker
enqueue e b = record b { queued_events = b.queued_events ++ e ∷ [] }

unfoldable pub queue_event : ℕ → QueuedEvent → Broker → Broker
queue_event now e b =
    if ltb queue_lifetime (now - b.scheduler_disconnected_at)
    then record b { queued_events = [] }
    else enqueue e b

abbrev pub disconnect : ℕ → Broker → Broker
disconnect now b = record b { connected_scheduler = none; scheduler_disconnected_at = now }

unfoldable pub dispatch_or_queue_event : ℕ → QueuedEvent → Broker → Broker
unfolding send_event queue_event
dispatch_or_queue_event now e b = elim b.connected_scheduler [
  | none ↦ queue_event now e b
  | some conn ↦
      let (b', ok) = send_event (discord_event e) b in
      if ok then b' else queue_event now e (disconnect now b')
]

-- The loop over the events that were queued when a scheduler connects.
unfoldable pub resend : ℕ → List QueuedEvent → Broker → Broker
unfolding send_event
resend now [] b = b
resend now (e ∷ es) b = elim b.connected_scheduler [
  | none ↦ resend now es (enqueue e b)
  | some conn ↦
      let (b', ok) = send_event (discord_event e) b in
      resend now es (if ok then b' else disconnect now (enqueue e b'))
]

unfoldable pub greet : List ℕ → Broker → Broker
unfolding send_event
greet guilds b =
    let (b', ok) = send_event (hello guilds) b in
    if ok then b' else record b' { connected_scheduler = none }

unfoldable pub handle_new_scheduler_connected : ℕ → List ℕ → Broker → Broker
unfolding greet resend
handle_new_scheduler_connected now guilds b =
    let b' = greet guilds b in resend now b'.queued_events (record b' { queued_events = [] })

-- `handle_cmd` with its one command.
unfoldable pub scheduler_connected : ℕ → List ℕ → List Answer → Broker → Broker
unfolding handle_new_scheduler_connected
scheduler_connected now guilds stream b =
    handle_new_scheduler_connected now guilds (record b { connected_scheduler = some stream })

-- The guild of an event that is passed on.
unfoldable pub guild_of : EventKind → Option ℕ
guild_of ready = none
guild_of other = none
guild_of (guild_delete g unavailable) = some g
guild_of (guild_create g) = some g
guild_of (member_add g) = some g
guild_of (member_remove g) = some g
guild_of (member_update g) = some g
guild_of (reaction_remove_emoji g) = some g
guild_of (thread_delete g) = some g
guild_of (message_create g) = g
guild_of (message_delete g) = g
guild_of (message_delete_bulk g) = g
guild_of (message_update g) = g
guild_of (reaction_add g) = g
guild_of (reaction_remove g) = g
guild_of (reaction_remove_all g) = g
guild_of (interaction_create g) = g
guild_of (channel_create g) = g
guild_of (channel_update g) = g
guild_of (channel_delete g) = g
guild_of (thread_create g) = g
guild_of (thread_update g) = g

-- What the event changes before it is passed on.
unfoldable pub note_event : EventKind → Broker → Broker
note_event ready b = record b { is_ready = true }
note_event (guild_delete g false) b = record b { store_calls = b.store_calls ++ left g ∷ [] }
note_event (guild_create g) b = record b { store_calls = b.store_calls ++ joined g ∷ [] }
note_event _ b = b

unfoldable pub handle_event : (GatewayEvent → Option ℕ) → ℕ → GatewayEvent → Broker → Broker
unfolding note_event guild_of dispatch_or_queue_event
handle_event to_dispatch now evt b = elim (guild_of evt.kind) [
  | none ↦ note_event evt.kind b
  | some g ↦ elim (to_dispatch evt) [
    | none ↦ note_event evt.kind b
    | some body ↦ dispatch_or_queue_event now (g, body) (note_event evt.kind b)
  ]
]

-- One round of the loop of `run`.
pub data Input : Type 0 where
  gateway : ℕ → GatewayEvent → Input
  connection : ℕ → List ℕ → List Answer → Input

unfoldable pub step : (GatewayEvent → Option ℕ) → Input → Broker → Broker
unfolding handle_event scheduler_connected
step to_dispatch (gateway now evt) b = handle_event to_dispatch now evt b
step to_dispatch (connection now guilds stream) b = scheduler_connected now guilds stream b

unfoldable pub run : (GatewayEvent → Option ℕ) → List Input → Broker → Broker
unfolding step
run to_dispatch [] b = b
run to_dispatch (i ∷ is) b = run to_dispatch is (step to_dispatch i b)
