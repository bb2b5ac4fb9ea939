-- ===== src/BrokerClient.antt =====
-- cmd/scheduler/src/broker_client.rs: the scheduler's side of the connection to the broker. `given` is what
-- the scheduler's channel took, and a `Step` is what becomes of a message that arrives: whether the channel
-- takes it and whether the acknowledgement can be written. The decoding of an event (`GuildEvent::try_from`)
-- is an argument, and the frames are those of Framing.
pub mod Deliveries
mod Examples
use botloader.Prelude.{ℕ, Bool, true, false, Option, none, some, List, [], ◌∷◌, ◌++◌, if◌then◌else◌}
use botloader.DiscordBroker.{BrokerEvent, QueuedEvent, hello, discord_event}
use botloader.GuildScheduler.{
  GuildEvent, SchedulerCommand, broker_connected, broker_disconnected, broker_hello,
}
use botloader.GuildScheduler as GuildScheduler

pub record Step : Type 0 where
  pub is_taken : Bool
  pub is_written : Bool

-- How `BrokerConn::run` ends; a panic ends the task of the client.
pub data ConnEnd : Type 0 where
  disconnected scheduler_gone panicked : ConnEnd

abbrev pub Decoder : Type 0
Decoder = QueuedEvent → Option GuildEvent

unfoldable pub command_of : Decoder → BrokerEvent → Option SchedulerCommand
command_of decode (hello guilds) = some (broker_hello guilds)
command_of decode (discord_event e) = elim (decode e) [
  | none ↦ none
  | some evt ↦ some (GuildScheduler.discord_event evt)
]

-- The loop of `BrokerConn::run`: what is given to the scheduler, the messages that were read with whether
-- they were acknowledged, and the end. Past the last step or message the connection is broken.
unfoldable pub read_loop :
    Decoder
    → List BrokerEvent
    → List Step
    → List SchedulerCommand × List (BrokerEvent × Bool) × ConnEnd
unfolding command_of
read_loop decode [] steps = ([], [], disconnected)
read_loop decode (msg ∷ msgs) [] = ([], [], disconnected)
read_loop decode (msg ∷ msgs) (step ∷ steps) =
    let (given, read, ended) = read_loop decode msgs steps in
    elim (command_of decode msg) [
      | none ↦ ([], (msg, false) ∷ [], panicked)
      | some cmd ↦
          if step.is_taken
          then if step.is_written
            then (cmd ∷ given, (msg, true) ∷ read, ended)
            else (cmd ∷ [], (msg, false) ∷ [], disconnected)
          else ([], (msg, false) ∷ [], scheduler_gone)
    ]

-- A round of `broker_client`: the scheduler is gone, the broker is not reached, or a connection.
pub data Attempt : Type 0 where
  closed unreachable : Attempt
  connected : List BrokerEvent → List Step → Attempt

unfoldable pub broker_client : Decoder → List Attempt → List SchedulerCommand
unfolding read_loop
broker_client decode [] = []
broker_client decode (closed ∷ rest) = []
broker_client decode (unreachable ∷ rest) = broker_client decode rest
broker_client decode (connected msgs steps ∷ rest) =
    let later = broker_client decode rest in
    let (given, read, ended) = read_loop decode msgs steps in
    broker_connected ∷ given ++ elim ended [ panicked ↦ [] | _ ↦ broker_disconnected ∷ later ]
