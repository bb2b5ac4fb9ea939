-- ===== src/DiscordBroker/Examples.antt =====
-- A broker whose scheduler is lost and replaced, and one whose scheduler is lost while it is greeted.
use botloader.Prelude.{ℕ, ◌≡◌, refl, Option, some, List, [], ◌∷◌}
use botloader.DiscordBroker.{
  message_create, GatewayEvent, acked, unacked, Broker, new, Input, gateway, connection, run, step,
  handle_event, handle_new_scheduler_connected, greet, resend, queue_event, send_event, note_event,
  guild_of, dispatch_or_queue_event, scheduler_connected,
}
use botloader.DiscordBroker.Queue.{log, acked_events, WaitsDown}
use botloader.DiscordBroker.Fifo.{AllInTime, all_passed, run-fifo}
use botloader.DiscordBroker.Expiry.{greeting_lost-drops}

abbrev message : ℕ → GatewayEvent
message n = record { kind = message_create (some 7); body = n }

abbrev to_dispatch : GatewayEvent → Option ℕ
to_dispatch evt = some evt.body

abbrev inputs : List Input
inputs =
    gateway 5 (message 1)
    ∷ connection 10 (7 ∷ []) (acked ∷ acked ∷ acked ∷ unacked ∷ [])
    ∷ gateway 20 (message 2)
    ∷ gateway 30 (message 3)
    ∷ gateway 40 (message 4)
    ∷ connection 50 (7 ∷ []) (acked ∷ acked ∷ [])
    ∷ []

in_time : AllInTime to_dispatch inputs (new 0)
unfolding step handle_event scheduler_connected handle_new_scheduler_connected greet resend
    dispatch_or_queue_event queue_event send_event note_event guild_of
in_time = (refl, (tt, (tt, (refl, tt))))

run-fifo_example :
    (log (run to_dispatch inputs (new 0)) ≡ all_passed to_dispatch inputs)
    × WaitsDown (run to_dispatch inputs (new 0))
run-fifo_example = run-fifo to_dispatch 0 inputs in_time

abbrev waiting : Broker
waiting = record (new 0) { queued_events = (7, 1) ∷ [] }

greeting_lost-drops_example :
    let b' =
      dispatch_or_queue_event 70000
        (7, 2)
        (scheduler_connected 70000 (7 ∷ []) (unacked ∷ []) waiting) in
    (b'.queued_events ≡ []) × (acked_events b'.sent ≡ acked_events waiting.sent)
greeting_lost-drops_example =
    greeting_lost-drops 70000 (7, 2) (7 ∷ []) (unacked ∷ []) waiting refl tt
