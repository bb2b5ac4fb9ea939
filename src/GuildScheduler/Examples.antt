-- ===== src/GuildScheduler/Examples.antt =====
-- The theorems on cmd/scheduler/src/scheduler.rs at concrete schedulers.
use botloader.Prelude.{ℕ, ◌≡◌, refl, true, false, none, some, List, [], ◌∷◌, map, keep, lookup}
use botloader.GuildScheduler.{
  GuildEvent, GuildHandle, broker_event, other, Scheduler, Event, action, ends, cmd, guild_handler,
  forcibly_shutdown, broker_hello, broker_disconnected, discord_event, stop, waiting, new, start,
  run, of_guild, handle_discord_event, check_queue_start_worker, shutdown,
}
use botloader.GuildScheduler.Drain.{remove_first}
use botloader.GuildScheduler.Orderly.{IsOrderly}
use botloader.GuildScheduler.Flush.{Ensures}
use botloader.GuildScheduler.Rounds.{RunsOrderly, run-start-RunsOrderly}
use botloader.GuildScheduler.Replay.{
  running, HandleSet, flushed, check_queue_start_worker-HandleSet,
}
use botloader.GuildScheduler.Delivery.{Delivery, handle_discord_event-Delivery}
use botloader.GuildScheduler.Stuck.{WaitsOn, shutdown-WaitsOn_restart}

abbrev message : ℕ → ℕ → GuildEvent
message g n = record { guild_id = g; kind = other; body = n }

-- The broker connects, a guild's handler is shut down and an event of the guild comes in.
abbrev events : List Event
events =
    action 1 (cmd (some (broker_hello (3 ∷ 4 ∷ []))))
    ∷ action 2 (cmd (some broker_disconnected))
    ∷ action 3 (cmd (some (discord_event (message 3 8))))
    ∷ ends 3
    ∷ action 4 (guild_handler 3 none)
    ∷ action 5 (guild_handler 4 (some forcibly_shutdown))
    ∷ action 6 (cmd (some stop))
    ∷ []

run-start-RunsOrderly_example : Ensures RunsOrderly (run events start)
run-start-RunsOrderly_example = run-start-RunsOrderly events

-- Guild 3 shuts down while two of its events wait.
abbrev closing : GuildHandle
closing = record { tx = false; alive = true; sent = shutdown ∷ [] }

abbrev parked : Scheduler
parked = record new { guilds = (3, closing) ∷ []; queued_events = message 3 1 ∷ message 3 2 ∷ [] }

parked-IsOrderly : IsOrderly parked
unfolding lookup
parked-IsOrderly = record {
  parked = (refl, (refl, tt));
  awaited = tt;
  spared = (tt, (tt, tt));
  freed = tt;
}

abbrev left : Scheduler
left = record parked { guilds = [] }

check_queue_start_worker-HandleSet_example :
    Ensures
      (HandleSet 3
        (some (running (broker_event (message 3 1) ∷ broker_event (message 3 2) ∷ [])))
        (flushed 3 left))
      (check_queue_start_worker 3 left)
unfolding keep remove_first lookup
check_queue_start_worker-HandleSet_example = check_queue_start_worker-HandleSet 3 left refl

handle_discord_event-Delivery_example :
    Delivery (message 3 9) parked (handle_discord_event 5 (message 3 9) parked)
unfolding lookup
handle_discord_event-Delivery_example =
    handle_discord_event-Delivery 5 (message 3 9) parked parked-IsOrderly refl refl

shutdown-WaitsOn_restart_example :
    Ensures (WaitsOn 3 (running (broker_event (message 3 1) ∷ broker_event (message 3 2) ∷ []))) (
      run
        (action 9 (guild_handler 3 none) ∷ action 10 (cmd (some stop)) ∷ [])
        (record { stage = waiting; scheduler = parked }))
    × (broker_event (message 3 1) ∷ broker_event (message 3 2) ∷ []
        ≡ map broker_event (keep (of_guild 3) parked.queued_events))
unfolding keep remove_first
shutdown-WaitsOn_restart_example =
    shutdown-WaitsOn_restart 3 9 parked
      (running (broker_event (message 3 1) ∷ broker_event (message 3 2) ∷ []))
      (action 10 (cmd (some stop)) ∷ []) refl (tt, tt)
