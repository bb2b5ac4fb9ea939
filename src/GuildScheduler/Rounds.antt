-- ===== src/GuildScheduler/Rounds.antt =====
-- The rounds of the loops in cmd/scheduler/src/scheduler.rs, and any sequence of them.
use botloader.Prelude.{
  ℕ, ◌≡◌, ◌≢◌, refl, subst, true, false, ◌&&◌, Option, none, some, List, [], ◌∷◌, lookup, erase,
  lookup-erase, ◌⊎◌, All, All-map, arith, ◌==◌, Bool-cases, Option-cases, inl, inr,
}
use botloader.GuildScheduler.{
  GuildHandle, GuildCommand, reload_scripts, purge_cache, GuildSuspension, Scheduler,
  SchedulerCommand, broker_connected, broker_disconnected, stop, broker_hello, discord_event,
  reload_guild_scripts, purge_guild_cache, VmSessionEvent, too_many_invalid_requests,
  forcibly_shutdown, SchedulerAction, cmd, guild_handler, Stage, looping, waiting, returned, Run,
  Event, action, ends, start, notify, end_handler, try_unsuspend_guild, can_remove, handle_reload,
  handle_scheduler_command, handle_guild_handler_event, remove_guild, handle_finished, loop_step,
  wait_step, wait_on, looping_on, waiting_on, step, run,
}
use botloader.GuildScheduler.Orderly.{
  Closing, Present, Free, IsOrderly, shutdown_all-IsOrderly, on_guild-IsOrderly,
  get_or_start_guild-IsOrderly, try_unsuspend_guild-IsOrderly, mark_guild_as_suspended-IsOrderly,
}
use botloader.GuildScheduler.Flush.{
  Ensures, and_then-Ensures, IsLeaving, remove_guild-IsLeaving, check_queue_start_worker-IsOrderly,
}
use botloader.GuildScheduler.History.{start_connected-IsOrderly, handle_discord_event-IsOrderly}

notify-closes :
    (c : GuildCommand) (h : GuildHandle)
    → (h.tx && h.alive) ≡ false
    → ((notify c h).tx && (notify c h).alive) ≡ false
unfolding notify
notify-closes c h e = ground arith

end_handler-closes :
    (h : GuildHandle)
    → (h.tx && h.alive) ≡ false
    → ((end_handler h).tx && (end_handler h).alive) ≡ false
unfolding end_handler
end_handler-closes h e = ground arith

module _ (now : ℕ) (s : Scheduler) (v : IsOrderly s) where
  handle_reload-IsOrderly : (g : ℕ) → IsOrderly (handle_reload now g s)
  unfolding handle_reload
  handle_reload-IsOrderly g =
      let u = try_unsuspend_guild-IsOrderly s v now g in
      elim (Bool-cases (try_unsuspend_guild now g s).1) [
        | inl e ↦ rw e (
            on_guild-IsOrderly _ (get_or_start_guild-IsOrderly _ u g) (notify reload_scripts) g
              (notify-closes reload_scripts))
        | inr e ↦
            rw e (record {
              parked = u.parked;
              awaited = u.awaited;
              spared = u.spared;
              freed = u.freed;
            })
      ]

  handle_scheduler_command-IsOrderly :
      (c : SchedulerCommand) → c ≢ stop → Ensures IsOrderly (handle_scheduler_command now c s)
  unfolding handle_scheduler_command
  handle_scheduler_command-IsOrderly (broker_hello gs) h =
      let u = shutdown_all-IsOrderly s v in
      start_connected-IsOrderly now gs _
        (record { parked = u.parked; awaited = tt; spared = u.spared; freed = tt })
  handle_scheduler_command-IsOrderly broker_disconnected h = shutdown_all-IsOrderly s v
  handle_scheduler_command-IsOrderly broker_connected h = v
  handle_scheduler_command-IsOrderly (discord_event evt) h =
      handle_discord_event-IsOrderly now evt s v
  handle_scheduler_command-IsOrderly stop h = h refl
  handle_scheduler_command-IsOrderly (reload_guild_scripts g) h = handle_reload-IsOrderly g
  handle_scheduler_command-IsOrderly (purge_guild_cache g) h =
      on_guild-IsOrderly s v (notify purge_cache) g (notify-closes purge_cache)

  handle_guild_handler_event-IsOrderly :
      (g : ℕ) (e : VmSessionEvent) → IsOrderly (handle_guild_handler_event now g e s)
  unfolding handle_guild_handler_event
  handle_guild_handler_event-IsOrderly g forcibly_shutdown =
      mark_guild_as_suspended-IsOrderly s v now g _
  handle_guild_handler_event-IsOrderly g too_many_invalid_requests =
      mark_guild_as_suspended-IsOrderly s v now g _

unsuspended-IsLeaving :
    (now g : ℕ) (s : Scheduler) → IsLeaving g s → IsLeaving g (try_unsuspend_guild now g s).0
unfolding try_unsuspend_guild
unsuspended-IsLeaving now g s v = elim (Option-cases (lookup g s.suspended_guilds)) [
  | inl e ↦ rw (e, try_unsuspend_guild) v
  | inr (x, e) ↦ elim (Bool-cases (can_remove now x)) [
    | inl c ↦
        rw (e, try_unsuspend_guild, c)
          (record {
            parked = v.parked;
            awaited = v.awaited;
            spared = All-map _ _ s.queued_events (λ y. erased y.guild_id) v.spared;
            freed = All-map _ _ s.pending_starts erased v.freed;
          })
    | inr c ↦ rw (e, try_unsuspend_guild, c) v
  ]
]
  where
    erased :
        (k : ℕ) → Free (lookup k s.suspended_guilds) → Free (lookup k (erase g s.suspended_guilds))
    erased k f = rw lookup-erase (ground arith)

-- Nothing waits for a suspended guild.
stays :
    (P : Option GuildHandle → Type 0) (g : ℕ) (s : Scheduler) (x : GuildSuspension)
    → lookup g s.suspended_guilds ≡ some x
    → {A : Type 0} (key : A → ℕ) (ys : List A)
    → All (λ y. Free (lookup (key y) s.suspended_guilds)) ys
    → All (λ y. ((key y == g) ≡ true) ⊎ P (lookup (key y) s.guilds)) ys
    → All (λ y. P (lookup (key y) s.guilds)) ys
stays P g s x e key [] f h = tt
stays P g s x e key (y ∷ ys) f (inr c, h) = (c, stays P g s x e key ys f.1 h)
stays P g s x e key (y ∷ ys) f (inl b, h) =
    let same : key y ≡ g = ground arith in
    absurd (subst Free e (subst (λ k. Free (lookup k s.suspended_guilds)) same f.0))

-- A guild that stays suspended has nothing waiting, so it leaves nothing behind.
suspended-IsOrderly :
    (now g : ℕ) (s : Scheduler)
    → IsLeaving g s
    → (try_unsuspend_guild now g s).1 ≡ false
    → IsOrderly (try_unsuspend_guild now g s).0
unfolding try_unsuspend_guild
suspended-IsOrderly now g s v = elim (Option-cases (lookup g s.suspended_guilds)) [
  | inl e ↦ λ f. absurd (cc (rw (e, try_unsuspend_guild) at f))
  | inr (x, e) ↦ elim (Bool-cases (can_remove now x)) [
    | inl c ↦ λ f. absurd (cc (rw (e, try_unsuspend_guild, c) at f))
    | inr c ↦ λ f.
        rw (e, try_unsuspend_guild, c)
          (record {
            parked = stays Closing g s x e (λ y. y.guild_id) s.queued_events v.spared v.parked;
            awaited = stays Present g s x e (λ k. k) s.pending_starts v.freed v.awaited;
            spared = v.spared;
            freed = v.freed;
          })
  ]
]

handle_finished-IsOrderly :
    (now g : ℕ) (s : Scheduler) → IsOrderly s → Ensures IsOrderly (handle_finished now g s)
unfolding handle_finished
handle_finished-IsOrderly now g s v =
    let u = remove_guild-IsLeaving g s v in
    elim (Bool-cases (try_unsuspend_guild now g (remove_guild g s)).1) [
      | inl e ↦ rw e (check_queue_start_worker-IsOrderly g _ (unsuspended-IsLeaving now g _ u))
      | inr e ↦ rw e (suspended-IsOrderly now g _ u e)
    ]

abbrev pub RunsOrderly : Run → Type 0
RunsOrderly r = IsOrderly r.scheduler

looping-RunsOrderly :
    (o : Option Scheduler) → Ensures IsOrderly o → Ensures RunsOrderly (looping_on o)
looping-RunsOrderly none h = h
looping-RunsOrderly (some s) h = h

waiting-RunsOrderly :
    (o : Option Scheduler) → Ensures IsOrderly o → Ensures RunsOrderly (waiting_on o)
unfolding wait_on
waiting-RunsOrderly none h = h
waiting-RunsOrderly (some s) h = h

loop_step-RunsOrderly :
    (now : ℕ) (a : SchedulerAction) (s : Scheduler)
    → IsOrderly s
    → Ensures RunsOrderly (loop_step now a s)
unfolding loop_step wait_on
loop_step-RunsOrderly now (cmd none) s v = shutdown_all-IsOrderly s v
loop_step-RunsOrderly now (cmd (some stop)) s v = shutdown_all-IsOrderly s v
loop_step-RunsOrderly now (cmd (some c)) s v =
    looping-RunsOrderly _ (handle_scheduler_command-IsOrderly now s v c (λ e. cc))
loop_step-RunsOrderly now (guild_handler g none) s v =
    looping-RunsOrderly _ (handle_finished-IsOrderly now g s v)
loop_step-RunsOrderly now (guild_handler g (some e)) s v =
    handle_guild_handler_event-IsOrderly now s v g e

wait_step-RunsOrderly :
    (a : SchedulerAction) (s : Scheduler) → IsOrderly s → Ensures RunsOrderly (wait_step a s)
unfolding wait_step
wait_step-RunsOrderly (guild_handler g none) s v =
    waiting-RunsOrderly _ (check_queue_start_worker-IsOrderly g _ (remove_guild-IsLeaving g s v))
wait_step-RunsOrderly _ s v = v

step-RunsOrderly : (e : Event) (r : Run) → RunsOrderly r → Ensures RunsOrderly (step e r)
unfolding step
step-RunsOrderly (ends g) r v = on_guild-IsOrderly r.scheduler v end_handler g end_handler-closes
step-RunsOrderly (action now a) r v = by_stage r.stage
  where
    by_stage :
        (t : Stage)
        → Ensures RunsOrderly (elim t [
          | looping ↦ loop_step now a r.scheduler
          | waiting ↦ wait_step a r.scheduler
          | returned ↦ some r
        ])
    by_stage looping = loop_step-RunsOrderly now a r.scheduler v
    by_stage waiting = wait_step-RunsOrderly a r.scheduler v
    by_stage returned = v

run-RunsOrderly : (es : List Event) (r : Run) → RunsOrderly r → Ensures RunsOrderly (run es r)
unfolding run
run-RunsOrderly [] r v = v
run-RunsOrderly (e ∷ es) r v =
    and_then-Ensures RunsOrderly (step e r) (run es) (run-RunsOrderly es) (step-RunsOrderly e r v)

-- Whatever commands, handler events and handler ends come in whatever order, the scheduler never
-- panics. An event waits only while its guild has a handler that takes no more commands, a guild
-- waits for its start only while it has a handler, and neither waits for a suspended guild.
pub run-start-RunsOrderly : (es : List Event) → Ensures RunsOrderly (run es start)
run-start-RunsOrderly es =
    run-RunsOrderly es start (record { parked = tt; awaited = tt; spared = tt; freed = tt })
