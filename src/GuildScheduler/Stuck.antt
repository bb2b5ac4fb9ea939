-- ===== src/GuildScheduler/Stuck.antt =====
-- `wait_all_shutdown` of cmd/scheduler/src/scheduler.rs, where something waits for a guild.
use botloader.Prelude.{
  ℕ, ◌≡◌, ◌≢◌, refl, ◌∙◌, false, Option, none, some, List, [], ◌∷◌, map, lookup, lookup-insert,
  lookup-erase, ==_refl, keep, All, arith, ◌==◌, if◌then◌else◌, Option-cases, inl, inr,
}
use botloader.GuildScheduler.{
  GuildHandle, GuildEvent, broker_event, Scheduler, SchedulerAction, cmd, guild_handler, waiting,
  Run, Event, action, ends, of_guild, on_guild, remove_guild, check_queue_start_worker, wait_on,
  waiting_on, wait_step, step, run,
}
use botloader.GuildScheduler.Drain.{remove_first}
use botloader.GuildScheduler.Flush.{Ensures, and_then-Ensures}
use botloader.GuildScheduler.Replay.{next_handle, check_queue_start_worker-HandleSet}

-- The program waits for all handlers to end, and the guild's handle is this one.
abbrev pub WaitsOn : ℕ → GuildHandle → Run → Type 0
WaitsOn g h r = (r.stage ≡ waiting) × (lookup g r.scheduler.guilds ≡ some h)

-- The event does not end the guild's handler.
abbrev pub Spares : ℕ → Event → Type 0
Spares g (ends k) = k ≢ g
Spares g (action now (guild_handler k none)) = k ≢ g
Spares g (action now a) = Unit {0}

wait_on-WaitsOn :
    (g : ℕ) (h : GuildHandle) (s : Scheduler) → lookup g s.guilds ≡ some h → WaitsOn g h (wait_on s)
unfolding wait_on lookup
wait_on-WaitsOn g h s e = (ground arith, e)

waiting_on-Ensures :
    (P : Run → Type 0) (Q : Scheduler → Type 0) (o : Option Scheduler)
    → ((t : Scheduler) → Q t → P (wait_on t))
    → Ensures Q o
    → Ensures P (waiting_on o)
waiting_on-Ensures P Q none f e = e
waiting_on-Ensures P Q (some t) f e = f t e

-- The handles after the end of a guild's handler.
abbrev Handles : ℕ → Scheduler → Scheduler → Type 0
Handles g s t =
    (k : ℕ)
    → lookup k t.guilds ≡ (
        if g == k
        then next_handle (remove_first g s.pending_starts) (keep (of_guild g) s.queued_events)
        else lookup k s.guilds)

-- The end of a handler in `wait_all_shutdown`.
finished-Ensures :
    (g : ℕ) (s : Scheduler) (P : Run → Type 0)
    → ((t : Scheduler) → Handles g s t → P (wait_on t))
    → Ensures P (wait_step (guild_handler g none) s)
unfolding wait_step remove_guild
finished-Ensures g s P f =
    waiting_on-Ensures P _ (check_queue_start_worker g (remove_guild g s))
      (λ t e. f t (λ k. ground (arith, e.handles k, lookup-erase g k s.guilds)))
      (check_queue_start_worker-HandleSet g (remove_guild g s) (rw (lookup-erase, ==_refl)))

step-waiting :
    (now : ℕ) (a : SchedulerAction) (r : Run)
    → r.stage ≡ waiting
    → step (action now a) r ≡ wait_step a r.scheduler
unfolding step
step-waiting now a r w = ground arith

ended :
    (g : ℕ) (h : GuildHandle) (k : ℕ) (r : Run)
    → WaitsOn g h r
    → k ≢ g
    → Ensures (WaitsOn g h) (step (ends k) r)
unfolding step on_guild
ended g h k r (w, l) ne = elim (Option-cases (lookup k r.scheduler.guilds)) [
  | inl e ↦ rw (e, on_guild) (w, l)
  | inr (i, e) ↦
      let other : (k == g) ≡ false = ground arith in
      rw (e, on_guild) (w, rw (lookup-insert, other) l)
]

step-WaitsOn :
    (g : ℕ) (h : GuildHandle) (e : Event) (r : Run)
    → WaitsOn g h r
    → Spares g e
    → Ensures (WaitsOn g h) (step e r)
unfolding wait_step
step-WaitsOn g h (ends k) r (w, l) ne = ended g h k r (w, l) ne
step-WaitsOn g h (action now (guild_handler k none)) r (w, l) ne =
    rw (step-waiting now (guild_handler k none) r w) (
      finished-Ensures k r.scheduler (WaitsOn g h) (λ t e.
        wait_on-WaitsOn g h t (let other : (k == g) ≡ false = ground arith in e g ∙ rw other l)))
step-WaitsOn g h (action now (guild_handler k (some x))) r (w, l) ne =
    rw (step-waiting now (guild_handler k (some x)) r w) (refl, l)
step-WaitsOn g h (action now (cmd c)) r (w, l) ne = rw (step-waiting now (cmd c) r w) (refl, l)

run-WaitsOn :
    (g : ℕ) (h : GuildHandle) (es : List Event) (r : Run)
    → WaitsOn g h r
    → All (Spares g) es
    → Ensures (WaitsOn g h) (run es r)
unfolding run
run-WaitsOn g h [] r w a = w
run-WaitsOn g h (e ∷ es) r w (n, a) =
    and_then-Ensures (WaitsOn g h) (step e r) (run es) (λ t v. run-WaitsOn g h es t v a)
      (step-WaitsOn g h e r w n)

next_handle-sent :
    (p : Option (List ℕ)) (es : List GuildEvent) {h : GuildHandle}
    → next_handle p es ≡ some h
    → h.sent ≡ map broker_event es
next_handle-sent none [] e = cc
next_handle-sent none (x ∷ es) e = ground arith
next_handle-sent (some rest) es e = ground arith

-- A guild whose start is pending, or for which events wait, is started again when its old handler
-- ends during the shutdown. The new handler is sent those events and never the command to shut
-- down, so whatever else happens, the program keeps waiting for it as long as it does not end by
-- itself.
pub shutdown-WaitsOn_restart :
    (g now : ℕ) (s : Scheduler) (h : GuildHandle) (es : List Event)
    → next_handle (remove_first g s.pending_starts) (keep (of_guild g) s.queued_events) ≡ some h
    → All (Spares g) es
    → Ensures
        (WaitsOn g h)
        (run (action now (guild_handler g none) ∷ es) (record { stage = waiting; scheduler = s }))
      × (h.sent ≡ map broker_event (keep (of_guild g) s.queued_events))
unfolding run step
shutdown-WaitsOn_restart g now s h es e a = (
  and_then-Ensures (WaitsOn g h) (wait_step (guild_handler g none) s) (run es)
      (λ t v. run-WaitsOn g h es t v a)
      (finished-Ensures g s (WaitsOn g h) (λ t k. wait_on-WaitsOn g h t (k g ∙ rw ==_refl e))),
  next_handle-sent (remove_first g s.pending_starts) (keep (of_guild g) s.queued_events) e,
)
