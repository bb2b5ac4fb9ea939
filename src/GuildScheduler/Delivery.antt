-- ===== src/GuildScheduler/Delivery.antt =====
-- Where `handle_scheduler_command` of cmd/scheduler/src/scheduler.rs sends the events of a guild, and
-- what a suspension does to them.
use botloader.Prelude.{
  ℕ, ◌+◌, ◌≤◌, ◌<◌, ◌≡◌, refl, ◌∙◌, ap, subst, true, false, not, ◌&&◌, none, some, List, [], ◌∷◌,
  ◌++◌, lookup, erase, lookup-insert, lookup-erase, ==_refl, keep, All, arith, ◌==◌, ◌⊎◌,
  if◌then◌else◌, Bool-cases, Option-cases, inl, inr,
}
use botloader.GuildScheduler.{
  GuildHandle, GuildEvent, GuildCommand, broker_event, other, Scheduler, SuspensionReason,
  GuildSuspension, duration, can_remove, of_guild, get_or_start_guild, send_or_queue_broker_evt,
  try_unsuspend_guild, mark_guild_as_suspended, handle_discord_event, handle_reload,
}
use botloader.GuildScheduler.Orderly.{Closing, IsOrderly}
use botloader.GuildScheduler.Flush.{suspended-send}
use botloader.GuildScheduler.Replay.{running, HandleSet, send_new, send_open}

-- What an event does to the scheduler. It goes to the guild's handler, new or running, behind what
-- that one was sent before, and then no event of the guild waits. Or it waits behind the others,
-- where the handler takes no more commands.
pub data Delivery (evt : GuildEvent) (s t : Scheduler) : Type 0 where
  delivered :
      (before : List GuildCommand)
      → (lookup evt.guild_id s.guilds ≡ some (running before))
        ⊎ ((lookup evt.guild_id s.guilds ≡ none) × (before ≡ []))
      → keep (of_guild evt.guild_id) s.queued_events ≡ []
      → HandleSet evt.guild_id (some (running (before ++ broker_event evt ∷ []))) s t
      → Delivery evt s t
  waits :
      (h : GuildHandle)
      → lookup evt.guild_id s.guilds ≡ some h
      → (h.tx && h.alive) ≡ false
      → t ≡ record s { queued_events = s.queued_events ++ evt ∷ [] }
      → Delivery evt s t

none_waiting :
    (g : ℕ) (s : Scheduler) (es : List GuildEvent)
    → ¬ Closing (lookup g s.guilds)
    → All (λ e. Closing (lookup e.guild_id s.guilds)) es
    → keep (of_guild g) es ≡ []
unfolding keep
none_waiting g s [] h a = refl
none_waiting g s (e ∷ es) h (c, a) = elim (Bool-cases (e.guild_id == g)) [
  | inl b ↦
      let same : e.guild_id ≡ g = ground arith in
      absurd (h (subst (λ k. Closing (lookup k s.guilds)) same c))
  | inr b ↦ rw b (none_waiting g s es h a)
]

send_or_queue_broker_evt-Delivery :
    (evt : GuildEvent) (s : Scheduler)
    → IsOrderly s
    → Delivery evt s (send_or_queue_broker_evt evt s)
unfolding send_or_queue_broker_evt get_or_start_guild
send_or_queue_broker_evt-Delivery evt s v = elim (Option-cases (lookup evt.guild_id s.guilds)) [
  | inl e ↦
      delivered [] (inr (e, refl))
        (none_waiting evt.guild_id s s.queued_events (λ c. subst Closing e c) v.parked)
        (send_new evt s e)
  | inr (h, e) ↦ elim (Bool-cases (h.tx && h.alive)) [
    | inl o ↦
        let same : h ≡ running h.sent = ground arith in
        let e' = e ∙ ap some same in
        delivered h.sent (inl e')
          (none_waiting evt.guild_id s s.queued_events
            (λ c. let d : (h.tx && h.alive) ≡ false = subst Closing e c in cc (o, d)) v.parked)
          (send_open evt s h.sent e')
    | inr o ↦ waits h e o (rw (e, get_or_start_guild, o))
  ]
]

handled :
    (now : ℕ) (evt : GuildEvent) (s t : Scheduler)
    → evt.kind ≡ other
    → try_unsuspend_guild now evt.guild_id s ≡ (t, true)
    → handle_discord_event now evt s ≡ send_or_queue_broker_evt evt t
unfolding handle_discord_event
handled now evt s t k e = ground arith

try_unsuspend_guild-free :
    (now g : ℕ) (s : Scheduler)
    → lookup g s.suspended_guilds ≡ none
    → try_unsuspend_guild now g s ≡ (s, true)
unfolding try_unsuspend_guild
try_unsuspend_guild-free now g s e = rw (e, try_unsuspend_guild)

try_unsuspend_guild-over :
    (now g : ℕ) (s : Scheduler) (x : GuildSuspension)
    → lookup g s.suspended_guilds ≡ some x
    → can_remove now x ≡ true
    → try_unsuspend_guild now g s
      ≡ (record s { suspended_guilds = erase g s.suspended_guilds }, true)
unfolding try_unsuspend_guild
try_unsuspend_guild-over now g s x e c = rw (e, try_unsuspend_guild, c)

-- In an orderly scheduler, an event of a guild that is not suspended, other than the guild's
-- deletion, reaches the guild's handler at
-- once and overtakes no waiting event, or it waits behind those, exactly where the handler takes no
-- more commands.
pub handle_discord_event-Delivery :
    (now : ℕ) (evt : GuildEvent) (s : Scheduler)
    → IsOrderly s
    → evt.kind ≡ other
    → lookup evt.guild_id s.suspended_guilds ≡ none
    → Delivery evt s (handle_discord_event now evt s)
handle_discord_event-Delivery now evt s v k free =
    rw (handled now evt s s k (try_unsuspend_guild-free now evt.guild_id s free))
      (send_or_queue_broker_evt-Delivery evt s v)

marked :
    (now g : ℕ) (reason : SuspensionReason) (s : Scheduler)
    → lookup g (mark_guild_as_suspended now g reason s).suspended_guilds
      ≡ some (record { reason = reason; suspended_at = now })
unfolding mark_guild_as_suspended
marked now g reason s = rw (lookup-insert, ==_refl)

keep-keep-not :
    (g : ℕ) (es : List GuildEvent) → keep (of_guild g) (keep (λ e. not (of_guild g e)) es) ≡ []
unfolding keep
keep-keep-not g [] = refl
keep-keep-not g (e ∷ es) = elim (Bool-cases (e.guild_id == g)) [
  | inl b ↦ rw b (keep-keep-not g es)
  | inr b ↦ rw (b, keep, b) (keep-keep-not g es)
]

-- A guild that has just been suspended has no event waiting. Until the reason's time is over, its
-- events change nothing, and a request to reload its scripts is only refused.
pub suspended_ignored :
    (now later : ℕ) (evt : GuildEvent) (reason : SuspensionReason) (s : Scheduler)
    → later ≤ now + duration reason
    → let m = mark_guild_as_suspended now evt.guild_id reason s in
      (keep (of_guild evt.guild_id) m.queued_events ≡ [])
      × (handle_discord_event later evt m ≡ m)
      × (handle_reload later evt.guild_id m ≡ record m { refused = m.refused ++ evt.guild_id ∷ [] })
unfolding handle_discord_event handle_reload try_unsuspend_guild
suspended_ignored now later evt reason s h =
    let e = marked now evt.guild_id reason s in
    let x : GuildSuspension = record { reason = reason; suspended_at = now } in
    let stays : can_remove later x ≡ false = unfold can_remove in ground arith in
    (
      unfold mark_guild_as_suspended in keep-keep-not evt.guild_id s.queued_events,
      rw (e, try_unsuspend_guild, stays),
      rw (e, try_unsuspend_guild, stays),
    )

lifted :
    (now g : ℕ) (reason : SuspensionReason) (s : Scheduler) (k : ℕ)
    → lookup k (erase g (mark_guild_as_suspended now g reason s).suspended_guilds)
      ≡ (if g == k then none else lookup k s.suspended_guilds)
unfolding mark_guild_as_suspended
lifted now g reason s k = simp (lookup-erase, lookup-insert) (ground arith)

-- Once the reason's time is over, the next event of the guild, other than its deletion, lifts its suspension,
-- and the other
-- guilds stay as suspended as they were.
pub suspension_lifted :
    (now later : ℕ) (evt : GuildEvent) (reason : SuspensionReason) (s : Scheduler) (k : ℕ)
    → evt.kind ≡ other
    → now + duration reason < later
    → let t = handle_discord_event later evt (mark_guild_as_suspended now evt.guild_id reason s) in
      lookup k t.suspended_guilds
      ≡ (if evt.guild_id == k then none else lookup k s.suspended_guilds)
suspension_lifted now later evt reason s k o h =
    let e = marked now evt.guild_id reason s in
    let x : GuildSuspension = record { reason = reason; suspended_at = now } in
    let over : can_remove later x ≡ true = unfold can_remove in ground arith in
    let m = mark_guild_as_suspended now evt.guild_id reason s in
    let t : Scheduler = record m { suspended_guilds = erase evt.guild_id m.suspended_guilds } in
    rw
      (
        handled later evt m t o (try_unsuspend_guild-over later evt.guild_id m x e over),
        suspended-send evt t,
      )
      (lifted now evt.guild_id reason s k)
