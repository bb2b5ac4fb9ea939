-- ===== src/GuildScheduler/History.antt =====
-- Any history of the guild scheduler of cmd/scheduler/src/scheduler.rs.
use botloader.Prelude.{
  ℕ, ◌≡◌, subst, sym, true, false, ◌&&◌, List, [], ◌∷◌, lookup, lookup-erase, ==_refl, All-append,
  arith, Bool-cases, Option-cases, inl, inr,
}
use botloader.GuildScheduler.{
  GuildHandle, GuildEvent, EventKind, guild_delete, other, Scheduler, take_and_shut_down,
  get_or_start_guild, try_unsuspend_guild, can_remove, start_or_schedule, start_connected,
  handle_discord_event,
}
use botloader.GuildScheduler.Orderly.{
  Present, Free, IsOrderly, on_guild-IsOrderly, get_or_start_guild-IsOrderly,
  try_unsuspend_guild-IsOrderly, send_or_queue_broker_evt-IsOrderly,
}

-- A guild whose suspension was lifted, or that had none.
pub try_unsuspend_guild-Free :
    (now g : ℕ) (s : Scheduler)
    → (try_unsuspend_guild now g s).1 ≡ true
    → Free (lookup g (try_unsuspend_guild now g s).0.suspended_guilds)
unfolding try_unsuspend_guild
try_unsuspend_guild-Free now g s = elim (Option-cases (lookup g s.suspended_guilds)) [
  | inl e ↦ λ t. rw (e, try_unsuspend_guild) (subst Free (sym e) tt)
  | inr (x, e) ↦ elim (Bool-cases (can_remove now x)) [
    | inl c ↦ λ t. rw (e, try_unsuspend_guild, c) (rw (lookup-erase, ==_refl) tt)
    | inr c ↦ λ t. absurd (cc (rw (e, try_unsuspend_guild, c) at t))
  ]
]

module _ (now : ℕ) where
  start_or_schedule-IsOrderly :
      (g : ℕ) (s : Scheduler)
      → IsOrderly s
      → Free (lookup g s.suspended_guilds)
      → IsOrderly (start_or_schedule g s)
  unfolding start_or_schedule get_or_start_guild
  start_or_schedule-IsOrderly g s v f = elim (Option-cases (lookup g s.guilds)) [
    | inl e ↦
        rw (e, get_or_start_guild)
          (rw (e, get_or_start_guild) at (get_or_start_guild-IsOrderly s v g))
    | inr (h, e) ↦ elim (Bool-cases h.tx) [
      | inl o ↦ rw (e, get_or_start_guild, o) v
      | inr o ↦
          rw (e, get_or_start_guild, o)
            (record {
              parked = v.parked;
              awaited =
                  All-append _ s.pending_starts (g ∷ []) v.awaited (subst Present (sym e) tt, tt);
              spared = v.spared;
              freed = All-append _ s.pending_starts (g ∷ []) v.freed (f, tt);
            })
    ]
  ]

  pub start_connected-IsOrderly :
      (gs : List ℕ) (s : Scheduler) → IsOrderly s → IsOrderly (start_connected now gs s)
  unfolding start_connected
  start_connected-IsOrderly [] s v = v
  start_connected-IsOrderly (g ∷ gs) s v =
      let u = try_unsuspend_guild-IsOrderly s v now g in
      start_connected-IsOrderly gs _ (elim (Bool-cases (try_unsuspend_guild now g s).1) [
        | inl e ↦ rw e (start_or_schedule-IsOrderly g _ u (try_unsuspend_guild-Free now g s e))
        | inr e ↦ rw e u
      ])

  take_and_shut_down-closes :
      (h : GuildHandle)
      → (h.tx && h.alive) ≡ false
      → ((take_and_shut_down h).tx && (take_and_shut_down h).alive) ≡ false
  unfolding take_and_shut_down
  take_and_shut_down-closes h c = ground arith

  pub handle_discord_event-IsOrderly :
      (evt : GuildEvent) (s : Scheduler) → IsOrderly s → IsOrderly (handle_discord_event now evt s)
  unfolding handle_discord_event
  handle_discord_event-IsOrderly evt s v =
      let u = try_unsuspend_guild-IsOrderly s v now evt.guild_id in
      elim (Bool-cases (try_unsuspend_guild now evt.guild_id s).1) [
        | inl e ↦ rw e (
            by_kind evt.kind
              (on_guild-IsOrderly _ u take_and_shut_down evt.guild_id take_and_shut_down-closes)
              (send_or_queue_broker_evt-IsOrderly evt _ u
                (try_unsuspend_guild-Free now evt.guild_id s e)))
        | inr e ↦ rw e u
      ]
    where
      by_kind :
          (k : EventKind) {a b : Scheduler}
          → IsOrderly a
          → IsOrderly b
          → IsOrderly (elim k [ guild_delete ↦ a | other ↦ b ])
      by_kind guild_delete a b = a
      by_kind other a b = b
