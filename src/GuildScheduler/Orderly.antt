-- ===== src/GuildScheduler/Orderly.antt =====
-- The invariant of the guild scheduler of cmd/scheduler/src/scheduler.rs, kept by its small steps.
use botloader.Prelude.{
  ℕ, ◌≡◌, refl, ==_refl, subst, sym, lookup-insert_cases, true, false, not, ◌&&◌, Option, none,
  some, List, [], ◌∷◌, ◌++◌, Map, lookup, insert, erase, map_values, lookup-insert, lookup-erase,
  lookup-map_values, keep, All, All-append, All-map, All-keep, arith, ◌==◌, Bool-cases,
  Option-cases, inl, inr,
}
use botloader.GuildScheduler.{
  GuildHandle, GuildEvent, GuildSuspension, SuspensionReason, Scheduler, new_run, send,
  take_and_shut_down, shutdown_all, on_guild, get_or_start_guild, try_unsuspend_guild,
  mark_guild_as_suspended, send_or_queue_broker_evt, can_remove, broker_event,
}

-- The handler of a guild exists and takes no more commands.
abbrev pub Closing : Option GuildHandle → Type 0
Closing none = ⊥
Closing (some h) = (h.tx && h.alive) ≡ false

abbrev pub Present : Option GuildHandle → Type 0
Present none = ⊥
Present (some h) = Unit

abbrev pub Free : Option GuildSuspension → Type 0
Free none = Unit
Free (some x) = ⊥

-- An event waits only where its guild's handler is closing, and a guild waits for its start only
-- where it has a handler, so the end of that handler finds both. Neither waits for a guild that is
-- suspended.
pub record IsOrderly (s : Scheduler) : Type 0 where
  pub parked : All (λ e. Closing (lookup e.guild_id s.guilds)) s.queued_events
  pub awaited : All (λ g. Present (lookup g s.guilds)) s.pending_starts
  pub spared : All (λ e. Free (lookup e.guild_id s.suspended_guilds)) s.queued_events
  pub freed : All (λ g. Free (lookup g s.suspended_guilds)) s.pending_starts

-- Suspending one guild leaves what is kept of the others free.
keep-Free :
    {A : Type 0} (key : A → ℕ) (g : ℕ) (x : GuildSuspension) (m : Map GuildSuspension) (xs : List A)
    → All (λ a. Free (lookup (key a) m)) xs
    → All (λ a. Free (lookup (key a) (insert g x m))) (keep (λ a. not (key a == g)) xs)
unfolding keep
keep-Free key g x m [] h = tt
keep-Free key g x m (a ∷ xs) h = elim (Bool-cases (key a == g)) [
  | inl e ↦ rw e (keep-Free key g x m xs h.1)
  | inr e ↦ rw e (
    lookup-insert_cases Free g (key a) x m (λ same. absurd (ground arith)) h.0,
    keep-Free key g x m xs h.1,
  )
]

module _ (s : Scheduler) (v : IsOrderly s) where
  guilds-IsOrderly :
      (m : Map GuildHandle)
      → ((k : ℕ) → Closing (lookup k s.guilds) → Closing (lookup k m))
      → ((k : ℕ) → Present (lookup k s.guilds) → Present (lookup k m))
      → IsOrderly (record s { guilds = m })
  guilds-IsOrderly m f g = record {
    parked = All-map _ _ s.queued_events (λ e. f e.guild_id) v.parked;
    awaited = All-map _ _ s.pending_starts (λ k. g k) v.awaited;
    spared = v.spared;
    freed = v.freed;
  }

  suspended-IsOrderly :
      (m : Map GuildSuspension)
      → ((k : ℕ) → Free (lookup k s.suspended_guilds) → Free (lookup k m))
      → IsOrderly (record s { suspended_guilds = m })
  suspended-IsOrderly m f = record {
    parked = v.parked;
    awaited = v.awaited;
    spared = All-map _ _ s.queued_events (λ e. f e.guild_id) v.spared;
    freed = All-map _ _ s.pending_starts (λ k. f k) v.freed;
  }

  closing_at :
      (g k : ℕ) (h : GuildHandle)
      → g ≡ k
      → lookup g s.guilds ≡ some h
      → Closing (lookup k s.guilds)
      → (h.tx && h.alive) ≡ false
  closing_at g k h same e c =
      subst Closing e (subst (λ x. Closing (lookup x s.guilds)) (sym same) c)

  closing_none : (g k : ℕ) → g ≡ k → lookup g s.guilds ≡ none → Closing (lookup k s.guilds) → ⊥
  closing_none g k same e c =
      subst Closing e (subst (λ x. Closing (lookup x s.guilds)) (sym same) c)

  pub shutdown_all-IsOrderly : IsOrderly (shutdown_all s)
  unfolding shutdown_all take_and_shut_down
  shutdown_all-IsOrderly =
      guilds-IsOrderly (map_values take_and_shut_down s.guilds)
        (λ k h. rw lookup-map_values (ground arith)) (λ k h. rw lookup-map_values (ground arith))

  pub on_guild-IsOrderly :
      (f : GuildHandle → GuildHandle) (g : ℕ)
      → ((h : GuildHandle) → (h.tx && h.alive) ≡ false → ((f h).tx && (f h).alive) ≡ false)
      → IsOrderly (on_guild f g s)
  unfolding on_guild
  on_guild-IsOrderly f g keeps = elim (Option-cases (lookup g s.guilds)) [
    | inl e ↦ rw (e, on_guild) v
    | inr (h, e) ↦
        rw (e, on_guild)
          (guilds-IsOrderly (insert g (f h) s.guilds)
            (λ k c.
              lookup-insert_cases Closing g k (f h) s.guilds
                (λ same. keeps h (closing_at g k h same e c)) c)
            (λ k c. rw lookup-insert (ground arith)))
  ]

  pub get_or_start_guild-IsOrderly : (g : ℕ) → IsOrderly (get_or_start_guild g s).0
  unfolding get_or_start_guild
  get_or_start_guild-IsOrderly g = elim (Option-cases (lookup g s.guilds)) [
    | inl e ↦
        rw (e, get_or_start_guild)
          (guilds-IsOrderly (insert g new_run s.guilds)
            (λ k c.
              lookup-insert_cases Closing g k new_run s.guilds
                (λ same. absurd (closing_none g k same e c)) c)
            (λ k c. rw lookup-insert (ground arith)))
    | inr (h, e) ↦ rw (e, get_or_start_guild) v
  ]

  pub try_unsuspend_guild-IsOrderly : (now g : ℕ) → IsOrderly (try_unsuspend_guild now g s).0
  unfolding try_unsuspend_guild
  try_unsuspend_guild-IsOrderly now g = elim (Option-cases (lookup g s.suspended_guilds)) [
    | inl e ↦ rw (e, try_unsuspend_guild) v
    | inr (x, e) ↦ elim (Bool-cases (can_remove now x)) [
      | inl c ↦
          rw (e, try_unsuspend_guild, c)
            (suspended-IsOrderly (erase g s.suspended_guilds)
              (λ k f. rw lookup-erase (ground arith)))
      | inr c ↦ rw (e, try_unsuspend_guild, c) v
    ]
  ]

  pub mark_guild_as_suspended-IsOrderly :
      (now g : ℕ) (reason : SuspensionReason) → IsOrderly (mark_guild_as_suspended now g reason s)
  unfolding mark_guild_as_suspended
  mark_guild_as_suspended-IsOrderly now g reason = record {
    parked = All-keep _ _ s.queued_events v.parked;
    awaited = All-keep _ _ s.pending_starts v.awaited;
    spared = keep-Free (λ e. e.guild_id) g x s.suspended_guilds s.queued_events v.spared;
    freed = keep-Free (λ k. k) g x s.suspended_guilds s.pending_starts v.freed;
  }
    where
      x : GuildSuspension
      x = record { reason = reason; suspended_at = now }

  module _ (evt : GuildEvent) (free : Free (lookup evt.guild_id s.suspended_guilds)) where
    queued-IsOrderly :
        Closing (lookup evt.guild_id s.guilds)
        → IsOrderly (record s { queued_events = s.queued_events ++ evt ∷ [] })
    queued-IsOrderly c = record {
      parked = All-append _ s.queued_events (evt ∷ []) v.parked (c, tt);
      awaited = v.awaited;
      spared = All-append _ s.queued_events (evt ∷ []) v.spared (free, tt);
      freed = v.freed;
    }

    sent-IsOrderly :
        (h : GuildHandle)
        → lookup evt.guild_id s.guilds ≡ some h
        → (h.tx && h.alive) ≡ true
        → IsOrderly (record s { guilds = insert evt.guild_id (send (broker_event evt) h) s.guilds })
    sent-IsOrderly h e open_h =
        guilds-IsOrderly (insert evt.guild_id (send (broker_event evt) h) s.guilds)
          (λ k c.
            lookup-insert_cases Closing evt.guild_id k (send (broker_event evt) h) s.guilds
              (λ same. absurd (cc (closing_at evt.guild_id k h same e c))) c)
          (λ k c.
            lookup-insert_cases Present evt.guild_id k (send (broker_event evt) h) s.guilds
              (λ same. tt) c)

module _ (evt : GuildEvent) (s : Scheduler) (v : IsOrderly s) where
  started-IsOrderly :
      lookup evt.guild_id s.guilds ≡ none
      → IsOrderly (record s { guilds = insert evt.guild_id new_run s.guilds })
  unfolding get_or_start_guild
  started-IsOrderly e =
      rw (e, get_or_start_guild) at (get_or_start_guild-IsOrderly s v evt.guild_id)

  -- An event for a guild that is not suspended is sent or queued.
  pub send_or_queue_broker_evt-IsOrderly :
      Free (lookup evt.guild_id s.suspended_guilds) → IsOrderly (send_or_queue_broker_evt evt s)
  unfolding send_or_queue_broker_evt
  send_or_queue_broker_evt-IsOrderly free = elim (Option-cases (lookup evt.guild_id s.guilds)) [
    | inl e ↦
        let s1 : Scheduler = record s { guilds = insert evt.guild_id new_run s.guilds } in
        let found : lookup evt.guild_id s1.guilds ≡ some new_run = rw (lookup-insert, ==_refl) in
        rw (e, get_or_start_guild)
          (sent-IsOrderly s1 (started-IsOrderly e) evt free new_run found refl)
    | inr (h, e) ↦ elim (Bool-cases (h.tx && h.alive)) [
      | inl o ↦ rw (e, get_or_start_guild, o) (sent-IsOrderly s v evt free h e o)
      | inr o ↦
          rw (e, get_or_start_guild, o) (queued-IsOrderly s v evt free (subst Closing (sym e) o))
    ]
  ]
