-- ===== src/GuildScheduler/Replay.antt =====
-- What `check_queue_start_worker` of cmd/scheduler/src/scheduler.rs does with the events that waited
-- for a guild whose handler is gone.
use botloader.Prelude.{
  ℕ, ◌≡◌, refl, sym, ◌∙◌, subst, true, not, Option, none, some, List, [], ◌∷◌, ◌++◌, map, lookup,
  insert, lookup-insert, ==_refl, keep, All, All-keep_self, arith, ◌==◌, if◌then◌else◌, Bool-cases,
  Option-cases, inl, inr,
}
use mathlib.Core.List.{append-nil, append_assoc}
use botloader.GuildScheduler.{
  GuildHandle, GuildEvent, GuildCommand, broker_event, Scheduler, of_guild, new_run, send,
  get_or_start_guild, send_or_queue_broker_evt, send_all, start_pending, check_queue_start_worker,
}
use botloader.GuildScheduler.Drain.{remove_first, drain-keep}
use botloader.GuildScheduler.Flush.{Ensures}

-- A running handler, and what it has been sent.
abbrev pub running : List GuildCommand → GuildHandle
running before = record { tx = true; alive = true; sent = before }

-- One guild has the handle `h`, and all else of the scheduler is as it was.
pub record HandleSet (g : ℕ) (h : Option GuildHandle) (s t : Scheduler) : Type 0 where
  pub handles : (k : ℕ) → lookup k t.guilds ≡ (if g == k then h else lookup k s.guilds)
  pub queue : t.queued_events ≡ s.queued_events
  pub pending : t.pending_starts ≡ s.pending_starts
  pub suspended : t.suspended_guilds ≡ s.suspended_guilds

HandleSet-trans :
    (g : ℕ) (h i : Option GuildHandle) (s t u : Scheduler)
    → HandleSet g h s t
    → HandleSet g i t u
    → HandleSet g i s u
HandleSet-trans g h i s t u p q = record {
  handles = λ k. ground (arith, p.handles k, q.handles k);
  queue = q.queue ∙ p.queue;
  pending = q.pending ∙ p.pending;
  suspended = q.suspended ∙ p.suspended;
}

pub send_new :
    (e : GuildEvent) (s : Scheduler)
    → lookup e.guild_id s.guilds ≡ none
    → HandleSet e.guild_id (some (running (broker_event e ∷ []))) s (send_or_queue_broker_evt e s)
unfolding send_or_queue_broker_evt get_or_start_guild send
send_new e s n =
    rw (n, get_or_start_guild)
      (record {
        handles = λ k. simp lookup-insert (ground arith);
        queue = refl;
        pending = refl;
        suspended = refl;
      })

pub send_open :
    (e : GuildEvent) (s : Scheduler) (before : List GuildCommand)
    → lookup e.guild_id s.guilds ≡ some (running before)
    → HandleSet e.guild_id
        (some (running (before ++ broker_event e ∷ [])))
        s
        (send_or_queue_broker_evt e s)
unfolding send_or_queue_broker_evt get_or_start_guild send
send_open e s before n =
    rw (n, get_or_start_guild)
      (record {
        handles = λ k. lookup-insert _ k _ s.guilds;
        queue = refl;
        pending = refl;
        suspended = refl;
      })

send_all_open :
    (g : ℕ) (es : List GuildEvent) (s : Scheduler) (before : List GuildCommand)
    → All (λ e. of_guild g e ≡ true) es
    → lookup g s.guilds ≡ some (running before)
    → HandleSet g (some (running (before ++ map broker_event es))) s (send_all es s)
unfolding send_all
send_all_open g [] s before a n = record {
  handles = λ k. elim (Bool-cases (g == k)) [
    | inl e ↦
        let same : g ≡ k = ground arith in
        rw (e, append-nil) (subst (λ x. lookup x s.guilds ≡ some (running before)) same n)
    | inr e ↦ rw e
  ];
  queue = refl;
  pending = refl;
  suspended = refl;
}
send_all_open g (e ∷ es) s before (b, a) n =
    let same : e.guild_id ≡ g = ground arith in
    let t = send_or_queue_broker_evt e s in
    let first =
      subst (λ x. HandleSet x (some (running (before ++ broker_event e ∷ []))) s t) same
        (send_open e s before
          (subst (λ x. lookup x s.guilds ≡ some (running before)) (sym same) n)) in
    let rest =
      send_all_open g es t (before ++ broker_event e ∷ []) a (first.handles g ∙ rw ==_refl) in
    HandleSet-trans g _ _ s t _ first (rw append_assoc at rest)

send_all_new :
    (g : ℕ) (e : GuildEvent) (es : List GuildEvent) (s : Scheduler)
    → All (λ e. of_guild g e ≡ true) (e ∷ es)
    → lookup g s.guilds ≡ none
    → HandleSet g (some (running (map broker_event (e ∷ es)))) s (send_all (e ∷ es) s)
unfolding send_all
send_all_new g e es s (b, a) n =
    let same : e.guild_id ≡ g = ground arith in
    let t = send_or_queue_broker_evt e s in
    let first =
      subst (λ x. HandleSet x (some (running (broker_event e ∷ []))) s t) same
        (send_new e s (subst (λ x. lookup x s.guilds ≡ none) (sym same) n)) in
    HandleSet-trans g _ _ s t _ first
      (send_all_open g es t (broker_event e ∷ []) a (first.handles g ∙ rw ==_refl))

-- The handle of a guild that has just left: a new handler if its start was pending or if events
-- waited for it, and no handler otherwise.
abbrev pub next_handle : Option (List ℕ) → List GuildEvent → Option GuildHandle
next_handle none [] = none
next_handle none (e ∷ es) = some (running (map broker_event (e ∷ es)))
next_handle (some rest) es = some (running (map broker_event es))

abbrev pub left_pending : Option (List ℕ) → List ℕ → List ℕ
left_pending none gs = gs
left_pending (some rest) gs = rest

-- What the flush takes out of the two queues.
abbrev pub flushed : ℕ → Scheduler → Scheduler
flushed g s = record s {
  queued_events = keep (λ e. not (of_guild g e)) s.queued_events;
  pending_starts = left_pending (remove_first g s.pending_starts) s.pending_starts;
}

module _ (g : ℕ) (s : Scheduler) (gone : lookup g s.guilds ≡ none) where
  flush_unstarted :
      (es : List GuildEvent)
      → All (λ e. of_guild g e ≡ true) es
      → HandleSet g (next_handle none es) s (send_all es s)
  unfolding send_all
  flush_unstarted [] a = record {
    handles = λ k. elim (Bool-cases (g == k)) [
      | inl e ↦
          let same : g ≡ k = ground arith in rw e (subst (λ x. lookup x s.guilds ≡ none) same gone)
      | inr e ↦ rw e
    ];
    queue = refl;
    pending = refl;
    suspended = refl;
  }
  flush_unstarted (e ∷ es) a = send_all_new g e es s a gone

  flush_started :
      (es : List GuildEvent)
      → All (λ e. of_guild g e ≡ true) es
      → HandleSet g
          (some (running (map broker_event es)))
          s
          (send_all es (record s { guilds = insert g new_run s.guilds }))
  flush_started es a =
      let t : Scheduler = record s { guilds = insert g new_run s.guilds } in
      let first : HandleSet g (some new_run) s t = record {
        handles = λ k. lookup-insert g k new_run s.guilds;
        queue = refl;
        pending = refl;
        suspended = refl;
      } in
      HandleSet-trans g _ _ s t _ first (send_all_open g es t [] a (first.handles g ∙ rw ==_refl))

check_queue_start_worker-started :
    (g : ℕ) (s t : Scheduler)
    → start_pending g s ≡ t
    → check_queue_start_worker g s
      ≡ some (
          send_all
            (keep (of_guild g) t.queued_events)
            (record t { queued_events = keep (λ e. not (of_guild g e)) t.queued_events }))
unfolding check_queue_start_worker
check_queue_start_worker-started g s t p =
    subst
      (λ u.
        check_queue_start_worker g s
        ≡ some (
            send_all (keep (of_guild g) u.queued_events)
              (record u { queued_events = keep (λ e. not (of_guild g e)) u.queued_events })))
      p (rw (drain-keep (of_guild g) (start_pending g s).queued_events, check_queue_start_worker))

-- For a guild without a handler, the flush starts one if its start is pending or if events wait for
-- it. The new handler is sent exactly the events that waited, in their order, and they leave the
-- queue. One pending start is used up. Other guilds, their events and the suspensions stay as they
-- were.
pub check_queue_start_worker-HandleSet :
    (g : ℕ) (s : Scheduler)
    → lookup g s.guilds ≡ none
    → Ensures
        (HandleSet g
          (next_handle (remove_first g s.pending_starts) (keep (of_guild g) s.queued_events))
          (flushed g s))
        (check_queue_start_worker g s)
unfolding start_pending get_or_start_guild
check_queue_start_worker-HandleSet g s gone =
    let of_g = All-keep_self (of_guild g) s.queued_events in
    elim (Option-cases (remove_first g s.pending_starts)) [
      | inl e ↦
          rw (check_queue_start_worker-started g s s (rw (e, start_pending)), e)
            (flush_unstarted g _ gone _ of_g)
      | inr (rest, e) ↦
          let t : Scheduler = record s {
            pending_starts = rest;
            guilds = insert g new_run s.guilds;
          } in
          rw
            (
              check_queue_start_worker-started g s t
                  (rw (e, start_pending, gone, get_or_start_guild)),
              e,
            )
            (flush_started g _ gone _ of_g)
    ]
