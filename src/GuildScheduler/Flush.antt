-- ===== src/GuildScheduler/Flush.antt =====
-- `check_queue_start_worker` of cmd/scheduler/src/scheduler.rs keeps the scheduler orderly.
use botloader.Prelude.{
  ℕ, ◌≡◌, subst, sym, lookup-insert_cases, true, false, not, Option, none, some, List, [], ◌∷◌,
  lookup, insert, erase, lookup-insert, lookup-erase, keep, ◌⊎◌, All, All-map, All-keep, arith,
  ◌==◌, Bool-cases, Option-cases, inl, inr,
}
use botloader.GuildScheduler.{
  GuildHandle, GuildEvent, Scheduler, of_guild, new_run, get_or_start_guild,
  send_or_queue_broker_evt, send_all, start_pending, remove_guild, check_queue_start_worker, Run,
  and_then,
}
use botloader.GuildScheduler.Drain.{remove_first, drain-keep}
use botloader.GuildScheduler.Orderly.{
  Closing, Present, Free, IsOrderly, send_or_queue_broker_evt-IsOrderly,
}

-- The result of a step that does not panic has the property.
abbrev pub Ensures {ℓ} : {A : Type ℓ} → (A → Type 0) → Option A → Type 0
Ensures P none = ⊥
Ensures P (some a) = P a

pub and_then-Ensures :
    (P : Run → Type 0) (o : Option Run) (f : Run → Option Run)
    → ((r : Run) → P r → Ensures P (f r))
    → Ensures P o
    → Ensures P (and_then o f)
and_then-Ensures P none f k h = h
and_then-Ensures P (some r) f k h = k r h

-- The scheduler is orderly but for the guild `g`, whose handler is gone.
pub record IsLeaving (g : ℕ) (s : Scheduler) : Type 0 where
  pub parked :
      All (λ e. ((e.guild_id == g) ≡ true) ⊎ Closing (lookup e.guild_id s.guilds)) s.queued_events
  pub awaited : All (λ k. ((k == g) ≡ true) ⊎ Present (lookup k s.guilds)) s.pending_starts
  pub spared : All (λ e. Free (lookup e.guild_id s.suspended_guilds)) s.queued_events
  pub freed : All (λ k. Free (lookup k s.suspended_guilds)) s.pending_starts

pub remove_guild-IsLeaving : (g : ℕ) (s : Scheduler) → IsOrderly s → IsLeaving g (remove_guild g s)
unfolding remove_guild
remove_guild-IsLeaving g s v = record {
  parked = All-map _ _ s.queued_events (λ e c. other Closing e.guild_id c) v.parked;
  awaited = All-map _ _ s.pending_starts (λ k c. other Present k c) v.awaited;
  spared = v.spared;
  freed = v.freed;
}
  where
    other :
        (P : Option GuildHandle → Type 0) (k : ℕ)
        → P (lookup k s.guilds)
        → ((k == g) ≡ true) ⊎ P (lookup k (erase g s.guilds))
    other P k c = elim (Bool-cases (g == k)) [
      | inl e ↦ inl (ground arith)
      | inr e ↦ inr (rw (lookup-erase, e) c)
    ]

remove_first-none :
    (g : ℕ) (xs : List ℕ) → remove_first g xs ≡ none → All (λ k. (k == g) ≡ false) xs
unfolding remove_first
remove_first-none g [] e = tt
remove_first-none g (x ∷ xs) e = elim (Bool-cases (x == g)) [
  | inl b ↦ absurd (ground arith)
  | inr b ↦ (b, remove_first-none g xs (ground arith))
]

remove_first-All :
    (P : ℕ → Type 0) (g : ℕ) (xs : List ℕ) (rest : List ℕ)
    → remove_first g xs ≡ some rest
    → All P xs
    → All P rest
unfolding remove_first
remove_first-All P g [] rest e h = cc
remove_first-All P g (x ∷ xs) rest e h = elim (Bool-cases (x == g)) [
  | inl b ↦ let same : xs ≡ rest = ground arith in subst (All P) same h.1
  | inr b ↦ elim (Option-cases (remove_first g xs)) [
    | inl n ↦ absurd (ground arith)
    | inr (ys, n) ↦
        let same : x ∷ ys ≡ rest = ground arith in
        subst (All P) same (h.0, remove_first-All P g xs ys n h.1)
  ]
]

-- After the start of the guild's handler, if one was pending.
record IsStarted (g : ℕ) (s : Scheduler) : Type 0 where
  parked :
      All (λ e. ((e.guild_id == g) ≡ true) ⊎ Closing (lookup e.guild_id s.guilds)) s.queued_events
  awaited : All (λ k. Present (lookup k s.guilds)) s.pending_starts
  spared : All (λ e. Free (lookup e.guild_id s.suspended_guilds)) s.queued_events
  freed : All (λ k. Free (lookup k s.suspended_guilds)) s.pending_starts

module _ (g : ℕ) (s : Scheduler) (v : IsLeaving g s) where
  abbrev Gone : (Option GuildHandle → Type 0) → ℕ → Type 0
  Gone P k = ((k == g) ≡ true) ⊎ P (lookup k s.guilds)

  Present-new : (k : ℕ) → Gone Present k → Present (lookup k (insert g new_run s.guilds))
  Present-new k (inl b) = let e : (g == k) ≡ true = ground arith in rw (lookup-insert, e) tt
  Present-new k (inr c) = lookup-insert_cases Present g k new_run s.guilds (λ same. tt) c

  Present-old :
      (h : GuildHandle)
      → lookup g s.guilds ≡ some h
      → (k : ℕ) → Gone Present k
      → Present (lookup k s.guilds)
  Present-old h n k (inl b) =
      let e : g ≡ k = ground arith in
      subst (λ x. Present (lookup x s.guilds)) e (subst Present (sym n) tt)
  Present-old h n k (inr c) = c

  parked_new :
      (k : ℕ) → Gone Closing k → ((k == g) ≡ true) ⊎ Closing (lookup k (insert g new_run s.guilds))
  parked_new k (inl b) = inl b
  parked_new k (inr c) = elim (Bool-cases (k == g)) [
    | inl b ↦ inl b
    | inr b ↦
        inr (lookup-insert_cases Closing g k new_run s.guilds (λ same. absurd (ground arith)) c)
  ]

  awaited_all :
      (xs : List ℕ)
      → All (λ k. (k == g) ≡ false) xs
      → All (Gone Present) xs
      → All (λ k. Present (lookup k s.guilds)) xs
  awaited_all [] h k = tt
  awaited_all (x ∷ xs) (b, h) (inr c, k) = (c, awaited_all xs h k)
  awaited_all (x ∷ xs) (b, h) (inl c, k) = absurd (cc (b, c))

  start_pending-IsStarted : IsStarted g (start_pending g s)
  unfolding start_pending get_or_start_guild
  start_pending-IsStarted = elim (Option-cases (remove_first g s.pending_starts)) [
    | inl e ↦
        rw (e, start_pending)
          (record {
            parked = v.parked;
            awaited =
                awaited_all s.pending_starts (remove_first-none g s.pending_starts e) v.awaited;
            spared = v.spared;
            freed = v.freed;
          })
    | inr (rest, e) ↦
        let left = remove_first-All (Gone Present) g s.pending_starts rest e v.awaited in
        let freed = remove_first-All _ g s.pending_starts rest e v.freed in
        elim (Option-cases (lookup g s.guilds)) [
          | inl n ↦
              rw (e, start_pending, n, get_or_start_guild)
                (record {
                  parked = All-map _ _ s.queued_events (λ x. parked_new x.guild_id) v.parked;
                  awaited = All-map _ _ rest Present-new left;
                  spared = v.spared;
                  freed = freed;
                })
          | inr (h, n) ↦
              rw (e, start_pending, n, get_or_start_guild)
                (record {
                  parked = v.parked;
                  awaited = All-map _ _ rest (Present-old h n) left;
                  spared = v.spared;
                  freed = freed;
                })
        ]
  ]

pub suspended-send :
    (evt : GuildEvent) (s : Scheduler)
    → (send_or_queue_broker_evt evt s).suspended_guilds ≡ s.suspended_guilds
unfolding send_or_queue_broker_evt get_or_start_guild
suspended-send evt s = ground arith

send_all-IsOrderly :
    (evts : List GuildEvent) (s : Scheduler)
    → IsOrderly s
    → All (λ e. Free (lookup e.guild_id s.suspended_guilds)) evts
    → IsOrderly (send_all evts s)
unfolding send_all
send_all-IsOrderly [] s v f = v
send_all-IsOrderly (e ∷ es) s v f =
    send_all-IsOrderly es (send_or_queue_broker_evt e s)
      (send_or_queue_broker_evt-IsOrderly e s v f.0) (rw (suspended-send e s) f.1)

parked_rest :
    (g : ℕ) (P : ℕ → Type 0) (xs : List GuildEvent)
    → All (λ e. ((e.guild_id == g) ≡ true) ⊎ P e.guild_id) xs
    → All (λ e. P e.guild_id) (keep (λ e. not (of_guild g e)) xs)
unfolding keep
parked_rest g P [] h = tt
parked_rest g P (x ∷ xs) (inl b, h) = rw b (parked_rest g P xs h)
parked_rest g P (x ∷ xs) (inr c, h) = elim (Bool-cases (x.guild_id == g)) [
  | inl b ↦ rw b (parked_rest g P xs h)
  | inr b ↦ rw b (c, parked_rest g P xs h)
]

pub check_queue_start_worker-IsOrderly :
    (g : ℕ) (s : Scheduler) → IsLeaving g s → Ensures IsOrderly (check_queue_start_worker g s)
unfolding check_queue_start_worker
check_queue_start_worker-IsOrderly g s v =
    let t = start_pending g s in
    let u = start_pending-IsStarted g s v in
    rw (drain-keep (of_guild g) t.queued_events, check_queue_start_worker)
      (send_all-IsOrderly (keep (of_guild g) t.queued_events) _
        (record {
          parked = parked_rest g (λ k. Closing (lookup k t.guilds)) t.queued_events u.parked;
          awaited = u.awaited;
          spared = All-keep _ _ t.queued_events u.spared;
          freed = u.freed;
        })
        (All-keep _ (of_guild g) t.queued_events u.spared))
