-- ===== src/WorkerPool/Service.antt =====
-- What the guilds can rely on: the tiers of the workers that they get, and that the pool of
-- cmd/scheduler/src/vmworkerpool.rs loses none; and how a start can be missed.
use botloader.Prelude.{
  ℕ, ◌+◌, ◌^◌, ◌%◌, ◌≤◌, ◌<◌, ◌≡◌, refl, Bool, true, false, Option, none, some, List, arith,
  Option-cases, lookup, erase, lookup-insert, inl, inr, ==_refl,
}
use botloader.WorkerPool.{
  PoolInner, WorkerHandle, PendingWorkerHandle, PremiumSlotTier, premium_tier_index, get_worker,
  queue_request, add_worker_to_pool, return_worker, worker_connected, receive_worker,
  init_worker_handles, gen_id, add_pending_worker,
}
use botloader.WorkerPool.Oldest.{At}
use botloader.WorkerPool.Selection.{Answer, ran_guild, waited_longest, must_wait, get_worker-Answer}
use botloader.WorkerPool.Handover.{serves, pools, add_worker_to_pool-Handover}
use botloader.WorkerPool.Fleet.{
  Fleet, Call, requests, claims, returns, connects, settle, answered, take_lent, step, count_id,
}
use botloader.WorkerPool.Counting.{
  take_lent-ids, pending_ids-erase, pending_ids-lookup, Filed-lookup, remove_at-Between,
}
use botloader.WorkerPool.Invariant.{IsValid, Ensures, holding, taken-count}
use botloader.WorkerPool.Arrivals.{pooled-count}
use botloader.WorkerPool.Runs.{found-IsValid, stamped-IsValid, connected-IsValid, tier_in_range}

module _ (s : Fleet) (v : IsValid s) where
  At-tier :
      (own t j : ℕ)
      → t ≤ own
      → own ≤ 2
      → (a : At (s.pool.pools t) j) → a.worker.priority_index ≤ own
  At-tier own t j h k a =
      let b =
        remove_at-Between t t (s.pool.pools t) j a.worker a.rest a.removed
          (v.tiers t (omega arith)) in
      omega arith

  Answer-tier :
      (clock : ℕ → ℕ) (tx g own : ℕ) {r : Option (PoolInner × Option WorkerHandle)} {p : PoolInner}
      {w : WorkerHandle}
      → own ≤ 2
      → Answer s.pool clock tx g own r
      → r ≡ some (p, some w)
      → w.priority_index ≤ own
  Answer-tier clock tx g own h (ran_guild t j a le _ _ e) e' =
      ground (arith, At-tier own t j le h a)
  Answer-tier clock tx g own h (waited_longest t j b le _ _ e) e' =
      ground (arith, At-tier own t b.k le h b.here)
  Answer-tier clock tx g own h (must_wait empty e) e' = ground arith

  -- In a valid fleet, the worker that answers a request at once is of the request's tier or of a
  -- lower one.
  pub get_worker-tier :
      (clock : ℕ → ℕ) (tx g : ℕ) (tier : Option PremiumSlotTier) (p : PoolInner) (w : WorkerHandle)
      → get_worker s.pool clock tx g tier ≡ some (p, some w)
      → w.priority_index ≤ premium_tier_index tier
  get_worker-tier clock tx g tier p w e =
      Answer-tier clock tx g (premium_tier_index tier) (tier_in_range tier)
        (get_worker-Answer s.pool clock tx g tier) e

-- The same workers exist.
abbrev pub SameWorkers : Fleet → Fleet → Type 0
SameWorkers s t = (k : ℕ) → count_id k t ≡ count_id k s

answered-SameWorkers :
    (s : Fleet) (v : IsValid s) (clock : ℕ → ℕ) (tx g own : ℕ)
    (r : Option (PoolInner × Option WorkerHandle))
    → own ≤ 2
    → Answer s.pool clock tx g own r
    → Ensures (SameWorkers s) (answered s.lent r)
answered-SameWorkers s v clock tx g own r h (ran_guild t j a le _ _ e) =
    rw e (taken-count s.pool s.lent v t j (omega arith) a)
answered-SameWorkers s v clock tx g own r h (waited_longest t j b le _ _ e) =
    rw e (taken-count s.pool s.lent v t b.k (omega arith) b.here)
answered-SameWorkers s v clock tx g own r h (must_wait empty e) =
    rw e (unfold queue_request in λ k. refl)

add-SameWorkers :
    (p : PoolInner) (w : WorkerHandle) (lent : List WorkerHandle) (v : IsValid (holding p w lent))
    (alive : ℕ → Bool)
    → ((tx : ℕ) → alive tx ≡ true)
    → Ensures (SameWorkers (holding p w lent)) (settle lent (add_worker_to_pool alive p w))
add-SameWorkers p w lent v alive wait = elim (add_worker_to_pool-Handover alive p w v.held.0.1) [
  | serves i tx rest l h e q r ↦ rw (r, wait tx) (λ k. refl)
  | pools q r ↦ rw r (pooled-count p w lent v)
]

SameWorkers-trans :
    (s t : Fleet) (o : Option Fleet)
    → SameWorkers s t
    → Ensures (SameWorkers t) o
    → Ensures (SameWorkers s) o
SameWorkers-trans s t none h e = e
SameWorkers-trans s t (some u) h e = λ k. omega (arith, h k, e k)

-- The calls that neither start a process nor give one up.
pub data Keeping : Call → Type 0 where
  requesting :
      (clock : ℕ → ℕ) (tx g : ℕ) (tier : Option PremiumSlotTier)
      → Keeping (requests clock tx g tier)
  claiming : (id g now : ℕ) → Keeping (claims id g now)
  returning : (id now : ℕ) → Keeping (returns id now false)
  connecting : (id now : ℕ) → Keeping (connects id now)

-- In a valid fleet a request, a claim, the return of a working worker and the connection of a
-- started process lose no worker and duplicate none, as long as no receiver of a request is dropped.
pub step-SameWorkers :
    (alive : ℕ → Bool)
    → ((tx : ℕ) → alive tx ≡ true)
    → (s : Fleet) (c : Call) → IsValid s
    → Keeping c
    → Ensures (SameWorkers s) (step alive s c)
unfolding step return_worker worker_connected receive_worker init_worker_handles
step-SameWorkers alive wait s c v (requesting clock tx g tier) =
    answered-SameWorkers s v clock tx g (premium_tier_index tier) _ (tier_in_range tier)
      (get_worker-Answer s.pool clock tx g tier)
step-SameWorkers alive wait s c v (claiming id g now) = elim (Option-cases (take_lent id s.lent)) [
  | inl e ↦ rw (e, step) (λ k. refl)
  | inr ((w, rest), e) ↦ rw (e, step) (λ k. omega (arith, take_lent-ids k id s.lent w rest e))
]
step-SameWorkers alive wait s c v (returning id now) = elim (Option-cases (take_lent id s.lent)) [
  | inl e ↦ rw (e, step) (λ k. refl)
  | inr ((w, rest), e) ↦
      let stamped = record w { returned_at = now } in
      rw (e, step)
        (SameWorkers-trans s (holding s.pool stamped rest) _
          (λ k. omega (arith, take_lent-ids k id s.lent w rest e))
          (add-SameWorkers s.pool stamped rest
            (stamped-IsValid s.pool w rest (found-IsValid s v id w rest e) now) alive wait))
]
step-SameWorkers alive wait s c v (connecting id now) =
    elim (Option-cases (lookup id s.pool.pending_starts)) [
      | inl e ↦ rw (e, worker_connected) (λ k. refl)
      | inr (q, e) ↦
          let u = connected-IsValid s v id now q e in
          let (same, _) = Filed-lookup id s.pool.pending_starts v.filed e in
          rw (e, worker_connected)
            (SameWorkers-trans s
              (holding (record s.pool { pending_starts = erase id s.pool.pending_starts })
                (init_worker_handles q now) s.lent)
              _ (λ k. ground (arith, pending_ids-erase k id s.pool.pending_starts e, v.once id))
              (add-SameWorkers _ _ s.lent u alive wait))
    ]

-- `spawn_worker` starts the process before it files its start. In a valid fleet whose identifiers
-- have not run out, a process that connects in between is ignored, and its start stays filed.
pub early_connection_ignored :
    (alive : ℕ → Bool) (s : Fleet) (tier now : ℕ)
    → IsValid s
    → s.pool.worker_id_gen + 1 < 2 ^ 64
    → let (p, id) = gen_id s.pool in
      let start : PendingWorkerHandle = record { worker_id = id; priority_index = tier } in
      (worker_connected alive p now id ≡ some (p, none))
      × (lookup id (add_pending_worker p start).pending_starts ≡ some start)
unfolding gen_id add_pending_worker worker_connected
early_connection_ignored alive s tier now v room =
    let id : ℕ = (s.pool.worker_id_gen + 1) % 2 ^ 64 in
    let absent : lookup id s.pool.pending_starts ≡ none =
      elim (Option-cases (lookup id s.pool.pending_starts)) [
        | inl e ↦ e
        | inr (q, e) ↦
            absurd (
              omega
                (arith, pending_ids-lookup id s.pool.pending_starts e, v.fresh id (omega arith)))
      ] in
    (rw (absent, worker_connected), rw (lookup-insert, ==_refl))
