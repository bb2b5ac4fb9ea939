-- ===== src/WorkerPool/Runs.antt =====
-- Any history of calls on the worker pool of cmd/scheduler/src/vmworkerpool.rs.
use botloader.Prelude.{
  ℕ, ◌+◌, ◌-◌, ◌^◌, ◌≤◌, ◌<◌, ◌≡◌, refl, inl, inr, Bool, true, false, Option, none, some, List, [],
  ◌∷◌, arith, Option-cases, length, lookup, erase,
}
use botloader.WorkerPool.{
  PoolInner, WorkerHandle, PendingWorkerHandle, PremiumSlotTier, premium_tier_index, get_worker,
  queue_request, return_worker, worker_connected, spawn_worker, receive_worker, init_worker_handles,
}
use botloader.WorkerPool.Selection.{Answer, ran_guild, waited_longest, must_wait, get_worker-Answer}
use botloader.WorkerPool.Fleet.{
  Fleet, start, Call, requests, claims, returns, connects, spawns, settle, answered, take_lent,
  step, run, and_then,
}
use botloader.WorkerPool.Counting.{
  take_lent-ids, take_lent-Between, pending_ids-erase, Filed-erase, Filed-lookup,
}
use botloader.WorkerPool.Invariant.{IsValid, Ensures, Kept, holding, taken-IsValid}
use botloader.WorkerPool.Arrivals.{
  queue_request-IsValid, spawn_worker-IsValid, add_worker_to_pool-IsValid,
}

pub tier_in_range : (tier : Option PremiumSlotTier) → premium_tier_index tier ≤ 2
unfolding premium_tier_index
tier_in_range tier = ground arith

module _ (s : Fleet) (v : IsValid s) where
  answered-IsValid :
      (clock : ℕ → ℕ) (tx g own : ℕ) (r : Option (PoolInner × Option WorkerHandle))
      → own ≤ 2
      → Answer s.pool clock tx g own r
      → Ensures (Kept s.pool.worker_id_gen) (answered s.lent r)
  answered-IsValid clock tx g own r h (ran_guild t j a le _ _ e) =
      rw e (taken-IsValid s.pool s.lent v t j (omega arith) a, omega arith)
  answered-IsValid clock tx g own r h (waited_longest t j b le _ _ e) =
      rw e (taken-IsValid s.pool s.lent v t b.k (omega arith) b.here, omega arith)
  answered-IsValid clock tx g own r h (must_wait empty e) =
      rw e (queue_request-IsValid s.pool s.lent v tx own empty, unfold queue_request in omega arith)

  -- The fleet with one of its held workers in front.
  pub found-IsValid :
      (id : ℕ) (w : WorkerHandle) (rest : List WorkerHandle)
      → take_lent id s.lent ≡ some (w, rest)
      → IsValid (holding s.pool w rest)
  found-IsValid id w rest e = record {
    tiers = v.tiers;
    held = take_lent-Between 0 2 id s.lent w rest e v.held;
    filed = v.filed;
    gauge = v.gauge;
    unwasted = v.unwasted;
    once = λ k. omega (arith, take_lent-ids k id s.lent w rest e, v.once k);
    fresh = λ k h. omega (arith, take_lent-ids k id s.lent w rest e, v.fresh k h);
  }

  pub connected-IsValid :
      (id now : ℕ) (q : PendingWorkerHandle)
      → lookup id s.pool.pending_starts ≡ some q
      → IsValid (
          holding
            (record s.pool { pending_starts = erase id s.pool.pending_starts })
            (init_worker_handles q now)
            s.lent)
  unfolding init_worker_handles
  connected-IsValid id now q e =
      let (same, range) = Filed-lookup id s.pool.pending_starts v.filed e in
      record {
        tiers = v.tiers;
        held = ((omega arith, range), v.held);
        filed = Filed-erase id s.pool.pending_starts v.filed;
        gauge = v.gauge;
        unwasted = v.unwasted;
        once = λ k.
            ground (arith, pending_ids-erase k id s.pool.pending_starts e, v.once k, v.once id);
        fresh = λ k h.
            ground (arith, pending_ids-erase k id s.pool.pending_starts e, v.fresh k, v.once id);
      }

-- A worker without its holder.
dropped-IsValid :
    (p : PoolInner) (w : WorkerHandle) (lent : List WorkerHandle)
    → IsValid (holding p w lent)
    → IsValid (record { pool = p; lent = lent })
dropped-IsValid p w lent v = record {
  tiers = v.tiers;
  held = v.held.1;
  filed = v.filed;
  gauge = v.gauge;
  unwasted = v.unwasted;
  once = λ k. omega (arith, v.once k);
  fresh = λ k h. omega (arith, v.fresh k h);
}

-- The times and the guild of a held worker are free to change.
module _ (p : PoolInner) (w : WorkerHandle) (lent : List WorkerHandle)
    (v : IsValid (holding p w lent)) where
  pub stamped-IsValid : (now : ℕ) → IsValid (holding p (record w { returned_at = now }) lent)
  stamped-IsValid now = record {
    tiers = v.tiers;
    held = v.held;
    filed = v.filed;
    gauge = v.gauge;
    unwasted = v.unwasted;
    once = v.once;
    fresh = v.fresh;
  }

  claimed-IsValid : (g now : ℕ) → IsValid (holding p (receive_worker w g now).0 lent)
  unfolding receive_worker
  claimed-IsValid g now = record {
    tiers = v.tiers;
    held = v.held;
    filed = v.filed;
    gauge = v.gauge;
    unwasted = v.unwasted;
    once = v.once;
    fresh = v.fresh;
  }

spawned_gen : (p : PoolInner) (tier : ℕ) → (spawn_worker p tier).worker_id_gen ≤ p.worker_id_gen + 1
unfolding spawn_worker
spawned_gen p tier = omega arith

Ensures-mono : (o : Option Fleet) {m n : ℕ} → m ≤ n → Ensures (Kept m) o → Ensures (Kept n) o
Ensures-mono none h e = e
Ensures-mono (some s) h e = (e.0, omega arith)

module _ (alive : ℕ → Bool) (wait : (tx : ℕ) → alive tx ≡ true) (s : Fleet) (v : IsValid s) where
  returned-IsValid :
      (id now : ℕ) (broken : Bool) (w : WorkerHandle) (rest : List WorkerHandle)
      → take_lent id s.lent ≡ some (w, rest)
      → s.pool.worker_id_gen + 1 < 2 ^ 64
      → Ensures
          (Kept (s.pool.worker_id_gen + 1))
          (settle rest (return_worker alive s.pool now w broken))
  unfolding return_worker
  returned-IsValid id now true w rest e room =
      let u = found-IsValid s v id w rest e in
      let d = dropped-IsValid s.pool w rest u in
      (spawn_worker-IsValid s.pool rest d w.priority_index u.held.0.1 room, spawned_gen s.pool _)
  returned-IsValid id now false w rest e room =
      let u = found-IsValid s v id w rest e in
      Ensures-mono (settle rest (return_worker alive s.pool now w false)) (omega arith) (
        add_worker_to_pool-IsValid s.pool (record w { returned_at = now }) rest
          (stamped-IsValid s.pool w rest u now) alive wait)

  connects-IsValid :
      (id now : ℕ)
      → Ensures (Kept s.pool.worker_id_gen) (settle s.lent (worker_connected alive s.pool now id))
  unfolding worker_connected
  connects-IsValid id now = elim (Option-cases (lookup id s.pool.pending_starts)) [
    | inl e ↦ rw (e, worker_connected) (v, omega arith)
    | inr (q, e) ↦
        rw (e, worker_connected)
          (add_worker_to_pool-IsValid _ _ s.lent (connected-IsValid s v id now q e) alive wait)
  ]

  -- A valid fleet stays valid under each call, which does not panic, as long as the identifiers do
  -- not run out and the receivers of requests are not dropped.
  pub step-IsValid :
      (c : Call)
      → s.pool.worker_id_gen + 1 < 2 ^ 64
      → Ensures (Kept (s.pool.worker_id_gen + 1)) (step alive s c)
  unfolding step
  step-IsValid (requests clock tx g tier) room =
      Ensures-mono (answered s.lent (get_worker s.pool clock tx g tier)) (omega arith) (
        answered-IsValid s v clock tx g (premium_tier_index tier) _ (tier_in_range tier)
          (get_worker-Answer s.pool clock tx g tier))
  step-IsValid (claims id g now) room = elim (Option-cases (take_lent id s.lent)) [
    | inl e ↦ rw (e, step) (v, omega arith)
    | inr ((w, rest), e) ↦
        rw (e, step)
          (claimed-IsValid s.pool w rest (found-IsValid s v id w rest e) g now, omega arith)
  ]
  step-IsValid (returns id now broken) room = elim (Option-cases (take_lent id s.lent)) [
    | inl e ↦ rw (e, step) (v, omega arith)
    | inr ((w, rest), e) ↦ rw (e, step) (returned-IsValid id now broken w rest e room)
  ]
  step-IsValid (connects id now) room =
      Ensures-mono (settle s.lent (worker_connected alive s.pool now id)) (omega arith)
        (connects-IsValid id now)
  step-IsValid (spawns tier) room = (
    spawn_worker-IsValid s.pool s.lent v (premium_tier_index tier) (tier_in_range tier) room,
    spawned_gen s.pool _,
  )

pub IsValid-start : IsValid start
IsValid-start = record {
  tiers = λ t h. tt;
  held = tt;
  filed = tt;
  gauge = omega arith;
  unwasted = λ u t h k. inl refl;
  once = λ k. omega arith;
  fresh = λ k h. omega arith;
}

Ensures-and_then :
    (P Q : Fleet → Type 0) (o : Option Fleet) (f : Fleet → Option Fleet)
    → ((t : Fleet) → P t → Ensures Q (f t))
    → Ensures P o
    → Ensures Q (and_then o f)
Ensures-and_then P Q none f k e = e
Ensures-and_then P Q (some t) f k e = k t e

module _ (alive : ℕ → Bool) (wait : (tx : ℕ) → alive tx ≡ true) where
  run-IsValid :
      (s : Fleet) (cs : List Call)
      → IsValid s
      → s.pool.worker_id_gen + length cs < 2 ^ 64
      → Ensures IsValid (run alive s cs)
  unfolding run
  run-IsValid s [] v room = v
  run-IsValid s (c ∷ cs) v room =
      Ensures-and_then _ _ (step alive s c) (λ t. run alive t cs)
        (λ t k. run-IsValid t cs k.0 (omega arith)) (step-IsValid alive wait s v c (omega arith))

  pub run-start-IsValid :
      (cs : List Call) → length cs < 2 ^ 64 - 1 → Ensures IsValid (run alive start cs)
  run-start-IsValid cs h = run-IsValid start cs IsValid-start (omega arith)
