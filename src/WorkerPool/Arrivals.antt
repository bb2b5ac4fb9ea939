-- ===== src/WorkerPool/Arrivals.antt =====
-- The invariant of the worker pool of cmd/scheduler/src/vmworkerpool.rs under requests that wait,
-- workers that come in, and processes that are started.
use botloader.Prelude.{
  ℕ, ◌+◌, ◌^◌, ◌%◌, ◌≤◌, ◌<◌, ◌≡◌, refl, subst, sym, inl, inr, Bool, true, List, [], ◌∷◌, ◌++◌,
  arith, ◌==◌, Bool-cases, length, length-append,
}
use botloader.WorkerPool.{
  PoolInner, WorkerHandle, PendingWorkerHandle, update, queue_request, add_worker_to_pool,
  spawn_worker,
}
use botloader.WorkerPool.Handover.{served, pooled, serves, pools, add_worker_to_pool-Handover}
use botloader.WorkerPool.Fleet.{settle, ids, count_id}
use botloader.WorkerPool.Counting.{
  ids-append, total-update, Between, Between-append, pending_ids-insert, Filed-insert,
}
use botloader.WorkerPool.Invariant.{IsValid, Ensures, Kept, holding}

module _ (p : PoolInner) (lent : List WorkerHandle)
    (v : IsValid (record { pool = p; lent = lent })) where
  pub queue_request-IsValid :
      (tx own : ℕ)
      → ((u : ℕ) → u ≤ own → p.pools u ≡ [])
      → IsValid (record { pool = queue_request p tx own; lent = lent })
  unfolding queue_request
  queue_request-IsValid tx own empty = record {
    tiers = v.tiers;
    held = v.held;
    filed = v.filed;
    gauge = v.gauge;
    unwasted = λ u t h k. elim (Bool-cases (own == u)) [
      | inl e ↦ inr (empty t (ground arith))
      | inr e ↦ rw e (v.unwasted u t h k)
    ];
    once = v.once;
    fresh = v.fresh;
  }

  pub spawn_worker-IsValid :
      (tier : ℕ)
      → tier ≤ 2
      → p.worker_id_gen + 1 < 2 ^ 64
      → IsValid (record { pool = spawn_worker p tier; lent = lent })
  unfolding spawn_worker
  spawn_worker-IsValid tier h room =
      let id : ℕ = (p.worker_id_gen + 1) % 2 ^ 64 in
      let id_eq : id ≡ p.worker_id_gen + 1 = omega arith in
      let starting : PendingWorkerHandle = record { worker_id = id; priority_index = tier } in
      record {
        tiers = v.tiers;
        held = v.held;
        filed = Filed-insert id starting p.pending_starts refl h v.filed;
        gauge = v.gauge;
        unwasted = v.unwasted;
        once = λ k.
            ground (arith, pending_ids-insert k id starting p.pending_starts, v.once k, v.fresh k);
        fresh = λ k l. ground (arith, pending_ids-insert k id starting p.pending_starts, v.fresh k);
      }

module _ (p : PoolInner) (w : WorkerHandle) (lent : List WorkerHandle)
    (v : IsValid (holding p w lent)) where
  served-IsValid :
      (i tx : ℕ) (rest : List ℕ)
      → i ≤ 2
      → p.req_queues i ≡ tx ∷ rest
      → IsValid (holding (served p i rest) w lent)
  served-IsValid i tx rest h e = record {
    tiers = v.tiers;
    held = v.held;
    filed = v.filed;
    gauge = v.gauge;
    unwasted = λ u t l k. elim (Bool-cases (i == u)) [
      | inl s ↦
          let same : u ≡ i = ground arith in
          elim (v.unwasted u t l k) [
            | inl q ↦
                let q' : p.req_queues i ≡ [] = subst (λ x. p.req_queues x ≡ []) same q in cc (e, q')
            | inr q ↦ inr q
          ]
      | inr s ↦ rw s (v.unwasted u t l k)
    ];
    once = v.once;
    fresh = v.fresh;
  }

  own_tier : w.priority_index ≤ 2
  own_tier = v.held.0.1

  pub pooled-count :
      (k : ℕ)
      → count_id k (record { pool = pooled p w; lent = lent }) ≡ count_id k (holding p w lent)
  pooled-count k =
      let ws = p.pools w.priority_index in
      omega (
        arith,
        total-update (ids k) p.pools w.priority_index (ws ++ w ∷ []) own_tier,
        ids-append k ws (w ∷ []),
      )

  pooled-tiers :
      (t : ℕ)
      → t ≤ 2
      → Between t t (update p.pools w.priority_index (p.pools w.priority_index ++ w ∷ []) t)
  pooled-tiers t h = elim (Bool-cases (w.priority_index == t)) [
    | inl e ↦
        let same : w.priority_index ≡ t = ground arith in
        rw e (
          Between-append t t (p.pools w.priority_index) (w ∷ [])
            (subst (λ x. Between t t (p.pools x)) (sym same) (v.tiers t h))
            ((omega arith, omega arith), tt))
    | inr e ↦ rw e (v.tiers t h)
  ]

  pooled-IsValid :
      ((u : ℕ) → w.priority_index ≤ u → u ≤ 2 → p.req_queues u ≡ [])
      → IsValid (record { pool = pooled p w; lent = lent })
  pooled-IsValid idle = record {
    tiers = pooled-tiers;
    held = v.held.1;
    filed = v.filed;
    gauge =
        let ws = p.pools w.priority_index in
        omega (
          arith,
          v.gauge,
          total-update length p.pools w.priority_index (ws ++ w ∷ []) own_tier,
          length-append {0} ws (w ∷ []),
        );
    unwasted = λ u t l k. elim (Bool-cases (w.priority_index == t)) [
      | inl e ↦ inl (idle u (ground arith) k)
      | inr e ↦ rw e (v.unwasted u t l k)
    ];
    once = λ k. omega (arith, pooled-count k, v.once k);
    fresh = λ k h. omega (arith, pooled-count k, v.fresh k h);
  }

  -- A worker that its guild holds goes back into the pool, or on to the next guild.
  pub add_worker_to_pool-IsValid :
      (alive : ℕ → Bool)
      → ((tx : ℕ) → alive tx ≡ true)
      → Ensures (Kept p.worker_id_gen) (settle lent (add_worker_to_pool alive p w))
  add_worker_to_pool-IsValid alive wait = elim (add_worker_to_pool-Handover alive p w own_tier) [
    | serves i tx rest l h e q r ↦ rw (r, wait tx) (served-IsValid i tx rest h e, omega arith)
    | pools q r ↦ rw r (pooled-IsValid q, omega arith)
  ]
