-- ===== src/WorkerPool/Handover.antt =====
-- Who gets a worker that `add_worker_to_pool` of cmd/scheduler/src/vmworkerpool.rs takes in.
use botloader.Prelude.{
  ℕ, zero, suc, ◌+◌, ◌≤◌, ◌<◌, ◌≡◌, refl, ◌⊎◌, subst, inl, inr, Bool, Option, none, some, List, [],
  ◌∷◌, ◌++◌, arith, Bool-cases, ltb, ◌==◌, if◌then◌else◌,
}
use botloader.WorkerPool.{
  PoolInner, WorkerHandle, max_premium_slot_tier, update, find_request, add_worker_to_pool,
}

-- The pool after its worker went to request `tx` at the head of queue `i`.
abbrev pub served : PoolInner → ℕ → List ℕ → PoolInner
served w i rest = record w { req_queues = update w.req_queues i rest }

abbrev pub pooled : PoolInner → WorkerHandle → PoolInner
pooled w worker = record w {
  pools = update w.pools worker.priority_index (w.pools worker.priority_index ++ worker ∷ []);
  available = w.available + 1;
}

pub data Handover (alive : ℕ → Bool) (w : PoolInner) (worker : WorkerHandle)
    (r : Option (PoolInner × Option (ℕ × WorkerHandle))) : Type 0 where
  serves :
      (i tx : ℕ) (rest : List ℕ)
      → worker.priority_index ≤ i
      → i ≤ max_premium_slot_tier
      → w.req_queues i ≡ tx ∷ rest
      → ((u : ℕ) → i < u → u ≤ max_premium_slot_tier → w.req_queues u ≡ [])
      → r ≡ (if alive tx then some (served w i rest, some (tx, worker)) else none)
      → Handover alive w worker r
  pools :
      ((u : ℕ) → worker.priority_index ≤ u → u ≤ max_premium_slot_tier → w.req_queues u ≡ [])
      → r ≡ some (pooled w worker, none)
      → Handover alive w worker r

List-cases {ℓ} : {A : Type ℓ} (xs : List A) → (xs ≡ []) ⊎ ((y : A) × (ys : List A) × (xs ≡ y ∷ ys))
List-cases [] = inl refl
List-cases (x ∷ xs) = inr (x, xs, refl)

module _ (queues : ℕ → List ℕ) (own : ℕ) where
  abbrev FindsRequest : ℕ → Option (Option (ℕ × ℕ × List ℕ)) → Type 0
  FindsRequest top r =
      ((r ≡ some none) × ((u : ℕ) → own ≤ u → u ≤ top → queues u ≡ []))
      ⊎ ((i : ℕ) × (tx : ℕ) × (rest : List ℕ) × (r ≡ some (some (i, tx, rest)))
          × (own ≤ i)
          × (i ≤ top)
          × (queues i ≡ tx ∷ rest)
          × ((u : ℕ) → i < u → u ≤ top → queues u ≡ []))

  at_top :
      (top u : ℕ) → queues (suc top) ≡ [] → (u ≤ top → queues u ≡ []) → u ≤ suc top → queues u ≡ []
  at_top top u p q h = elim (Bool-cases (ltb top u)) [
    | inl e ↦ let same : suc top ≡ u = ground arith in subst (λ v. queues v ≡ []) same p
    | inr e ↦ q (ground arith)
  ]

  own_only : (u : ℕ) → queues own ≡ [] → own ≤ u → u ≤ own → queues u ≡ []
  own_only u p h k = let same : own ≡ u = omega arith in subst (λ v. queues v ≡ []) same p

  find_request-FindsRequest : (top : ℕ) → own ≤ top → FindsRequest top (find_request queues own top)
  unfolding find_request
  find_request-FindsRequest zero h = elim (List-cases (queues 0)) [
    | inl e ↦
        let z : 0 ≡ own = omega arith in
        inl (
          rw (e, find_request) (ground arith),
          λ u l k. own_only u (subst (λ v. queues v ≡ []) z e) l (omega arith),
        )
    | inr (tx, rest, e) ↦ inr (
      0,
      tx,
      rest,
      rw (e, find_request),
      omega arith,
      omega arith,
      e,
      λ u l k. absurd (omega arith),
    )
  ]
  find_request-FindsRequest (suc top) h = elim (List-cases (queues (suc top))) [
    | inr (tx, rest, e) ↦
        inr (
          suc top,
          tx,
          rest,
          rw (e, find_request),
          h,
          omega arith,
          e,
          λ u l k. absurd (omega arith),
        )
    | inl e ↦ elim (Bool-cases (own == suc top)) [
      | inl s ↦
          let same : suc top ≡ own = ground arith in
          inl (
            rw (e, find_request, s),
            λ u l k. own_only u (subst (λ v. queues v ≡ []) same e) l (omega arith),
          )
      | inr s ↦ elim (find_request-FindsRequest top (ground arith)) [
        | inl (p, q) ↦ inl (rw (e, find_request, s, p), λ u l k. at_top top u e (q u l) k)
        | inr (i, tx, rest, p, l, m, c, q) ↦ inr (
          i,
          tx,
          rest,
          rw (e, find_request, s, p),
          l,
          omega arith,
          c,
          λ u n k. at_top top u e (q u n) k,
        )
      ]
    ]
  ]

-- A worker that comes in goes to the first request in the queue of the highest tier that has one,
-- among its own tier and those above, if that request's receiver is alive (the call panics if not).
-- Without such a request it joins the end of its tier's vector. For a worker whose tier is in
-- range, the loop's index never falls below 0.
pub add_worker_to_pool-Handover :
    (alive : ℕ → Bool) (w : PoolInner) (worker : WorkerHandle)
    → worker.priority_index ≤ max_premium_slot_tier
    → Handover alive w worker (add_worker_to_pool alive w worker)
unfolding add_worker_to_pool
add_worker_to_pool-Handover alive w worker h =
    elim (find_request-FindsRequest w.req_queues worker.priority_index max_premium_slot_tier h) [
      | inl (e, q) ↦ pools q (rw (e, add_worker_to_pool))
      | inr (i, tx, rest, e, l, m, c, q) ↦ serves i tx rest l m c q (rw (e, add_worker_to_pool))
    ]
