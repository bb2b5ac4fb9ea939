-- ===== src/WorkerPool/Selection.antt =====
-- What `inner_get_worker` of cmd/scheduler/src/vmworkerpool.rs answers to a request.
use botloader.Prelude.{
  ℕ, ◌-◌, ◌≤◌, ◌<◌, ◌≡◌, subst, ap, inl, inr, ◌∙◌, sym, Option, none, some, List, [], arith,
}
use botloader.WorkerPool.{
  PoolInner, WorkerHandle, PremiumSlotTier, premium_tier_index, update, same_guild_index,
  oldest_index, take_worker, take_oldest, queue_request, get_worker,
}
use botloader.WorkerPool.Oldest.{
  At, Best, NoGuild, oldest_index_cases, same_guild_index_cases, scan_tiers-Finds,
}

-- The pool without a worker of one tier.
abbrev pub taken : PoolInner → ℕ → List WorkerHandle → PoolInner
taken w tier rest = record w { pools = update w.pools tier rest; available = w.available - 1 }

-- The answers to a request for the guild `g` whose tier has the index `own`.
pub data Answer (w : PoolInner) (clock : ℕ → ℕ) (tx g own : ℕ)
    (r : Option (PoolInner × Option WorkerHandle)) : Type 0 where
  ran_guild :
      (t j : ℕ) (a : At (w.pools t) j)
      → t ≤ own
      → a.worker.last_active_guild ≡ some g
      → ((u : ℕ) → t < u → u ≤ own → NoGuild g (w.pools u))
      → r ≡ some (taken w t a.rest, some a.worker)
      → Answer w clock tx g own r
  waited_longest :
      (t j : ℕ) (b : Best clock 0 j (w.pools t))
      → t ≤ own
      → ((u : ℕ) → u ≤ own → NoGuild g (w.pools u))
      → ((u : ℕ) → t < u → u ≤ own → w.pools u ≡ [])
      → r ≡ some (taken w t b.here.rest, some b.here.worker)
      → Answer w clock tx g own r
  must_wait :
      ((u : ℕ) → u ≤ own → w.pools u ≡ [])
      → r ≡ some (queue_request w tx own, none)
      → Answer w clock tx g own r

none-NoGuild : (g : ℕ) (ws : List WorkerHandle) → same_guild_index g ws ≡ none → NoGuild g ws
none-NoGuild g ws e = elim (same_guild_index_cases g ws) [ inl (_, q) ↦ q | inr (j, a, p, _) ↦ cc ]

none_empty : (clock : ℕ → ℕ) (ws : List WorkerHandle) → oldest_index clock ws ≡ none → ws ≡ []
none_empty clock ws e = elim (oldest_index_cases clock ws) [ inl (q, _) ↦ q | inr (j, b, p) ↦ cc ]

some_At :
    (g : ℕ) (ws : List WorkerHandle) {j : ℕ}
    → same_guild_index g ws ≡ some j
    → (a : At ws j) × (a.worker.last_active_guild ≡ some g)
some_At g ws {j} e = elim (same_guild_index_cases g ws) [
  | inl (p, _) ↦ cc
  | inr (i, a, p, q) ↦
      let same : i ≡ j = ground arith in
      subst (λ k. (b : At ws k) × (b.worker.last_active_guild ≡ some g)) same (a, q)
]

some-Best :
    (clock : ℕ → ℕ) (ws : List WorkerHandle) {j : ℕ}
    → oldest_index clock ws ≡ some j
    → Best clock 0 j ws
some-Best clock ws {j} e = elim (oldest_index_cases clock ws) [
  | inl (_, p) ↦ cc
  | inr (i, b, p) ↦ let same : i ≡ j = ground arith in subst (λ k. Best clock 0 k ws) same b
]

take_worker-At :
    (w : PoolInner) (t j : ℕ) (a : At (w.pools t) j)
    → take_worker w t j ≡ some (taken w t a.rest, some a.worker)
unfolding take_worker
take_worker-At w t j a = rw (a.removed, take_worker)

take_worker-Best :
    (clock : ℕ → ℕ) (w : PoolInner) (t j : ℕ) (b : Best clock 0 j (w.pools t))
    → take_worker w t j ≡ some (taken w t b.here.rest, some b.here.worker)
take_worker-Best clock w t j b =
    let e : b.k ≡ j = omega (arith, b.j_eq) in
    ap (take_worker w t) (sym e) ∙ take_worker-At w t b.k b.here

module _ (w : PoolInner) (clock : ℕ → ℕ) (tx g : ℕ) where
  take_oldest-Answer :
      (own : ℕ)
      → ((u : ℕ) → u ≤ own → NoGuild g (w.pools u))
      → Answer w clock tx g own (take_oldest w clock tx own)
  unfolding take_oldest
  take_oldest-Answer own fresh = elim (scan_tiers-Finds (oldest_index clock) w.pools own) [
    | inl (e, q) ↦ must_wait (λ u h. none_empty clock _ (q u h)) (rw (e, take_oldest))
    | inr (t, j, e, le, p, q) ↦
        let b = some-Best clock (w.pools t) p in
        waited_longest t j b le fresh (λ u k h. none_empty clock _ (q u k h))
          (rw (e, take_oldest) (take_worker-Best clock w t j b))
  ]

  -- A request never panics, and only workers of its own tier or a lower one answer it. If one of
  -- those last ran the guild, such a worker of the highest tier that has one is taken. If none did,
  -- a worker of the highest tier that has any is taken, one that has been idle longest. If all
  -- these tiers are empty, the request joins the end of its tier's queue.
  pub get_worker-Answer :
      (tier : Option PremiumSlotTier)
      → Answer w clock tx g (premium_tier_index tier) (get_worker w clock tx g tier)
  unfolding get_worker
  get_worker-Answer tier =
      let own = premium_tier_index tier in
      elim (scan_tiers-Finds (same_guild_index g) w.pools own) [
        | inl (e, q) ↦ rw (e, get_worker) (take_oldest-Answer own (λ u h. none-NoGuild g _ (q u h)))
        | inr (t, j, e, le, p, q) ↦
            let (a, last) = some_At g (w.pools t) p in
            ran_guild t j a le last (λ u k h. none-NoGuild g _ (q u k h))
              (rw (e, get_worker) (take_worker-At w t j a))
      ]
