-- ===== src/WorkerPool/Invariant.antt =====
-- The invariant of the worker pool of cmd/scheduler/src/vmworkerpool.rs, kept by every call.
use botloader.Prelude.{
  remove_at, ℕ, ◌≤◌, ◌<◌, ◌≡◌, ◌⊎◌, subst, inl, inr, Option, none, some, List, [], ◌∷◌, arith, ◌==◌,
  Bool-cases, length,
}
use botloader.WorkerPool.{PoolInner, WorkerHandle, update}
use botloader.WorkerPool.Oldest.{At}
use botloader.WorkerPool.Selection.{taken}
use botloader.WorkerPool.Fleet.{Fleet, ids, total, count_id}
use botloader.WorkerPool.Counting.{
  total-update, remove_at-ids, remove_at-length, Between, remove_at-Between, Filed,
}

-- A vector holds workers of its own tier only, held workers have a tier, and started processes are
-- filed under their identifiers. The gauge counts the idle workers. No request waits in a queue
-- while a worker of its tier or a lower one is idle. An identifier belongs to one worker at most,
-- and to none before it is drawn.
pub record IsValid (s : Fleet) : Type 0 where
  pub tiers : (t : ℕ) → t ≤ 2 → Between t t (s.pool.pools t)
  pub held : Between 0 2 s.lent
  pub filed : Filed s.pool.pending_starts
  pub gauge : s.pool.available ≡ total length s.pool.pools
  pub unwasted : (u t : ℕ) → t ≤ u → u ≤ 2 → (s.pool.req_queues u ≡ []) ⊎ (s.pool.pools t ≡ [])
  pub once : (k : ℕ) → count_id k s ≤ 1
  pub fresh : (k : ℕ) → s.pool.worker_id_gen < k → count_id k s ≡ 0

-- The step does not panic, and its result has the property.
abbrev pub Ensures : (Fleet → Type 0) → Option Fleet → Type 0
Ensures P none = ⊥
Ensures P (some s) = P s

-- The state is valid, and its identifiers are drawn up to `n` at most.
abbrev pub Kept : ℕ → Fleet → Type 0
Kept n s = IsValid s × (s.pool.worker_id_gen ≤ n)

abbrev pub holding : PoolInner → WorkerHandle → List WorkerHandle → Fleet
holding p w lent = record { pool = p; lent = w ∷ lent }

module _ (p : PoolInner) (lent : List WorkerHandle)
    (v : IsValid (record { pool = p; lent = lent })) where
  module _ (t j : ℕ) (le : t ≤ 2) (a : At (p.pools t) j) where
    taken-tiers : (u : ℕ) → u ≤ 2 → Between u u (update p.pools t a.rest u)
    taken-tiers u h = elim (Bool-cases (t == u)) [
      | inl e ↦
          let same : t ≡ u = ground arith in
          rw e (
            subst (λ x. Between x x a.rest) same
              (remove_at-Between t t (p.pools t) j a.worker a.rest a.removed (v.tiers t le)).1)
      | inr e ↦ rw e (v.tiers u h)
    ]

    taken-not_empty : p.pools t ≡ [] → ⊥
    unfolding remove_at
    taken-not_empty e =
        let r : remove_at [] j ≡ some (a.worker, a.rest) =
          subst (λ ws. remove_at ws j ≡ some (a.worker, a.rest)) e a.removed in
        cc r

    taken-unwasted :
        (u i : ℕ) → i ≤ u → u ≤ 2 → (p.req_queues u ≡ []) ⊎ (update p.pools t a.rest i ≡ [])
    taken-unwasted u i h k = elim (Bool-cases (t == i)) [
      | inl e ↦
          let same : i ≡ t = ground arith in
          elim (v.unwasted u i h k) [
            | inl q ↦ inl q
            | inr q ↦ absurd (taken-not_empty (subst (λ x. p.pools x ≡ []) same q))
          ]
      | inr e ↦ rw e (v.unwasted u i h k)
    ]

    pub taken-count :
        (k : ℕ)
        → count_id k (holding (taken p t a.rest) a.worker lent)
          ≡ count_id k (record { pool = p; lent = lent })
    taken-count k = omega (
      arith,
      total-update (ids k) p.pools t a.rest le,
      remove_at-ids k (p.pools t) j a.worker a.rest a.removed,
    )

    pub taken-IsValid : IsValid (holding (taken p t a.rest) a.worker lent)
    taken-IsValid = record {
      tiers = taken-tiers;
      held =
          let b = remove_at-Between t t (p.pools t) j a.worker a.rest a.removed (v.tiers t le) in
          ((omega arith, omega arith), v.held);
      filed = v.filed;
      gauge = omega (
        arith,
        v.gauge,
        total-update length p.pools t a.rest le,
        remove_at-length (p.pools t) j a.worker a.rest a.removed,
      );
      unwasted = taken-unwasted;
      once = λ k. omega (arith, taken-count k, v.once k);
      fresh = λ k h. omega (arith, taken-count k, v.fresh k h);
    }
