-- ===== src/WorkerPool/Fleet.antt =====
-- The pool of cmd/scheduler/src/vmworkerpool.rs together with the workers that guilds hold, and its
-- calls as steps. Each call holds the pool's lock once for its whole effect, but for `spawn_worker`:
-- that one takes it twice, and is here one step. A guild returns only a worker that it holds.
use botloader.Prelude.{ℕ, ◌+◌, Bool, Option, none, some, List, [], ◌∷◌, ◌==◌, if◌then◌else◌, Map}
use botloader.WorkerPool.{
  PoolInner, WorkerHandle, PendingWorkerHandle, PremiumSlotTier, premium_tier_index, new,
  get_worker, return_worker, worker_connected, spawn_worker, receive_worker,
}

pub record Fleet : Type 0 where
  pub pool : PoolInner
  pub lent : List WorkerHandle

abbrev pub start : Fleet
start = record { pool = new; lent = [] }

pub data Call : Type 0 where
  requests : (ℕ → ℕ) → ℕ → ℕ → Option PremiumSlotTier → Call
  claims : ℕ → ℕ → ℕ → Call
  returns : ℕ → ℕ → Bool → Call
  connects : ℕ → ℕ → Call
  spawns : Option PremiumSlotTier → Call

abbrev pub with_head :
    WorkerHandle
    → Option (WorkerHandle × List WorkerHandle)
    → Option (WorkerHandle × List WorkerHandle)
with_head w none = none
with_head w (some (x, rest)) = some (x, w ∷ rest)

-- The held worker with an identifier, and the others.
unfoldable pub take_lent : ℕ → List WorkerHandle → Option (WorkerHandle × List WorkerHandle)
take_lent id [] = none
take_lent id (w ∷ ws) =
    let rest = with_head w (take_lent id ws) in if w.worker_id == id then some (w, ws) else rest

-- A worker that went through a channel is held by the guild that waited for it.
abbrev pub settle :
    List WorkerHandle → Option (PoolInner × Option (ℕ × WorkerHandle)) → Option Fleet
settle lent none = none
settle lent (some (p, none)) = some (record { pool = p; lent = lent })
settle lent (some (p, some (tx, w))) = some (record { pool = p; lent = w ∷ lent })

abbrev pub answered : List WorkerHandle → Option (PoolInner × Option WorkerHandle) → Option Fleet
answered lent none = none
answered lent (some (p, none)) = some (record { pool = p; lent = lent })
answered lent (some (p, some w)) = some (record { pool = p; lent = w ∷ lent })

unfoldable pub step : (ℕ → Bool) → Fleet → Call → Option Fleet
step alive s (requests clock tx guild tier) =
    answered s.lent (get_worker s.pool clock tx guild tier)
step alive s (claims id guild now) = elim (take_lent id s.lent) [
  | none ↦ some s
  | some (w, rest) ↦ some (record s { lent = (receive_worker w guild now).0 ∷ rest })
]
step alive s (returns id now broken) = elim (take_lent id s.lent) [
  | none ↦ some s
  | some (w, rest) ↦ settle rest (return_worker alive s.pool now w broken)
]
step alive s (connects id now) = settle s.lent (worker_connected alive s.pool now id)
step alive s (spawns tier) =
    some (record s { pool = spawn_worker s.pool (premium_tier_index tier) })

abbrev pub and_then : Option Fleet → (Fleet → Option Fleet) → Option Fleet
and_then none f = none
and_then (some s) f = f s

unfoldable pub run : (ℕ → Bool) → Fleet → List Call → Option Fleet
run alive s [] = some s
run alive s (c ∷ cs) = and_then (step alive s c) (λ t. run alive t cs)

-- How many workers of a list, and how many started processes, have the identifier `k`.
abbrev pub ids : ℕ → List WorkerHandle → ℕ
ids k [] = 0
ids k (w ∷ ws) = (if w.worker_id == k then 1 else 0) + ids k ws

abbrev pub pending_ids : ℕ → Map PendingWorkerHandle → ℕ
pending_ids k [] = 0
pending_ids k ((j, p) ∷ m) = (if j == k then 1 else 0) + pending_ids k m

-- A measure of the vectors, added up over the tiers.
abbrev pub total : (List WorkerHandle → ℕ) → (ℕ → List WorkerHandle) → ℕ
total m pools = m (pools 0) + m (pools 1) + m (pools 2)

-- How many workers with the identifier `k` exist: starting, idle or held.
abbrev pub count_id : ℕ → Fleet → ℕ
count_id k s = pending_ids k s.pool.pending_starts + total (ids k) s.pool.pools + ids k s.lent
