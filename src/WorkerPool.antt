-- ===== src/WorkerPool.antt =====
-- cmd/scheduler/src/vmworkerpool.rs: the pool of VM worker processes that the guilds share.
-- The two arrays of `MAX_PREMIUM_SLOT_TIER + 1` vectors are functions of the tier's index. A
-- request's one-shot channel is the number of its sender, and `alive` says whether the receiver of
-- a sender still waits. Process, socket and message channels of a worker are not modelled. The
-- clock is an argument: a number for one reading, a function where a loop reads it at each worker.
-- The outer `none` of a result is a panic.
pub mod Oldest
pub mod Selection
pub mod Handover
pub mod Fleet
pub mod Counting
pub mod Invariant
pub mod Arrivals
pub mod Runs
pub mod Service
mod Examples
use botloader.Prelude.{
  ℕ, zero, suc, ◌+◌, ◌-◌, ◌*◌, ◌%◌, ◌^◌, Bool, true, false, ◌||◌, Option, none, some, List, [], ◌∷◌,
  ◌++◌, Map, lookup, insert, erase, ltb, ◌==◌, if◌then◌else◌, remove_at,
}

pub data PremiumSlotTier : Type 0 where
  lite premium : PremiumSlotTier

abbrev pub max_premium_slot_tier : ℕ
max_premium_slot_tier = 2

unfoldable pub premium_tier_index : Option PremiumSlotTier → ℕ
premium_tier_index none = 0
premium_tier_index (some lite) = 1
premium_tier_index (some premium) = 2

pub record WorkerHandle : Type 0 where
  pub last_active_guild : Option ℕ
  pub returned_at : ℕ
  pub claimed_at : ℕ
  pub worker_id : ℕ
  pub priority_index : ℕ

pub record PendingWorkerHandle : Type 0 where
  pub worker_id : ℕ
  pub priority_index : ℕ

-- `available` is the gauge bl.scheduler.workerpool_available_workers.
pub record PoolInner : Type 0 where
  pub worker_id_gen : ℕ
  pub pending_starts : Map PendingWorkerHandle
  pub pools : ℕ → List WorkerHandle
  pub req_queues : ℕ → List ℕ
  pub available : ℕ

abbrev pub new : PoolInner
new = record {
  worker_id_gen = 1;
  pending_starts = [];
  pools = λ i. [];
  req_queues = λ i. [];
  available = 0;
}

-- A write to one slot of an array.
abbrev pub update {ℓ} : {A : Type ℓ} (slots : ℕ → A) (tier : ℕ) (value : A) → ℕ → A
update slots tier value other = if tier == other then value else slots other

abbrev pub is_guild : ℕ → Option ℕ → Bool
is_guild g none = false
is_guild g (some h) = h == g

abbrev pub next_index : Option ℕ → Option ℕ
next_index none = none
next_index (some i) = some (suc i)

-- The index of the first worker that last ran the guild.
unfoldable pub same_guild_index : ℕ → List WorkerHandle → Option ℕ
same_guild_index g [] = none
same_guild_index g (w ∷ ws) =
    let rest = next_index (same_guild_index g ws) in
    if is_guild g w.last_active_guild then some 0 else rest

abbrev pub is_none {ℓ} : {A : Type ℓ} → Option A → Bool
is_none none = true
is_none (some a) = false

-- `Duration::MAX` in nanoseconds.
abbrev pub duration_max : ℕ
duration_max = 2 ^ 64 * 1000000000 - 1

-- The scan for the worker that was returned first: `i` counts the workers, `clock i` is the time at
-- which the scan reads the clock for worker `i`. `Instant::elapsed` stops at 0, as `-` does.
unfoldable pub oldest_from : (ℕ → ℕ) → ℕ → Option ℕ → ℕ → List WorkerHandle → Option ℕ
oldest_from clock i candidate age [] = candidate
oldest_from clock i candidate age (w ∷ ws) =
    let elapsed = clock i - w.returned_at in
    let better = is_none candidate || ltb age elapsed in
    oldest_from clock (suc i) (if better then some i else candidate)
      (if better then elapsed else age) ws

unfoldable pub oldest_index : (ℕ → ℕ) → List WorkerHandle → Option ℕ
unfolding oldest_from
oldest_index clock ws = oldest_from clock 0 none duration_max ws

-- The loops over the tiers, from the request's tier down to 0: the first tier at which `pick`
-- chooses a worker, with that worker's index.
unfoldable pub scan_tiers :
    (List WorkerHandle → Option ℕ) → (ℕ → List WorkerHandle) → ℕ → Option (ℕ × ℕ)
scan_tiers pick pools zero = elim (pick (pools 0)) [ none ↦ none | some j ↦ some (0, j) ]
scan_tiers pick pools (suc i) = elim (pick (pools (suc i))) [
  | none ↦ scan_tiers pick pools i
  | some j ↦ some (suc i, j)
]

-- `return pool.remove(index)`, and the gauge.
unfoldable pub take_worker : PoolInner → ℕ → ℕ → Option (PoolInner × Option WorkerHandle)
take_worker w tier index = elim (remove_at (w.pools tier) index) [
  | none ↦ none
  | some (worker, rest) ↦
      some (record w { pools = update w.pools tier rest; available = w.available - 1 }, some worker)
]

unfoldable pub queue_request : PoolInner → ℕ → ℕ → PoolInner
queue_request w tx tier = record w {
  req_queues = update w.req_queues tier (w.req_queues tier ++ tx ∷ []);
}

unfoldable pub take_oldest : PoolInner → (ℕ → ℕ) → ℕ → ℕ → Option (PoolInner × Option WorkerHandle)
take_oldest w clock tx tier = elim (scan_tiers (oldest_index clock) w.pools tier) [
  | some (i, j) ↦ take_worker w i j
  | none ↦ some (queue_request w tx tier, none)
]

-- `inner_get_worker` up to its `await`: the worker, or none if the request waits in its queue.
unfoldable pub get_worker :
    PoolInner → (ℕ → ℕ) → ℕ → ℕ → Option PremiumSlotTier → Option (PoolInner × Option WorkerHandle)
get_worker w clock tx guild_id premium_tier =
    elim (scan_tiers (same_guild_index guild_id) w.pools (premium_tier_index premium_tier)) [
      | some (i, j) ↦ take_worker w i j
      | none ↦ take_oldest w clock tx (premium_tier_index premium_tier)
    ]

pub data WorkerRetrieved : Type 0 where
  same_guild other_guild : WorkerRetrieved

unfoldable pub claim : WorkerHandle → ℕ → ℕ → WorkerHandle
claim worker guild_id now = record worker { last_active_guild = some guild_id; claimed_at = now }

-- The rest of `req_worker`, once a worker has arrived.
unfoldable pub receive_worker : WorkerHandle → ℕ → ℕ → WorkerHandle × WorkerRetrieved
unfolding claim
receive_worker worker guild_id now = (
  claim worker guild_id now,
  if is_guild guild_id worker.last_active_guild then same_guild else other_guild,
)

-- The loop of `add_worker_to_pool` from tier `i` down to the worker's own: the first tier with a
-- request, with that request and the rest of its queue. Below tier 0 the index underflows.
unfoldable pub find_request : (ℕ → List ℕ) → ℕ → ℕ → Option (Option (ℕ × ℕ × List ℕ))
find_request queues own zero = elim (queues 0) [
  | tx ∷ rest ↦ some (some (0, tx, rest))
  | [] ↦ if own == 0 then some none else none
]
find_request queues own (suc i) =
    let lower = find_request queues own i in
    elim (queues (suc i)) [
      | tx ∷ rest ↦ some (some (suc i, tx, rest))
      | [] ↦ if own == suc i then some none else lower
    ]

-- The delivery is the sender that was used, with the worker that went through it.
unfoldable pub add_worker_to_pool :
    (ℕ → Bool) → PoolInner → WorkerHandle → Option (PoolInner × Option (ℕ × WorkerHandle))
add_worker_to_pool alive w worker =
    elim (find_request w.req_queues worker.priority_index max_premium_slot_tier) [
      | none ↦ none
      | some none ↦ some (
        record w {
          pools =
              update w.pools worker.priority_index (w.pools worker.priority_index ++ worker ∷ []);
          available = w.available + 1;
        },
        none,
      )
      | some (some (i, tx, rest)) ↦
          if alive tx
          then some (record w { req_queues = update w.req_queues i rest }, some (tx, worker))
          else none
    ]

unfoldable pub gen_id : PoolInner → PoolInner × ℕ
gen_id w = let id = (w.worker_id_gen + 1) % 2 ^ 64 in (record w { worker_id_gen = id }, id)

unfoldable pub add_pending_worker : PoolInner → PendingWorkerHandle → PoolInner
add_pending_worker w worker = record w {
  pending_starts = insert worker.worker_id worker w.pending_starts;
}

-- The process is started between the two calls.
unfoldable pub spawn_worker : PoolInner → ℕ → PoolInner
unfolding gen_id add_pending_worker
spawn_worker w tier =
    let (w', id) = gen_id w in
    add_pending_worker w' (record { worker_id = id; priority_index = tier })

unfoldable pub spawn_workers : PoolInner → Option PremiumSlotTier → ℕ → PoolInner
spawn_workers w tier zero = w
spawn_workers w tier (suc n) = spawn_workers (spawn_worker w (premium_tier_index tier)) tier n

unfoldable pub return_worker :
    (ℕ → Bool)
    → PoolInner
    → ℕ
    → WorkerHandle
    → Bool
    → Option (PoolInner × Option (ℕ × WorkerHandle))
return_worker alive w now worker true = some (spawn_worker w worker.priority_index, none)
return_worker alive w now worker false =
    add_worker_to_pool alive w (record worker { returned_at = now })

unfoldable pub init_worker_handles : PendingWorkerHandle → ℕ → WorkerHandle
init_worker_handles pending now = record {
  last_active_guild = none;
  returned_at = now;
  claimed_at = now;
  worker_id = pending.worker_id;
  priority_index = pending.priority_index;
}

unfoldable pub worker_connected :
    (ℕ → Bool) → PoolInner → ℕ → ℕ → Option (PoolInner × Option (ℕ × WorkerHandle))
worker_connected alive w now id = elim (lookup id w.pending_starts) [
  | none ↦ some (w, none)
  | some pending ↦
      add_worker_to_pool alive (record w { pending_starts = erase id w.pending_starts })
        (init_worker_handles pending now)
]
