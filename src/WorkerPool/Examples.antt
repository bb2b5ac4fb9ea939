-- ===== src/WorkerPool/Examples.antt =====
-- The theorems on cmd/scheduler/src/vmworkerpool.rs at concrete pools.
use botloader.Prelude.{
  ℕ, ◌≡◌, refl, Bool, true, false, Option, none, some, List, [], ◌∷◌, arith, lookup,
}
use botloader.WorkerPool.{
  PoolInner, WorkerHandle, PendingWorkerHandle, premium_tier_index, lite, new, update, get_worker,
  add_worker_to_pool, worker_connected, gen_id, add_pending_worker, spawn_worker, return_worker,
  take_worker, take_oldest, oldest_index, same_guild_index, scan_tiers, find_request,
  init_worker_handles, receive_worker,
}
use botloader.Prelude.{remove_at, erase, insert}
use botloader.WorkerPool.Selection.{Answer, taken, get_worker-Answer}
use botloader.WorkerPool.Handover.{Handover, add_worker_to_pool-Handover}
use botloader.WorkerPool.Fleet.{
  Fleet, start, Call, requests, claims, returns, connects, spawns, step, run, take_lent,
}
use botloader.WorkerPool.Invariant.{IsValid, Ensures}
use botloader.WorkerPool.Runs.{run-start-IsValid, IsValid-start}
use botloader.WorkerPool.Service.{
  SameWorkers, step-SameWorkers, returning, early_connection_ignored,
}

abbrev waits : ℕ → Bool
waits tx = true

-- A worker starts, serves guild 7, is returned, and a second one starts for a higher tier.
abbrev calls : List Call
calls =
    spawns none
    ∷ connects 2 5
    ∷ requests (λ i. 9) 1 7 none
    ∷ claims 2 7 10
    ∷ returns 2 20 false
    ∷ spawns (some lite)
    ∷ connects 3 30
    ∷ []

abbrev or_start : Option Fleet → Fleet
or_start none = start
or_start (some s) = s

fleet_of-IsValid : (o : Option Fleet) → Ensures IsValid o → IsValid (or_start o)
fleet_of-IsValid none e = absurd e
fleet_of-IsValid (some s) e = e

abbrev fleet : Fleet
fleet = or_start (run waits start calls)

fleet-IsValid : IsValid fleet
fleet-IsValid = fleet_of-IsValid (run waits start calls) ran
  where
    ran : Ensures IsValid (run waits start calls)
    ran = run-start-IsValid waits (λ tx. refl) calls (omega arith)

get_worker-Answer_example :
    Answer fleet.pool
      (λ i. 40)
      2
      7
      (premium_tier_index (some lite))
      (get_worker fleet.pool (λ i. 40) 2 7 (some lite))
get_worker-Answer_example = get_worker-Answer fleet.pool (λ i. 40) 2 7 (some lite)

abbrev worker : WorkerHandle
worker = record {
  last_active_guild = some 7;
  returned_at = 20;
  claimed_at = 10;
  worker_id = 2;
  priority_index = 0;
}

-- Two guilds wait, the second one in a higher tier.
abbrev busy : PoolInner
busy = record new { req_queues = update (update new.req_queues 0 (1 ∷ [])) 2 (5 ∷ 6 ∷ []) }

add_worker_to_pool-Handover_example :
    Handover waits busy worker (add_worker_to_pool waits busy worker)
add_worker_to_pool-Handover_example = add_worker_to_pool-Handover waits busy worker (omega arith)

highest_first :
    add_worker_to_pool waits busy worker
    ≡ some (record busy { req_queues = update busy.req_queues 2 (6 ∷ []) }, some (5, worker))
unfolding add_worker_to_pool find_request
highest_first = refl

served_again : get_worker fleet.pool (λ i. 40) 2 7 none ≡ some (taken fleet.pool 0 [], some worker)
unfolding run step get_worker scan_tiers same_guild_index take_worker remove_at spawn_worker
    premium_tier_index worker_connected add_worker_to_pool find_request return_worker
    init_worker_handles receive_worker take_oldest oldest_index take_lent lookup erase insert
served_again = refl

step-SameWorkers_example : Ensures (SameWorkers fleet) (step waits fleet (returns 2 50 false))
step-SameWorkers_example =
    step-SameWorkers waits (λ tx. refl) fleet (returns 2 50 false) fleet-IsValid (returning 2 50)

early_connection_ignored_example :
    let (p, id) = gen_id start.pool in
    let filed : PendingWorkerHandle = record { worker_id = id; priority_index = 0 } in
    (worker_connected waits p 5 id ≡ some (p, none))
    × (lookup id (add_pending_worker p filed).pending_starts ≡ some filed)
early_connection_ignored_example =
    early_connection_ignored waits start 0 5 IsValid-start (omega arith)
