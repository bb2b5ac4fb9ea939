-- ===== src/WorkerPool/Counting.antt =====
-- Lemmas on counting the workers of cmd/scheduler/src/vmworkerpool.rs.
use botloader.Prelude.{
  remove_at, ℕ, zero, suc, ◌+◌, ◌≤◌, ◌≡◌, false, some, List, [], ◌∷◌, ◌++◌, arith, ◌==◌,
  if◌then◌else◌, Map, lookup, insert, erase, length, Bool-cases, Option-cases, inl, inr,
}
use botloader.WorkerPool.{WorkerHandle, PendingWorkerHandle, update}
use botloader.WorkerPool.Fleet.{ids, pending_ids, total, take_lent}

pub ids-append : (k : ℕ) (xs ys : List WorkerHandle) → ids k (xs ++ ys) ≡ ids k xs + ids k ys
ids-append k [] ys = omega arith
ids-append k (x ∷ xs) ys = omega (arith, ids-append k xs ys)

pub total-update :
    (m : List WorkerHandle → ℕ) (pools : ℕ → List WorkerHandle) (t : ℕ) (ws : List WorkerHandle)
    → t ≤ 2
    → total m (update pools t ws) + m (pools t) ≡ total m pools + m ws
total-update m pools zero ws h = omega arith
total-update m pools (suc zero) ws h = omega arith
total-update m pools (suc (suc zero)) ws h = omega arith
total-update m pools (suc (suc (suc t))) ws h = absurd (omega arith)

-- Removing at an index takes one worker out.
pub remove_at-ids :
    (k : ℕ) (ws : List WorkerHandle) (j : ℕ) (w : WorkerHandle) (rest : List WorkerHandle)
    → remove_at ws j ≡ some (w, rest)
    → ids k ws ≡ ids k (w ∷ rest)
unfolding remove_at
remove_at-ids k [] j w rest e = cc
remove_at-ids k (x ∷ ws) zero w rest e = ground arith
remove_at-ids k (x ∷ ws) (suc j) w rest e = elim (Option-cases (remove_at ws j)) [
  | inl n ↦ ground arith
  | inr ((y, more), n) ↦ ground (arith, remove_at-ids k ws j y more)
]

pub remove_at-length :
    (ws : List WorkerHandle) (j : ℕ) (w : WorkerHandle) (rest : List WorkerHandle)
    → remove_at ws j ≡ some (w, rest)
    → length ws ≡ length rest + 1
unfolding remove_at
remove_at-length [] j w rest e = cc
remove_at-length (x ∷ ws) zero w rest e = ground arith
remove_at-length (x ∷ ws) (suc j) w rest e = elim (Option-cases (remove_at ws j)) [
  | inl n ↦ ground arith
  | inr ((y, more), n) ↦ ground (arith, remove_at-length ws j y more)
]

-- Every worker of the list has a tier from `lo` to `hi`.
abbrev pub Between : ℕ → ℕ → List WorkerHandle → Type 0
Between lo hi [] = Unit {0}
Between lo hi (w ∷ ws) = ((lo ≤ w.priority_index) × (w.priority_index ≤ hi)) × Between lo hi ws

pub Between-append :
    (lo hi : ℕ) (xs ys : List WorkerHandle)
    → Between lo hi xs
    → Between lo hi ys
    → Between lo hi (xs ++ ys)
Between-append lo hi [] ys h k = k
Between-append lo hi (x ∷ xs) ys h k = (h.0, Between-append lo hi xs ys h.1 k)

pub remove_at-Between :
    (lo hi : ℕ) (ws : List WorkerHandle) (j : ℕ) (w : WorkerHandle) (rest : List WorkerHandle)
    → remove_at ws j ≡ some (w, rest)
    → Between lo hi ws
    → Between lo hi (w ∷ rest)
unfolding remove_at
remove_at-Between lo hi [] j w rest e h = cc
remove_at-Between lo hi (x ∷ ws) zero w rest e h = ground arith
remove_at-Between lo hi (x ∷ ws) (suc j) w rest e h = elim (Option-cases (remove_at ws j)) [
  | inl n ↦ ground arith
  | inr ((y, more), n) ↦ ground (arith, remove_at-Between lo hi ws j y more n h.1)
]

pub take_lent-Between :
    (lo hi id : ℕ) (ws : List WorkerHandle) (w : WorkerHandle) (rest : List WorkerHandle)
    → take_lent id ws ≡ some (w, rest)
    → Between lo hi ws
    → Between lo hi (w ∷ rest)
unfolding take_lent
take_lent-Between lo hi id [] w rest e h = cc
take_lent-Between lo hi id (x ∷ ws) w rest e h = elim (Option-cases (take_lent id ws)) [
  | inl n ↦ ground arith
  | inr ((y, more), n) ↦ ground (arith, take_lent-Between lo hi id ws y more n h.1)
]

pub take_lent-ids :
    (k id : ℕ) (ws : List WorkerHandle) (w : WorkerHandle) (rest : List WorkerHandle)
    → take_lent id ws ≡ some (w, rest)
    → ids k ws ≡ ids k (w ∷ rest)
unfolding take_lent
take_lent-ids k id [] w rest e = cc
take_lent-ids k id (x ∷ ws) w rest e = elim (Option-cases (take_lent id ws)) [
  | inl n ↦ ground arith
  | inr ((y, more), n) ↦ ground (arith, take_lent-ids k id ws y more)
]

pub pending_ids-insert :
    (k j : ℕ) (p : PendingWorkerHandle) (m : Map PendingWorkerHandle)
    → pending_ids k (insert j p m) ≤ pending_ids k m + (if j == k then 1 else 0)
unfolding insert
pending_ids-insert k j p [] = omega arith
pending_ids-insert k j p ((i, q) ∷ m) = ground (arith, pending_ids-insert k j p m)

pending_ids-erase_self : (j : ℕ) (m : Map PendingWorkerHandle) → pending_ids j (erase j m) ≡ 0
unfolding erase
pending_ids-erase_self j [] = omega arith
pending_ids-erase_self j ((i, q) ∷ m) = ground (arith, pending_ids-erase_self j m)

pending_ids-erase_ne :
    (k j : ℕ) (m : Map PendingWorkerHandle)
    → (j == k) ≡ false
    → pending_ids k (erase j m) ≡ pending_ids k m
unfolding erase
pending_ids-erase_ne k j [] h = omega arith
pending_ids-erase_ne k j ((i, q) ∷ m) h = ground (arith, pending_ids-erase_ne k j m)

pub pending_ids-lookup :
    (j : ℕ) (m : Map PendingWorkerHandle) {p : PendingWorkerHandle}
    → lookup j m ≡ some p
    → 1 ≤ pending_ids j m
unfolding lookup
pending_ids-lookup j [] e = cc
pending_ids-lookup j ((i, q) ∷ m) {p} e = ground (arith, pending_ids-lookup j m {p = p})

-- Taking a started process out of the map, where no other has its identifier.
pub pending_ids-erase :
    (k j : ℕ) (m : Map PendingWorkerHandle) {p : PendingWorkerHandle}
    → lookup j m ≡ some p
    → pending_ids j m ≤ 1
    → pending_ids k (erase j m) + (if j == k then 1 else 0) ≡ pending_ids k m
pending_ids-erase k j m e h = elim (Bool-cases (j == k)) [
  | inl s ↦ ground (arith, pending_ids-erase_self j m, pending_ids-lookup j m e)
  | inr s ↦ ground (arith, pending_ids-erase_ne k j m s)
]

-- Every started process is filed under its own identifier, and its tier is in range.
abbrev pub Filed : Map PendingWorkerHandle → Type 0
Filed [] = Unit {0}
Filed ((j, p) ∷ m) = ((p.worker_id ≡ j) × (p.priority_index ≤ 2)) × Filed m

pub Filed-insert :
    (j : ℕ) (p : PendingWorkerHandle) (m : Map PendingWorkerHandle)
    → p.worker_id ≡ j
    → p.priority_index ≤ 2
    → Filed m
    → Filed (insert j p m)
unfolding insert
Filed-insert j p [] e h f = ((e, h), tt)
Filed-insert j p ((i, q) ∷ m) e h f = ground (arith, Filed-insert j p m e h f.1)

pub Filed-erase : (j : ℕ) (m : Map PendingWorkerHandle) → Filed m → Filed (erase j m)
unfolding erase
Filed-erase j [] f = tt
Filed-erase j ((i, q) ∷ m) f = ground (arith, Filed-erase j m f.1)

pub Filed-lookup :
    (j : ℕ) (m : Map PendingWorkerHandle) {p : PendingWorkerHandle}
    → Filed m
    → lookup j m ≡ some p
    → (p.worker_id ≡ j) × (p.priority_index ≤ 2)
unfolding lookup
Filed-lookup j [] f e = cc
Filed-lookup j ((i, q) ∷ m) {p} f e = ground (arith, Filed-lookup j m {p = p} f.1)
