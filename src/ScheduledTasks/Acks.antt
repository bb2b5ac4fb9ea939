-- ===== src/ScheduledTasks/Acks.antt =====
-- The tasks that wait for an acknowledgement, cmd/scheduler/src/scheduled_task_manager.rs: over any
-- sequence of the manager's operations. The task store may answer anything that keeps its contract,
-- which is that a query leaves out the ids that it is told to ignore and lists no task twice.
use botloader.Prelude.{
  ℕ, zero, suc, ◌+◌, ◌≤◌, ◌≡◌, ◌≢◌, refl, subst, Bool, Option, none, some, List, [], ◌∷◌, ◌++◌, map,
  String, arith, if◌then◌else◌, ◌==◌, ltb, Bool-cases, Option-cases, inl, inr, position, rotate,
  swap_remove, count, is_number,
}
use botloader.ScheduledTasks.{
  ScheduledTask, TaskManager, new, init_next_task_time, clear_next, clear_pending, clear_task_names,
  task_id, start_triggered_tasks, remove_pending, ack_triggered_task, script_started,
}

abbrev pub times : ℕ → List ℕ → ℕ
times k xs = count (is_number k) xs

times-append : (k : ℕ) (xs ys : List ℕ) → times k (xs ++ ys) ≡ times k xs + times k ys
times-append k [] ys = omega arith
times-append k (x ∷ xs) ys = ground (arith, times-append k xs ys)

times-rotate : (k : ℕ) (xs : List ℕ) → times k (rotate xs) ≡ times k xs
unfolding rotate
times-rotate k [] = refl
times-rotate k (x ∷ xs) = ground (arith, times-rotate k xs)

-- The entry at the position found is one that is the id.
times-swap_remove :
    (k id i : ℕ) (xs : List ℕ)
    → position (is_number id) xs ≡ some i
    → times k (swap_remove i xs) + (if id == k then 1 else 0) ≡ times k xs
unfolding position swap_remove
times-swap_remove k id i [] e = ground arith
times-swap_remove k id zero (x ∷ xs) e = elim (Bool-cases (x == id)) [
  | inl f ↦ ground (arith, times-rotate k xs)
  | inr f ↦ elim (Option-cases (position (is_number id) xs)) [
    | inl g ↦ ground arith
    | inr (j, g) ↦ ground arith
  ]
]
times-swap_remove k id (suc i) (x ∷ xs) e = elim (Option-cases (position (is_number id) xs)) [
  | inl f ↦ ground arith
  | inr (j, f) ↦ ground (arith, times-swap_remove k id i xs)
]

times-position-none : (id : ℕ) (xs : List ℕ) → position (is_number id) xs ≡ none → times id xs ≡ 0
unfolding position
times-position-none id [] e = refl
times-position-none id (x ∷ xs) e = ground (arith, times-position-none id xs)

remove_pending-times :
    (k id : ℕ) (xs : List ℕ)
    → 1 ≤ times id xs
    → times k (remove_pending id xs) + (if id == k then 1 else 0) ≡ times k xs
unfolding remove_pending
remove_pending-times k id xs h = elim (Option-cases (position (is_number id) xs)) [
  | inl e ↦ ground (arith, times-position-none id xs e)
  | inr (i, e) ↦ rw (e, remove_pending) (times-swap_remove k id i xs e)
]

remove_pending-none : (id : ℕ) (xs : List ℕ) → times id xs ≡ 0 → remove_pending id xs ≡ xs
unfolding remove_pending
remove_pending-none id xs h = elim (Option-cases (position (is_number id) xs)) [
  | inl e ↦ rw (e, remove_pending)
  | inr (i, e) ↦ ground (arith, times-swap_remove id id i xs e)
]

remove_pending-fewer : (k id : ℕ) (xs : List ℕ) → times k (remove_pending id xs) ≤ times k xs
remove_pending-fewer k id xs = elim (Bool-cases (times id xs == 0)) [
  | inl e ↦ rw (remove_pending-none id xs (ground arith)) (omega arith)
  | inr e ↦ ground (arith, remove_pending-times k id xs)
]

-- The contract of the task store for one answer: no id twice, and none that is to be ignored.
abbrev pub IsHonest : List ℕ → Option (List ScheduledTask) → Type 0
IsHonest ignored none = Unit
IsHonest ignored (some tasks) =
    (k : ℕ) → times k (map task_id tasks) + (if ltb 0 (times k ignored) then 1 else 0) ≤ 1

pub data Step : TaskManager → TaskManager → Type 0 where
  looked :
      {m : TaskManager} (get : List ℕ → List String → Option (Option ℕ)) (now : ℕ)
      → Step m (init_next_task_time get now m)
  triggered :
      {m : TaskManager} (get : ℕ → List ℕ → List String → Option (List ScheduledTask)) (now : ℕ)
      → IsHonest m.pending (get now m.pending m.task_names)
      → Step m (start_triggered_tasks get now m).0
  acked :
      {m m' : TaskManager} (answers : List Bool) (id : ℕ)
      → ack_triggered_task answers id m ≡ some m'
      → Step m m'
  started : {m : TaskManager} (names : List String) → Step m (script_started names m)
  task_scheduled : {m : TaskManager} → Step m (clear_next m)
  pending_cleared : {m : TaskManager} → Step m (clear_pending m)
  names_cleared : {m : TaskManager} → Step m (clear_task_names m)

pub data Reachable : TaskManager → Type 0 where
  initial : Reachable new
  next : {m m' : TaskManager} → Reachable m → Step m m' → Reachable m'

abbrev Once : List ℕ → Type 0
Once xs = (k : ℕ) → times k xs ≤ 1

init_next_task_time-pending :
    (get : List ℕ → List String → Option (Option ℕ)) (now : ℕ) (m : TaskManager)
    → (init_next_task_time get now m).pending ≡ m.pending
unfolding init_next_task_time
init_next_task_time-pending get now m = ground arith

start_triggered_tasks-Once :
    (get : ℕ → List ℕ → List String → Option (List ScheduledTask)) (now : ℕ) (m : TaskManager)
    → IsHonest m.pending (get now m.pending m.task_names)
    → Once m.pending
    → Once (start_triggered_tasks get now m).0.pending
unfolding start_triggered_tasks
start_triggered_tasks-Once get now m h o = elim (Option-cases (get now m.pending m.task_names)) [
  | inl e ↦ rw (e, start_triggered_tasks) o
  | inr (v, e) ↦
      rw (e, start_triggered_tasks)
        (λ k.
          let honest : IsHonest m.pending (some v) = subst (IsHonest m.pending) e h in
          ground (arith, times-append k m.pending (map task_id v), honest k, o k))
]

ack-pending :
    (answers : List Bool) (id : ℕ) (m m' : TaskManager)
    → ack_triggered_task answers id m ≡ some m'
    → m'.pending ≡ remove_pending id m.pending
unfolding ack_triggered_task
ack-pending answers id m m' e = ground arith

Step-Once : {m m' : TaskManager} → Step m m' → Once m.pending → Once m'.pending
unfolding script_started
Step-Once (looked {m} get now) o = rw (init_next_task_time-pending get now m) o
Step-Once (triggered {m} get now h) o = start_triggered_tasks-Once get now m h o
Step-Once (acked {m} {m'} answers id e) o = λ k.
    rw (ack-pending answers id m m' e) (omega (arith, remove_pending-fewer k id m.pending, o k))
Step-Once (started names) o = o
Step-Once task_scheduled o = o
Step-Once pending_cleared o = λ k. omega arith
Step-Once names_cleared o = o

Reachable-Once : {m : TaskManager} → Reachable m → Once m.pending
Reachable-Once initial = λ k. omega arith
Reachable-Once (next r s) = Step-Once s (Reachable-Once r)

-- Whatever the manager did before, with a store that keeps its contract, a task that is acknowledged
-- is pending no more once the store has deleted it, and whether any other task is pending does not
-- change.
pub ack_triggered_task-Done :
    (answers : List Bool) (id : ℕ) (m m' : TaskManager)
    → Reachable m
    → ack_triggered_task answers id m ≡ some m'
    → (times id m'.pending ≡ 0) × ((k : ℕ) → k ≢ id → times k m'.pending ≡ times k m.pending)
ack_triggered_task-Done answers id m m' r e =
    rw (ack-pending answers id m m' e) (elim (Bool-cases (times id m.pending == 0)) [
      | inl f ↦ rw (remove_pending-none id m.pending (ground arith)) (ground arith, λ k n. refl)
      | inr f ↦ (
        ground (arith, remove_pending-times id id m.pending, Reachable-Once r id),
        λ k n. ground (arith, remove_pending-times k id m.pending, n),
      )
    ])
