-- ===== src/Runtime.antt =====
-- components/runtime/src: the limits on what the scripts of a guild store (limits.rs,
-- extensions/storage.rs, extensions/tasks.rs). The buckets and the tasks are in the stores, whose
-- answers are arguments.
pub mod Storage
pub mod Metering
pub mod TaskLimit
mod Examples
use botloader.Prelude.{
  ℕ, zero, suc, ◌+◌, ◌-◌, ◌*◌, ◌/◌, Bool, true, false, Option, none, some, List, [], ◌∷◌, ltb,
  if◌then◌else◌,
}
use botloader.WorkerPool.{PremiumSlotTier, lite, premium}

-- `numeric_limit!` and the table of `ratelimits!`.
abbrev pub by_tier : ℕ → ℕ → ℕ → Option PremiumSlotTier → ℕ
by_tier free for_lite for_premium none = free
by_tier free for_lite for_premium (some lite) = for_lite
by_tier free for_lite for_premium (some premium) = for_premium

abbrev pub user_http : Option PremiumSlotTier → ℕ
user_http = by_tier 1 2 2

abbrev pub task_ops : Option PremiumSlotTier → ℕ
task_ops = by_tier 1 2 3

abbrev pub storage_total_size : Option PremiumSlotTier → ℕ
storage_total_size = by_tier 1000000 10000000 100000000

abbrev pub tasks_data_size : Option PremiumSlotTier → ℕ
tasks_data_size = by_tier 1000 10000 10000

abbrev pub tasks_scheduled_count : Option PremiumSlotTier → ℕ
tasks_scheduled_count = by_tier 10000 100000 100000

-- How `op_bl_schedule_task` ends.
pub data Scheduling : Type 0 where
  scheduled data_too_big too_many_tasks store_error : Scheduling

-- A request for a task, with what the store answers: whether it counts the tasks, and of `create_task` an
-- error, a task that is new (true), or one that there was with the same name and unique key, which is
-- updated (false). The time of the task is one that chrono can represent.
pub record TaskAsk : Type 0 where
  pub data_len : ℕ
  pub counts : Bool
  pub created : Option Bool

-- The store has `current` tasks.
unfoldable pub schedule_task : Option PremiumSlotTier → TaskAsk → ℕ → ℕ × Scheduling
schedule_task tier ask current =
    if ltb (tasks_data_size tier) ask.data_len
    then (current, data_too_big)
    else if ask.counts
    then (if ltb (tasks_scheduled_count tier) current
        then (current, too_many_tasks)
        else elim ask.created [
          | none ↦ (current, store_error)
          | some true ↦ (suc current, scheduled)
          | some false ↦ (current, scheduled)
        ])
    else (current, store_error)

-- A script that asks for tasks one after another.
unfoldable pub schedule_tasks : Option PremiumSlotTier → List TaskAsk → ℕ → ℕ
unfolding schedule_task
schedule_tasks tier [] current = current
schedule_tasks tier (ask ∷ asks) current =
    schedule_tasks tier asks (schedule_task tier ask current).0
