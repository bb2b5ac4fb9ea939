-- ===== src/ScheduledTasks.antt =====
-- cmd/scheduler/src/scheduled_task_manager.rs: the scheduled tasks of a guild that are due, those
-- that a worker still has to acknowledge, and the time at which to look again. The task store is not
-- modelled: what it answers is an argument of each call, and `none` is a failed query. A time is a
-- number of milliseconds. The `data` of a task is one number, `body`.
pub mod Acks
mod Examples
use text.Mathlib.Text.{◌==◌}
use botloader.Prelude.{
  ℕ, ◌+◌, ◌*◌, Bool, true, false, Option, none, some, List, [], ◌∷◌, ◌++◌, map, String, ltb,
  if◌then◌else◌, position, swap_remove, is_number,
}

pub record ScheduledTask : Type 0 where
  pub id : ℕ
  pub name : String
  pub unique_key : Option String
  pub body : ℕ
  pub execute_at : ℕ

-- The outer option of `next_task_time` is none before the store was asked.
pub record TaskManager : Type 0 where
  pub next_task_time : Option (Option ℕ)
  pub pending : List ℕ
  pub task_names : List String

abbrev pub new : TaskManager
new = record { next_task_time = none; pending = []; task_names = [] }

unfoldable pub init_next_task_time :
    (List ℕ → List String → Option (Option ℕ)) → ℕ → TaskManager → TaskManager
init_next_task_time get_next_task_time now m = elim m.next_task_time [
  | some t ↦ m
  | none ↦ elim (get_next_task_time m.pending m.task_names) [
    | some v ↦ record m { next_task_time = some v }
    | none ↦ record m { next_task_time = some (some (now + 10 * 1000)) }
  ]
]

pub data NextAction : Type 0 where
  nothing : NextAction
  wait : ℕ → NextAction
  run : NextAction

unfoldable pub next_action : ℕ → TaskManager → NextAction
next_action now m = elim m.next_task_time [
  | none ↦ nothing
  | some none ↦ nothing
  | some (some t) ↦ if ltb t now then run else wait t
]

abbrev pub clear_next : TaskManager → TaskManager
clear_next m = record m { next_task_time = none }

abbrev pub clear_pending : TaskManager → TaskManager
clear_pending m = record m { pending = [] }

abbrev pub clear_task_names : TaskManager → TaskManager
clear_task_names m = record m { task_names = [] }

abbrev pub task_id : ScheduledTask → ℕ
task_id task = task.id

unfoldable pub start_triggered_tasks :
    (ℕ → List ℕ → List String → Option (List ScheduledTask))
    → ℕ
    → TaskManager
    → TaskManager × List ScheduledTask
start_triggered_tasks get_triggered_tasks now m =
    elim (get_triggered_tasks now m.pending m.task_names) [
      | some v ↦ (clear_next (record m { pending = m.pending ++ map task_id v }), v)
      | none ↦ (m, [])
    ]

-- `pending.swap_remove` of the first entry that is the id.
unfoldable pub remove_pending : ℕ → List ℕ → List ℕ
unfolding position swap_remove
remove_pending id pending = elim (position (is_number id) pending) [
  | none ↦ pending
  | some index ↦ swap_remove index pending
]

-- The loop that deletes the task, over what the store answers to each attempt: whether it ends.
unfoldable pub delete_until_done : List Bool → Bool
delete_until_done [] = false
delete_until_done (ok ∷ answers) = let rest = delete_until_done answers in if ok then true else rest

-- None while the store has not yet deleted the task.
unfoldable pub ack_triggered_task : List Bool → ℕ → TaskManager → Option TaskManager
unfolding remove_pending delete_until_done
ack_triggered_task answers id m =
    if delete_until_done answers
    then some (record m { pending = remove_pending id m.pending })
    else none

unfoldable pub contains_string : String → List String → Bool
contains_string name [] = false
contains_string name (x ∷ xs) = if x == name then true else contains_string name xs

unfoldable pub add_task_names : List String → List String → List String
unfolding contains_string
add_task_names known [] = known
add_task_names known (name ∷ names) =
    add_task_names (if contains_string name known then known else known ++ name ∷ []) names

-- The argument is `meta.task_names`.
unfoldable pub script_started : List String → TaskManager → TaskManager
unfolding add_task_names
script_started names m = clear_next (record m { task_names = add_task_names m.task_names names })
