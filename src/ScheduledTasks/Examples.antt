-- ===== src/ScheduledTasks/Examples.antt =====
-- One task that is due and acknowledged; the store deletes it at the second attempt.
use botloader.Prelude.{
  ℕ, ◌≡◌, ◌≢◌, refl, true, false, Option, none, some, List, [], ◌∷◌, String, arith,
}
use botloader.ScheduledTasks.{
  ScheduledTask, TaskManager, new, start_triggered_tasks, ack_triggered_task, delete_until_done,
  remove_pending,
}
use botloader.ScheduledTasks.Acks.{
  times, IsHonest, Reachable, initial, next, triggered, ack_triggered_task-Done,
}

abbrev reminder : ScheduledTask
reminder = record { id = 7; name = "reminder"; unique_key = none; body = 0; execute_at = 50 }

abbrev store : ℕ → List ℕ → List String → Option (List ScheduledTask)
store now ignored task_names = some (reminder ∷ [])

abbrev started : TaskManager
started = record { next_task_time = none; pending = 7 ∷ []; task_names = [] }

abbrev finished : TaskManager
finished = record { next_task_time = none; pending = []; task_names = [] }

store-IsHonest : IsHonest [] (store 100 [] [])
store-IsHonest k = ground arith

started-Reachable : Reachable started
unfolding start_triggered_tasks
started-Reachable = next {m' = started} initial (triggered {m = new} store 100 store-IsHonest)

started-acked : ack_triggered_task (false ∷ true ∷ []) 7 started ≡ some finished
unfolding ack_triggered_task delete_until_done remove_pending
started-acked = refl

ack_triggered_task-Done_example :
    (times 7 finished.pending ≡ 0)
    × ((k : ℕ) → k ≢ 7 → times k finished.pending ≡ times k started.pending)
ack_triggered_task-Done_example =
    ack_triggered_task-Done (false ∷ true ∷ []) 7 started finished started-Reachable started-acked
