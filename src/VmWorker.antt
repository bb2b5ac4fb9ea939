-- ===== src/VmWorker.antt =====
-- cmd/vmworker/src/main.rs: the process that runs the scripts of one guild at a time for the scheduler.
-- `sent` is what it wrote to the scheduler, `is_open` whether the scheduler still reads it, and
-- `runtime_evts` what the runtime's extensions sent and the worker did not read yet. Of the machine
-- the worker keeps the channels: the scripts that its thread started it with, the commands to it,
-- and whether the thread was told to shut down. `Ending` is how the thread of a machine ends once it
-- is told to: with the runtime events that come before the end, or never. `none` is a wait that does
-- not end.
pub mod Serving
pub mod Completing
pub mod Handoff
mod Examples
use botloader.Prelude.{
  ℕ, Bool, true, false, Option, none, some, List, [], ◌∷◌, ◌++◌, String, if◌then◌else◌, ◌==◌,
}
use botloader.WorkerPool.{PremiumSlotTier}
use botloader.VmSession.{
  Script, ScriptMeta, ShutdownReason, runaway, out_of_memory, other_reason, too_many_requests,
  EventData, SchedulerMessage, dispatch_event, create_scripts_vm, complete, shutdown_worker,
  WorkerMessage, ack, shutdown_message, script_started, none_pending, task_scheduled,
}
use botloader.VmScripts.{VmCommand, dispatch_command, restart}
use botloader.VmThread as VmThread
use botloader.VmThread.Machine.{VmEvent, shutdown_event, dispatched_event, vm_finished}

pub data RuntimeEvent : Type 0 where
  runtime_script_started : ScriptMeta → RuntimeEvent
  new_task_scheduled invalid_requests_exceeded : RuntimeEvent

pub record WorkerState : Type 0 where
  pub guild_id : ℕ
  pub load_scripts : List Script
  pub scripts_vm : List VmCommand
  pub told_to_shut_down : Bool

pub record VmWorker : Type 0 where
  pub current_state : Option WorkerState
  pub premium_tier : Option PremiumSlotTier
  pub runtime_evts : List RuntimeEvent
  pub is_open : Bool
  pub sent : List WorkerMessage

pub data ContinueState : Type 0 where
  stop continue send_error : ContinueState

abbrev pub Ending : Type 0
Ending = Option (List RuntimeEvent)

abbrev pub new : VmWorker
new = record {
  current_state = none;
  premium_tier = none;
  runtime_evts = [];
  is_open = true;
  sent = [];
}

unfoldable pub write_message : WorkerMessage → VmWorker → VmWorker × Bool
write_message v w = if w.is_open then (record w { sent = w.sent ++ v ∷ [] }, true) else (w, false)

unfoldable pub runtime_message : RuntimeEvent → WorkerMessage
runtime_message (runtime_script_started sm) = script_started sm
runtime_message new_task_scheduled = task_scheduled
runtime_message invalid_requests_exceeded = shutdown_message too_many_requests

-- `handle_runtime_evt`: whether it succeeds.
unfoldable pub handle_runtime_evt : RuntimeEvent → VmWorker → VmWorker × Bool
unfolding runtime_message write_message
handle_runtime_evt evt w = write_message (runtime_message evt) w

-- The loop over `try_recv`.
unfoldable pub drain_runtime : List RuntimeEvent → VmWorker → VmWorker × Bool
unfolding handle_runtime_evt
drain_runtime [] w = (record w { runtime_evts = [] }, true)
drain_runtime (evt ∷ evts) w =
    let (w', ok) = handle_runtime_evt evt (record w { runtime_evts = evts }) in
    let rest = drain_runtime evts w' in if ok then rest else (w', false)

unfoldable pub wait_shutdown_current_vm : Ending → VmWorker → Option VmWorker
wait_shutdown_current_vm ending w = elim w.current_state [
  | none ↦ some w
  | some current ↦ elim ending [
    | none ↦ none
    | some evts ↦ some (record w { current_state = none; runtime_evts = w.runtime_evts ++ evts })
  ]
]

abbrev pub send_command : VmCommand → WorkerState → WorkerState
send_command cmd current = record current { scripts_vm = current.scripts_vm ++ cmd ∷ [] }

abbrev pub acknowledged : VmWorker × Bool → VmWorker × ContinueState
acknowledged (w, ok) = (w, if ok then continue else send_error)

abbrev pub start_machine : ℕ → List Script → VmWorker → VmWorker
start_machine g scripts w = record w {
  current_state =
      some (record {
        guild_id = g;
        load_scripts = scripts;
        scripts_vm = [];
        told_to_shut_down = false;
      });
}

-- The machine of another guild ends first; one of the same guild is told to restart.
unfoldable pub handle_create_scripts_vm :
    Ending
    → ℕ
    → ℕ
    → Option PremiumSlotTier
    → List Script
    → VmWorker
    → Option (VmWorker × ContinueState)
unfolding wait_shutdown_current_vm write_message
handle_create_scripts_vm ending seq g tier scripts w =
    let ended : Option VmWorker = elim w.current_state [
      | none ↦ some w
      | some current ↦ if current.guild_id == g then some w else wait_shutdown_current_vm ending w
    ] in
    elim ended [
      | none ↦ none
      | some w' ↦ elim w'.current_state [
        | some current ↦ some (
            acknowledged (
              write_message (ack seq) (record w' {
                premium_tier = tier;
                current_state = some (send_command (restart scripts) current);
              })))
        | none ↦ some (
            acknowledged (
              write_message (ack seq)
                (start_machine g scripts (record w' { premium_tier = tier }))))
      ]
    ]

unfoldable pub handle_scheduler_cmd :
    Ending → SchedulerMessage → VmWorker → Option (VmWorker × ContinueState)
unfolding handle_create_scripts_vm
handle_scheduler_cmd ending (dispatch_event name seq value) w = elim w.current_state [
  | none ↦ some (w, continue)
  | some current ↦ some (
    record w { current_state = some (send_command (dispatch_command name value seq) current) },
    continue,
  )
]
handle_scheduler_cmd ending shutdown_worker w = some (w, stop)
handle_scheduler_cmd ending (create_scripts_vm seq g tier scripts) w =
    handle_create_scripts_vm ending seq g tier scripts w
handle_scheduler_cmd ending complete w = elim w.current_state [
  | none ↦ some (w, continue)
  | some current ↦
      some
        (record w { current_state = some (record current { told_to_shut_down = true }) }, continue)
]

abbrev pub reported : VmThread.ShutdownReason → ShutdownReason
reported VmThread.out_of_memory = out_of_memory
reported VmThread.runaway = runaway
reported _ = other_reason

-- Two messages, the second only if the first is written.
abbrev pub write_two : WorkerMessage → WorkerMessage → VmWorker → VmWorker × Bool
unfolding write_message
write_two first second w =
    let (w', ok) = write_message first w in if ok then write_message second w' else (w', false)

unfoldable pub handle_shutdown :
    Ending → VmThread.ShutdownReason → VmWorker → Option (VmWorker × ContinueState)
unfolding wait_shutdown_current_vm drain_runtime write_two
handle_shutdown ending reason w = elim (wait_shutdown_current_vm ending w) [
  | none ↦ none
  | some w' ↦
      let (w'', ok) = drain_runtime w'.runtime_evts w' in
      some (
        acknowledged (
          if ok
          then write_two (shutdown_message (reported reason)) none_pending w''
          else (w'', false)))
]

unfoldable pub handle_vm_evt : Ending → ℕ → VmEvent → VmWorker → Option (VmWorker × ContinueState)
unfolding handle_shutdown drain_runtime write_message
handle_vm_evt ending g evt w = elim w.current_state [
  | none ↦ some (w, continue)
  | some current ↦
      if current.guild_id == g
      then elim evt [
        | shutdown_event reason ↦ handle_shutdown ending reason w
        | dispatched_event id ↦ some (acknowledged (write_message (ack id) w))
        | vm_finished ↦
            let (w', ok) = drain_runtime w.runtime_evts w in
            some (acknowledged (if ok then write_message none_pending w' else (w', false)))
      ]
      else some (w, continue)
]

-- What a round of `run` takes from one of its channels; none is the end of the channel. The
-- event of the runtime is the first that waits.
pub data Input : Type 0 where
  scheduler_cmd : Option SchedulerMessage → Input
  runtime_event : Input
  vm_event : Option (ℕ × VmEvent) → Input

unfoldable pub round : Ending → Input → VmWorker → Option (VmWorker × ContinueState)
unfolding handle_scheduler_cmd handle_runtime_evt handle_vm_evt write_message
round ending (scheduler_cmd none) w = some (w, stop)
round ending (scheduler_cmd (some cmd)) w = handle_scheduler_cmd ending cmd w
round ending runtime_event w = elim w.runtime_evts [
  | [] ↦ some (w, continue)
  | evt ∷ evts ↦ some (acknowledged (handle_runtime_evt evt (record w { runtime_evts = evts })))
]
round ending (vm_event none) w = elim w.current_state [
  | none ↦ some (w, continue)
  | some current ↦ some (
      acknowledged
        (write_message (shutdown_message other_reason) (record w { current_state = none })))
]
round ending (vm_event (some (g, evt))) w = handle_vm_evt ending g evt w

-- The loop of `run`; an error of a round is only logged.
unfoldable pub run : Ending → List Input → VmWorker → Option VmWorker
unfolding round wait_shutdown_current_vm
run ending [] w = some w
run ending (i ∷ is) w = elim (round ending i w) [
  | none ↦ none
  | some (w', stop) ↦ wait_shutdown_current_vm ending w'
  | some (w', _) ↦ run ending is w'
]
