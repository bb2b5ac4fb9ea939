-- ===== src/VmScripts/Idle.antt =====
-- components/vm/src/vm.rs and cmd/vmworker/src/main.rs: the events that were sent to a machine come back
-- as acknowledgements.
use mathlib.Core.List.{append-nil, append_assoc}
use botloader.Prelude.{
  ℕ, zero, suc, ◌≡◌, refl, ap, ◌∙◌, Bool, true, false, some, List, [], ◌∷◌, ◌++◌, map, length, ◌<◌,
  String, arith,
}
use botloader.VmSession.{EventData, WorkerMessage, ack, none_pending}
use botloader.VmThread.Machine.{VmEvent, dispatched_event, vm_finished}
use botloader.VmWorker.{
  WorkerState, VmWorker, Ending, Input, vm_event, continue, write_message, drain_runtime,
  handle_vm_evt, round, run,
}
use botloader.VmScripts.{
  VmCommand, dispatch_command, Engine, ScriptVm, handle_cmd, engine_done, Tick, Loop, tick, ticks,
}

-- An event on its way to a machine: its name, its data and its number.
abbrev pub Event : Type 0
Event = String × EventData × ℕ

abbrev pub number : Event → ℕ
number e = e.2

abbrev pub command : Event → VmCommand
command e = dispatch_command e.0 e.1 e.2

abbrev pub acknowledgement : Event → VmEvent
acknowledgement e = dispatched_event e.2

-- A poll in which nothing came in and no script has work left.
abbrev pub quiet_tick : Tick
quiet_tick = record { woken = false; arrived = []; engine_tick = engine_done }

abbrev pub quiet_ticks : ℕ → List Tick
quiet_ticks zero = []
quiet_ticks (suc n) = quiet_tick ∷ quiet_ticks n

-- What a machine reports for the events in its queue.
abbrev pub reports : List Event → List VmEvent
reports es = map acknowledgement es ++ vm_finished ∷ []

-- A machine with these events in its queue.
abbrev pub waiting : List Event → Bool → ScriptVm → Loop
waiting es completed vm = record { vm = vm; rx = map command es; completed = completed }

-- A machine that reported that it is finished and gets nothing says nothing.
ticks-finished :
    (engine : Engine) (k : ℕ) (vm : ScriptVm)
    → ticks engine (quiet_ticks k) (waiting [] true vm) ≡ waiting [] true vm
unfolding ticks tick
ticks-finished engine zero vm = refl
ticks-finished engine (suc k) vm = ticks-finished engine k vm

pub ticks-reports :
    (engine : Engine) (n : ℕ) (es : List Event) (vm : ScriptVm)
    → length es < n
    → (ticks engine (quiet_ticks n) (waiting es false vm)).vm.events ≡ vm.events ++ reports es
unfolding ticks tick handle_cmd
ticks-reports engine zero es vm l = absurd (omega (arith, l))
ticks-reports engine (suc n) [] vm l =
    ap (λ l'. l'.vm.events)
      (ticks-finished engine n (record vm { events = vm.events ++ vm_finished ∷ [] }))
ticks-reports engine (suc n) (e ∷ es) vm l =
    let vm' = record vm { events = vm.events ++ acknowledgement e ∷ [] } in
    ap
      (λ cmds.
        (ticks engine (quiet_ticks n)
          (record { vm = vm'; rx = cmds; completed = false })).vm.events)
      (append-nil (map command es))
    ∙ ticks-reports engine n es vm' (omega (arith, l))
    ∙ append_assoc vm.events (acknowledgement e ∷ []) (reports es)

-- What the worker sends for them.
abbrev pub replies : List Event → List WorkerMessage
replies es = map (λ e. ack (number e)) es ++ none_pending ∷ []

abbrev pub inputs : ℕ → List VmEvent → List Input
inputs g evts = map (λ evt. vm_event (some (g, evt))) evts

module _ (ending : Ending) (g : ℕ) where
  -- A worker whose machine is that of the guild, and whose scheduler can be reached.
  abbrev Serving : VmWorker → Type 0
  Serving w =
      ((current : WorkerState) × (w.current_state ≡ some current) × (current.guild_id ≡ g))
      × (w.is_open ≡ true)
      × (w.runtime_evts ≡ [])

  round-ack :
      (id : ℕ) (w : VmWorker)
      → Serving w
      → round ending (vm_event (some (g, dispatched_event id))) w
        ≡ some (record w { sent = w.sent ++ ack id ∷ [] }, continue)
  unfolding round handle_vm_evt write_message
  round-ack id w ((current, e, q), o, r) = ground (arith, e, q, o)

  round-finished :
      (w : VmWorker)
      → Serving w
      → round ending (vm_event (some (g, vm_finished))) w
        ≡ some (record w { sent = w.sent ++ none_pending ∷ [] }, continue)
  unfolding round handle_vm_evt write_message drain_runtime
  round-finished w ((current, e, q), o, r) = ground (arith, e, q, o, r)

  run-next :
      (i : Input) (is : List Input) (w w' : VmWorker)
      → round ending i w ≡ some (w', continue)
      → run ending (i ∷ is) w ≡ run ending is w'
  unfolding run
  run-next i is w w' e = ground (arith, e)

  run-done : (w : VmWorker) → run ending [] w ≡ some w
  unfolding run
  run-done w = refl

  pub run-replies :
      (es : List Event) (w : VmWorker)
      → Serving w
      → run ending (inputs g (reports es)) w ≡ some (record w { sent = w.sent ++ replies es })
  run-replies [] w h =
      run-next (vm_event (some (g, vm_finished))) [] w
        (record w { sent = w.sent ++ none_pending ∷ [] }) (round-finished w h)
      ∙ run-done _
  run-replies (e ∷ es) w h =
      let w' = record w { sent = w.sent ++ ack (number e) ∷ [] } in
      run-next (vm_event (some (g, acknowledgement e))) (inputs g (reports es)) w w'
        (round-ack (number e) w h)
      ∙ run-replies es w' h
      ∙ ap (λ xs. some (record w { sent = xs }))
          (append_assoc w.sent (ack (number e) ∷ []) (replies es))
