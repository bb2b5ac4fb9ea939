-- ===== src/VmThread/Machine.antt =====
-- components/vm/src/vm.rs: how a virtual machine ends, as the implementation of `VmInterface`. The
-- handle for the shutdown has no isolate before the first poll of the machine, which makes it. The
-- scripts themselves are an argument, a `Behaviour`: `busy` says whether the machine's event loop is still
-- finishing when it is told to stop, at each poll, and past the end of the list it is not; `stops` says at
-- each poll whether the heap's limit handler or the runaway checker of components/vmthread/src/lib.rs
-- stops the machine meanwhile, and past the end of the list they do not.
use botloader.Prelude.{ℕ, Bool, true, false, Option, none, some, List, [], ◌∷◌, ◌++◌, if◌then◌else◌}
use botloader.VmThread.{ShutdownReason, unknown, thread_termination, VmInterface}

-- `VmShutdownHandle` with its inner part; the isolate's own handle is not modelled.
pub record ShutdownHandle : Type 0 where
  pub terminated : Bool
  pub has_isolate : Bool
  pub shutdown_reason : Option ShutdownReason

unfoldable pub shutdown_vm : ShutdownReason → Bool → ShutdownHandle → ShutdownHandle
shutdown_vm reason force h =
    if h.has_isolate
    then record h { shutdown_reason = some reason; terminated = true }
    else record h { shutdown_reason = none }

pub data VmEvent : Type 0 where
  shutdown_event : ShutdownReason → VmEvent
  dispatched_event : ℕ → VmEvent
  vm_finished : VmEvent

pub record Behaviour : Type 0 where
  pub busy : List Bool
  pub stops : List (Option ShutdownReason)

pub record Vm : Type 0 where
  pub handle : ShutdownHandle
  pub busy : List Bool
  pub stops : List (Option ShutdownReason)
  pub events : List VmEvent

abbrev pub tell : VmEvent → Vm → Vm
tell event v = record v { events = v.events ++ event ∷ [] }

unfoldable pub create_vm : Behaviour → Vm
create_vm behaviour = record {
  handle = record { terminated = false; has_isolate = false; shutdown_reason = none };
  busy = behaviour.busy;
  stops = behaviour.stops;
  events = [];
}

abbrev pub final_reason : Option ShutdownReason → ShutdownReason
final_reason none = unknown
final_reason (some reason) = reason

-- `stop_vm` waits only where the thread ends.
abbrev pub stops_cleanly : Option ShutdownReason → Bool
stops_cleanly (some thread_termination) = true
stops_cleanly _ = false

abbrev pub ends : Vm → Vm × Bool
ends v = (tell (shutdown_event (final_reason v.handle.shutdown_reason)) v, true)

-- What follows the loop of `run` once the machine is terminated.
unfoldable pub finish : Vm → Vm × Bool
finish v = elim v.busy [
  | true ∷ rest ↦
      if stops_cleanly v.handle.shutdown_reason then (record v { busy = rest }, false) else ends v
  | _ ↦ ends v
]

abbrev pub emit_isolate_handle : Vm → Vm
emit_isolate_handle v = record v { handle = record v.handle { has_isolate = true } }

-- What the heap's limit handler or the runaway checker does while the machine is polled.
unfoldable pub stopped_meanwhile : Vm → Vm
unfolding shutdown_vm
stopped_meanwhile v = elim v.stops [
  | [] ↦ v
  | none ∷ rest ↦ record v { stops = rest }
  | some reason ∷ rest ↦ record v { stops = rest; handle = shutdown_vm reason true v.handle }
]

-- A poll of `create_run`.
unfoldable pub poll_vm : Vm → Vm × Bool
unfolding finish stopped_meanwhile
poll_vm v =
    let v' = stopped_meanwhile (emit_isolate_handle v) in
    if v'.handle.terminated then finish v' else (v', false)

unfoldable pub vm_interface : VmInterface Behaviour Vm
unfolding create_vm shutdown_vm poll_vm
vm_interface = record {
  create_vm = create_vm;
  shutdown_vm = λ reason force v. record v { handle = shutdown_vm reason force v.handle };
  poll_vm = poll_vm;
}
