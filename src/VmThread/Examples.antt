-- ===== src/VmThread/Examples.antt =====
-- A thread that is told to start a machine and to shut down.
use botloader.Prelude.{◌≡◌, refl, true, false, none, some, [], ◌∷◌}
use botloader.VmThread.{VmThread, polls}
use botloader.VmThread.Machine.{Behaviour, Vm, vm_interface}
use botloader.VmThread.Polling.{started_and_stopped, polls-started_and_stopped}

abbrev behaviour : Behaviour
behaviour = record { busy = true ∷ []; stops = none ∷ none ∷ [] }

polls-started_and_stopped_example :
    (t : VmThread Behaviour Vm) × (polls vm_interface 3 (started_and_stopped behaviour)
      ≡ some (t, false))
polls-started_and_stopped_example = polls-started_and_stopped behaviour 3 (refl, (refl, tt))
