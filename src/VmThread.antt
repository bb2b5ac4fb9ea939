-- ===== src/VmThread.antt =====
-- components/vmthread/src/lib.rs: the thread that drives virtual machines, and its `poll`. What a
-- machine is, how it is made from its description, told to shut down, and polled, is the trait
-- `VmInterface`, here three functions; Machine has the trait's implementation. `commands` is what came
-- over the channel since the last poll, and `closed` says that no sender is left. The slot for the
-- machine that runs is empty between two polls and is left out, and so is the isolate cell. `none` is
-- a poll that does not return.
pub mod Machine
pub mod Polling
mod Examples
use botloader.Prelude.{
  ℕ, zero, suc, ◌+◌, Bool, true, false, ◌&&◌, Option, none, some, List, [], ◌∷◌, ◌++◌, map,
  if◌then◌else◌, is_empty,
}
use botloader.GuildScheduler.Drain.{drain}

pub data ShutdownReason : Type 0 where
  unknown runaway thread_termination out_of_memory : ShutdownReason

pub data VmThreadCommand (D : Type 0) : Type 0 where
  start_vm : D → VmThreadCommand D
  ping shutdown : VmThreadCommand D

pub record VmInterface (D V : Type 0) : Type 0 where
  pub create_vm : D → V
  pub shutdown_vm : ShutdownReason → Bool → V → V
  pub poll_vm : V → V × Bool

-- `pongs` counts the answers to pings.
pub record VmThread (D V : Type 0) : Type 0 where
  pub commands : List (VmThreadCommand D)
  pub closed : Bool
  pub vms : List V
  pub shutting_down : Bool
  pub pongs : ℕ

abbrev pub is_finished : {V : Type 0} → V × Bool → Bool
is_finished (v, finished) = finished

abbrev pub machine : {V : Type 0} → V × Bool → V
machine (v, finished) = v

module _ {D V : Type 0} where
  abbrev pub new : VmThread D V
  new = record { commands = []; closed = false; vms = []; shutting_down = false; pongs = 0 }

  unfoldable pub shutdown_thread : VmInterface D V → VmThread D V → VmThread D V
  shutdown_thread vm t = record t {
    shutting_down = true;
    vms = map (vm.shutdown_vm thread_termination false) t.vms;
  }

  unfoldable pub handle_cmd : VmInterface D V → VmThreadCommand D → VmThread D V → VmThread D V
  unfolding shutdown_thread
  handle_cmd vm shutdown t = shutdown_thread vm t
  handle_cmd vm ping t = record t { pongs = t.pongs + 1 }
  handle_cmd vm (start_vm desc) t = record t { vms = t.vms ++ vm.create_vm desc ∷ [] }

  unfoldable pub handle_cmds :
      VmInterface D V → List (VmThreadCommand D) → VmThread D V → VmThread D V
  unfolding handle_cmd
  handle_cmds vm [] t = t
  handle_cmds vm (cmd ∷ cmds) t = handle_cmds vm cmds (handle_cmd vm cmd t)

  -- The loop over the channel. Once it is closed and empty, the loop reads its end for ever.
  unfoldable pub receive : VmInterface D V → VmThread D V → Option (VmThread D V)
  unfolding handle_cmds
  receive vm t =
      if t.shutting_down
      then some t
      else if t.closed
      then none
      else some (handle_cmds vm t.commands (record t { commands = [] }))

  -- Polls every machine, then takes those that have finished out, the last one first.
  unfoldable pub poll_vms : VmInterface D V → VmThread D V → Option (VmThread D V)
  poll_vms vm t = elim (drain is_finished (map vm.poll_vm t.vms)) [
    | none ↦ none
    | some (finished, left) ↦ some (record t { vms = map machine left })
  ]

  -- `poll`: the thread, and whether it is done.
  unfoldable pub poll : VmInterface D V → VmThread D V → Option (VmThread D V × Bool)
  unfolding receive poll_vms
  poll vm t = elim (receive vm t) [
    | none ↦ none
    | some t' ↦ elim (poll_vms vm t') [
      | none ↦ none
      | some t'' ↦ some (t'', is_empty t''.vms && t''.shutting_down)
    ]
  ]

  -- Some polls of a thread to which nothing more is sent: whether it is done after them.
  unfoldable pub polls : VmInterface D V → ℕ → VmThread D V → Option (VmThread D V × Bool)
  unfolding poll
  polls vm zero t = some (t, false)
  polls vm (suc n) t = elim (poll vm t) [
    | none ↦ none
    | some (t', true) ↦ some (t', true)
    | some (t', false) ↦ polls vm n t'
  ]
