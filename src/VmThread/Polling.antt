-- ===== src/VmThread/Polling.antt =====
-- components/vmthread/src/lib.rs: what a poll leaves of the machines, and how the thread ends.
use botloader.Prelude.{
  ℕ, zero, suc, ◌≡◌, refl, ap, ◌∙◌, Bool, true, false, not, ◌&&◌, none, some, Option, All, sym,
  subst, List, [], ◌∷◌, map, keep, if◌then◌else◌, is_empty, arith, Bool-cases, inl, inr,
}
use botloader.GuildScheduler.Drain.{drain-keep}
use botloader.VmThread.{
  ShutdownReason, start_vm, shutdown, VmInterface, VmThread, new, handle_cmds, handle_cmd, receive,
  shutdown_thread, is_finished, machine, poll_vms, poll, polls,
}
use botloader.VmThread.Machine.{
  shutdown_vm, Behaviour, Vm, vm_interface, stopped_meanwhile, poll_vm, emit_isolate_handle,
  create_vm,
}

module _ {D V : Type 0} (vm : VmInterface D V) where
  abbrev pub pending : V → Bool
  pending v = not (vm.poll_vm v).1

  -- The machines that have not finished, after their poll.
  abbrev pub left_over : List V → List V
  left_over [] = []
  left_over (v ∷ vs) = if pending v then (vm.poll_vm v).0 ∷ left_over vs else left_over vs

  kept :
      (vs : List V)
      → map machine (keep (λ p. not (is_finished p)) (map vm.poll_vm vs)) ≡ left_over vs
  unfolding keep
  kept [] = refl
  kept (v ∷ vs) = elim (Bool-cases (vm.poll_vm v).1) [
    | inl e ↦ rw e (kept vs)
    | inr e ↦ rw e (ap (◌∷◌ (vm.poll_vm v).0) (kept vs))
  ]

  poll_vms-left_over :
      (t : VmThread D V) → poll_vms vm t ≡ some (record t { vms = left_over t.vms })
  unfolding poll_vms
  poll_vms-left_over t =
      rw (poll_vms, drain-keep is_finished (map vm.poll_vm t.vms))
        (ap (λ vs. some (record t { vms = vs })) (kept t.vms))

  receive-open :
      (t : VmThread D V)
      → t.closed ≡ false
      → receive vm t
        ≡ some
            (if t.shutting_down then t else handle_cmds vm t.commands (record t { commands = [] }))
  unfolding receive
  receive-open t c = ground (arith, c)

  after_receive :
      (t t' : VmThread D V)
      → receive vm t ≡ some t'
      → poll vm t
        ≡ some
            (record t' { vms = left_over t'.vms }, is_empty (left_over t'.vms) && t'.shutting_down)
  unfolding poll
  after_receive t t' e = ground (arith, e, poll_vms-left_over t')

  -- A poll of a thread whose channel has a sender handles the commands, polls every machine once, and
  -- keeps exactly those that have not finished, in their order; it takes none out of range. The
  -- thread is done exactly if none is left and it was told to shut down.
  pub poll-left_over :
      (t : VmThread D V)
      → t.closed ≡ false
      → let t' : VmThread D V =
          if t.shutting_down then t else handle_cmds vm t.commands (record t { commands = [] }) in
        poll vm t
        ≡ some
            (record t' { vms = left_over t'.vms }, is_empty (left_over t'.vms) && t'.shutting_down)
  poll-left_over t c =
      after_receive t
        (if t.shutting_down then t else handle_cmds vm t.commands (record t { commands = [] }))
        (receive-open t c)

-- The thread to which a start and a shutdown were sent before its poll.
abbrev pub started_and_stopped : Behaviour → VmThread Behaviour Vm
started_and_stopped behaviour = record new { commands = start_vm behaviour ∷ shutdown ∷ [] }

-- Neither the heap's limit handler nor the runaway checker stops the machine.
abbrev pub Unstopped : List (Option ShutdownReason) → Type 0
Unstopped stops = All (λ stop. stop ≡ none) stops

-- A machine that goes on.
abbrev IsRunning : Vm → Type 0
IsRunning v = (v.handle.terminated ≡ false) × Unstopped v.stops

-- A thread that was told to shut down, with one machine that was not.
abbrev IsStuck : VmThread Behaviour Vm → Type 0
IsStuck t =
    (t.closed ≡ false) × (t.shutting_down ≡ true) × ((v : Vm) × (t.vms ≡ v ∷ []) × IsRunning v)

poll_vm-none :
    (v : Vm)
    → v.stops ≡ []
    → v.handle.terminated ≡ false
    → poll_vm v ≡ (emit_isolate_handle v, false)
unfolding poll_vm stopped_meanwhile
poll_vm-none v e h = simp (e, h) refl

poll_vm-skip :
    (v : Vm) (rest : List (Option ShutdownReason))
    → v.stops ≡ none ∷ rest
    → v.handle.terminated ≡ false
    → poll_vm v ≡ (record (emit_isolate_handle v) { stops = rest }, false)
unfolding poll_vm stopped_meanwhile
poll_vm-skip v rest e h = simp (e, h) refl

poll_vm-IsRunning : (v : Vm) → IsRunning v → (v' : Vm) × (poll_vm v ≡ (v', false)) × IsRunning v'
poll_vm-IsRunning v (h, u) = by_stops v.stops refl u
  where
    by_stops :
        (stops : List (Option ShutdownReason))
        → v.stops ≡ stops
        → Unstopped stops
        → (v' : Vm) × (poll_vm v ≡ (v', false)) × IsRunning v'
    by_stops [] e u = (emit_isolate_handle v, poll_vm-none v e h, (h, subst Unstopped (sym e) tt))
    by_stops (none ∷ rest) e u =
        (record (emit_isolate_handle v) { stops = rest }, poll_vm-skip v rest e h, (h, u.1))
    by_stops (some reason ∷ rest) e u = absurd (ground (arith, u.0))

left_over-running :
    (v v' : Vm) → poll_vm v ≡ (v', false) → left_over vm_interface (v ∷ []) ≡ v' ∷ []
unfolding vm_interface
left_over-running v v' e = rw e refl

poll-running :
    (t : VmThread Behaviour Vm) (v v' : Vm)
    → t.closed ≡ false
    → t.shutting_down ≡ true
    → t.vms ≡ v ∷ []
    → poll_vm v ≡ (v', false)
    → poll vm_interface t ≡ some (record t { vms = v' ∷ [] }, false)
poll-running t v v' c s e p =
    after_receive vm_interface t t (receive-open vm_interface t c ∙ rw s refl)
    ∙ rw (e, left_over-running v v' p) refl

poll-IsStuck :
    (t : VmThread Behaviour Vm)
    → IsStuck t
    → (t' : VmThread Behaviour Vm) × (poll vm_interface t ≡ some (t', false)) × IsStuck t'
poll-IsStuck t (c, s, (v, e, h)) =
    let (v', p, h') = poll_vm-IsRunning v h in
    (record t { vms = v' ∷ [] }, poll-running t v v' c s e p, (c, s, (v', refl, h')))

polls-next :
    (n : ℕ) (t t' : VmThread Behaviour Vm)
    → poll vm_interface t ≡ some (t', false)
    → polls vm_interface (suc n) t ≡ polls vm_interface n t'
unfolding polls
polls-next n t t' e = ground (arith, e)

polls-IsStuck :
    (n : ℕ) (t : VmThread Behaviour Vm)
    → IsStuck t
    → (t' : VmThread Behaviour Vm) × (polls vm_interface n t ≡ some (t', false))
unfolding polls
polls-IsStuck zero t h = (t, refl)
polls-IsStuck (suc n) t h =
    let (t', e, h') = poll-IsStuck t h in
    let (t'', f) = polls-IsStuck n t' h' in (t'', polls-next n t t' e ∙ f)

-- What the thread has after it read the two commands: the machine, which has no isolate to stop.
after_commands : Behaviour → VmThread Behaviour Vm
unfolding create_vm
after_commands behaviour = record new { shutting_down = true; vms = create_vm behaviour ∷ [] }

received_both :
    (behaviour : Behaviour)
    → receive vm_interface (started_and_stopped behaviour) ≡ some (after_commands behaviour)
unfolding receive vm_interface handle_cmds handle_cmd shutdown_thread create_vm shutdown_vm
    after_commands
received_both behaviour = refl

first_poll :
    (behaviour : Behaviour)
    → Unstopped behaviour.stops
    → (t' : VmThread Behaviour Vm) × (poll vm_interface (started_and_stopped behaviour)
        ≡ some (t', false))
      × IsStuck t'
unfolding after_commands create_vm
first_poll behaviour u =
    let (v', p, h') = poll_vm-IsRunning (create_vm behaviour) (refl, u) in
    (
      record (after_commands behaviour) { vms = v' ∷ [] },
      after_receive vm_interface (started_and_stopped behaviour) (after_commands behaviour)
            (received_both behaviour)
          ∙ rw (left_over-running (create_vm behaviour) v' p) refl,
      (refl, refl, (v', refl, h')),
    )

-- A thread that is told to start a machine and to shut down before its next poll loses the shutdown of the
-- machine: however often it is polled after that, it is not done, as long as the machine does not run out of
-- memory and the runaway checker does not stop it.
pub polls-started_and_stopped :
    (behaviour : Behaviour) (n : ℕ)
    → Unstopped behaviour.stops
    → (t : VmThread Behaviour Vm) × (polls vm_interface n (started_and_stopped behaviour)
        ≡ some (t, false))
unfolding polls
polls-started_and_stopped behaviour zero u = (started_and_stopped behaviour, refl)
polls-started_and_stopped behaviour (suc n) u =
    let (t, e, h) = first_poll behaviour u in
    let (t', f) = polls-IsStuck n t h in (t', polls-next n (started_and_stopped behaviour) t e ∙ f)
