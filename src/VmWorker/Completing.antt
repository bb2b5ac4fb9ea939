-- ===== src/VmWorker/Completing.antt =====
-- `handle_vm_evt` of cmd/vmworker/src/main.rs: what the worker sends when its machine ends.
use mathlib.Core.List.{append-nil, append_assoc}
use botloader.Prelude.{
  ◌≡◌, sym, ap, ◌∙◌, true, none, some, List, [], ◌∷◌, ◌++◌, map, ==_refl, arith,
}
use botloader.VmThread as VmThread
use botloader.VmThread.Machine.{shutdown_event}
use botloader.VmSession.{WorkerMessage, shutdown_message, none_pending}
use botloader.VmWorker.{
  RuntimeEvent, WorkerState, VmWorker, continue, write_message, runtime_message, handle_runtime_evt,
  drain_runtime, wait_shutdown_current_vm, reported, handle_shutdown, handle_vm_evt,
}

-- What the worker sends when its machine ends.
abbrev pub last_messages : List RuntimeEvent → VmThread.ShutdownReason → List WorkerMessage
last_messages evts reason =
    map runtime_message evts ++ shutdown_message (reported reason) ∷ none_pending ∷ []

drain-next :
    (evt : RuntimeEvent) (evts : List RuntimeEvent) (w : VmWorker)
    → w.is_open ≡ true
    → drain_runtime (evt ∷ evts) w
      ≡ drain_runtime evts
          (record w { runtime_evts = evts; sent = w.sent ++ runtime_message evt ∷ [] })
unfolding drain_runtime handle_runtime_evt write_message
drain-next evt evts w o = ground (arith, o)

drain-sent :
    (evts : List RuntimeEvent) (w : VmWorker)
    → w.is_open ≡ true
    → drain_runtime evts w
      ≡ (record w { runtime_evts = []; sent = w.sent ++ map runtime_message evts }, true)
unfolding drain_runtime
drain-sent [] w o =
    ap (λ xs. (record w { runtime_evts = []; sent = xs }, true)) (sym (append-nil w.sent))
drain-sent (evt ∷ evts) w o =
    drain-next evt evts w o
    ∙ drain-sent evts (record w { runtime_evts = evts; sent = w.sent ++ runtime_message evt ∷ [] })
        o
    ∙ ap (λ xs. (record w { runtime_evts = []; sent = xs }, true))
        (append_assoc w.sent (runtime_message evt ∷ []) (map runtime_message evts))

shutdown-next :
    (evts : List RuntimeEvent) (reason : VmThread.ShutdownReason) (w : VmWorker)
    (current : WorkerState)
    → w.current_state ≡ some current
    → handle_vm_evt (some evts) current.guild_id (shutdown_event reason) w
      ≡ handle_shutdown (some evts) reason w
unfolding handle_vm_evt
shutdown-next evts reason w current e = ground (arith, e, ==_refl current.guild_id)

shutdown-drained :
    (evts : List RuntimeEvent) (reason : VmThread.ShutdownReason) (w w' : VmWorker)
    (current : WorkerState)
    → w.current_state ≡ some current
    → w'.is_open ≡ true
    → drain_runtime
        (w.runtime_evts ++ evts)
        (record w { current_state = none; runtime_evts = w.runtime_evts ++ evts })
      ≡ (w', true)
    → handle_shutdown (some evts) reason w
      ≡ some (
        record w' {
          sent = (w'.sent ++ shutdown_message (reported reason) ∷ []) ++ none_pending ∷ [];
        },
        continue,
      )
unfolding handle_shutdown wait_shutdown_current_vm write_message
shutdown-drained evts reason w w' current e o d = ground (arith, e, o, d)

-- When its machine ends, whatever the reason, the worker passes on all that the runtime sent, then the
-- reason, then that nothing is pending, and has no machine any more. The machine's thread has to end,
-- and the scheduler to be reachable.
pub handle_vm_evt-last_messages :
    (evts : List RuntimeEvent) (reason : VmThread.ShutdownReason) (w : VmWorker)
    (current : WorkerState)
    → w.is_open ≡ true
    → w.current_state ≡ some current
    → handle_vm_evt (some evts) current.guild_id (shutdown_event reason) w
      ≡ some (
        record w {
          current_state = none;
          runtime_evts = [];
          sent = w.sent ++ last_messages (w.runtime_evts ++ evts) reason;
        },
        continue,
      )
handle_vm_evt-last_messages evts reason w current o e =
    shutdown-next evts reason w current e
    ∙ shutdown-drained evts reason w
        (record w {
          current_state = none;
          runtime_evts = [];
          sent = w.sent ++ map runtime_message (w.runtime_evts ++ evts);
        })
        current e o
        (drain-sent (w.runtime_evts ++ evts)
          (record w { current_state = none; runtime_evts = w.runtime_evts ++ evts }) o)
    ∙ ap (λ xs. some (record w { current_state = none; runtime_evts = []; sent = xs }, continue))
        (append_assoc (w.sent ++ map runtime_message (w.runtime_evts ++ evts))
            (shutdown_message (reported reason) ∷ []) (none_pending ∷ [])
          ∙ append_assoc w.sent (map runtime_message (w.runtime_evts ++ evts))
              (shutdown_message (reported reason) ∷ none_pending ∷ []))
