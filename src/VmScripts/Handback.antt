-- ===== src/VmScripts/Handback.antt =====
-- components/vm/src/vm.rs, cmd/vmworker/src/main.rs and cmd/scheduler/src/vm_session.rs: a session gets
-- its worker back once the events that it sent to the machine were dispatched.

use botloader.Prelude.{
  ℕ, ◌≡◌, refl, sym, ap, ◌∙◌, subst, true, false, inl, inr, some, none, List, [], ◌∷◌, ◌++◌, length,
  ◌<◌, Option, Map, lookup, erase, All, Any, Bool-cases, Option-cases, ◌==◌, arith,
}
use botloader.VmSession.{
  PendingAck, dispatch, WorkerMessage, ack, none_pending, Worker, Env, VmSession, Effect, returned,
  emit, handle_ack, handle_worker_msg, give_back, drain_inbox,
}
use botloader.VmWorker.{WorkerState, VmWorker, Ending, run}
use botloader.VmScripts.{Engine, ScriptVm, ticks}
use botloader.VmScripts.Idle.{
  Event, number, quiet_ticks, waiting, reports, ticks-reports, replies, inputs, run-replies,
}

-- The acknowledgement of an event that came from Discord is awaited, and its number is one of these.
abbrev pub AwaitedAmong : List Event → Map PendingAck → Type 0
AwaitedAmong es m =
    All
      (λ entry. ((resp : Option ℕ) × (entry.1 ≡ dispatch resp)) × Any (λ e. number e ≡ entry.0) es)
      m

erase-Awaited :
    (e : Event) (es : List Event) (m : Map PendingAck)
    → AwaitedAmong (e ∷ es) m
    → AwaitedAmong es (erase (number e) m)
unfolding erase
erase-Awaited e es [] h = tt
erase-Awaited e es ((j, item) ∷ m) (h, hs) = elim (Bool-cases (j == number e)) [
  | inl t ↦ rw t (erase-Awaited e es m hs)
  | inr t ↦ rw t (
    (h.0, elim h.1 [ inl q ↦ absurd (ground (arith, q, t)) | inr q ↦ q ]),
    erase-Awaited e es m hs,
  )
]

found-dispatch :
    (es : List Event) (id : ℕ) (item : PendingAck) (m : Map PendingAck)
    → AwaitedAmong es m
    → lookup id m ≡ some item
    → (resp : Option ℕ) × (item ≡ dispatch resp)
unfolding lookup
found-dispatch es id item [] h e = absurd (ground (arith, e))
found-dispatch es id item ((j, item') ∷ m) h e = elim (Bool-cases (j == id)) [
  | inl t ↦ (h.0.0.0, ground (arith, e, t, h.0.0.1))
  | inr t ↦ found-dispatch es id item m h.1 (ground (arith, e, t))
]

erase-absent : (id : ℕ) (m : Map PendingAck) → lookup id m ≡ none → erase id m ≡ m
unfolding lookup erase
erase-absent id [] e = refl
erase-absent id ((j, item) ∷ m) e = elim (Bool-cases (j == id)) [
  | inl t ↦ absurd (ground (arith, e, t))
  | inr t ↦ ground (arith, t, erase-absent id m (ground (arith, e, t)))
]

module _ (env : Env) where
  -- The session after an acknowledgement of an event that came from Discord.
  abbrev Forgets : ℕ → VmSession → Option VmSession → Type 0
  Forgets id s result =
      (s' : VmSession) × (result ≡ some s')
      × (s'.pending_acks ≡ erase id s.pending_acks)
      × (s'.current_worker ≡ s.current_worker)

  unknown_ack :
      (id : ℕ) (s : VmSession)
      → lookup id s.pending_acks ≡ none
      → handle_worker_msg env (ack id) s ≡ some s
  unfolding handle_worker_msg
  unknown_ack id s e = ground (arith, e)

  known_ack :
      (id : ℕ) (s : VmSession) (resp : Option ℕ)
      → lookup id s.pending_acks ≡ some (dispatch resp)
      → handle_worker_msg env (ack id) s
        ≡ handle_ack env (dispatch resp) (record s { pending_acks = erase id s.pending_acks })
  unfolding handle_worker_msg
  known_ack id s resp e = ground (arith, e)

  answered :
      (id : ℕ) (resp : Option ℕ) (s : VmSession)
      → Forgets id s
          (handle_ack env (dispatch resp) (record s { pending_acks = erase id s.pending_acks }))
  unfolding handle_ack
  answered id none s = (_, refl, refl, refl)
  answered id (some resp) s = (_, refl, refl, refl)

  handle_worker_msg-Forgets :
      (e : Event) (es : List Event) (s : VmSession)
      → AwaitedAmong (e ∷ es) s.pending_acks
      → Forgets (number e) s (handle_worker_msg env (ack (number e)) s)
  handle_worker_msg-Forgets e es s h = elim (Option-cases (lookup (number e) s.pending_acks)) [
    | inl n ↦ (s, unknown_ack (number e) s n, sym (erase-absent (number e) s.pending_acks n), refl)
    | inr (item, f) ↦
        let (resp, q) = found-dispatch (e ∷ es) (number e) item s.pending_acks h f in
        subst (Forgets (number e) s) (sym (known_ack (number e) s resp (f ∙ ap (λ i. some i) q)))
          (answered (number e) resp s)
  ]

  -- The session gave its worker back in order, and waits for nothing.
  abbrev pub Returns : Worker → Option VmSession → Type 0
  Returns worker result =
      (s' : VmSession) × (before : List Effect) × (result ≡ some s')
      × (s'.current_worker ≡ none)
      × (s'.pending_acks ≡ [])
      × (s'.effects ≡ before ++ returned worker false ∷ [])

  finished :
      (worker : Worker) (s : VmSession)
      → s.current_worker ≡ some worker
      → s.pending_acks ≡ []
      → handle_worker_msg env none_pending s
        ≡ some (emit (returned worker false) (record s { current_worker = none }))
  unfolding handle_worker_msg give_back
  finished worker s w e = ground (arith, w, e)

  none_awaited : (m : Map PendingAck) → AwaitedAmong [] m → m ≡ []
  none_awaited [] h = refl
  none_awaited (entry ∷ m) h = absurd h.0.1

  drain-next :
      (msg : WorkerMessage) (msgs : List WorkerMessage) (s s' : VmSession)
      → handle_worker_msg env msg s ≡ some s'
      → drain_inbox env (msg ∷ msgs) s ≡ drain_inbox env msgs s'
  unfolding drain_inbox
  drain-next msg msgs s s' e = simp e refl

  drain-none : (s : VmSession) → drain_inbox env [] s ≡ some s
  unfolding drain_inbox
  drain-none s = refl

  drain-Returns :
      (es : List Event) (worker : Worker) (s : VmSession)
      → s.current_worker ≡ some worker
      → AwaitedAmong es s.pending_acks
      → Returns worker (drain_inbox env (replies es) s)
  drain-Returns [] worker s w h =
      let e = none_awaited s.pending_acks h in
      (
        _,
        s.effects,
        drain-next none_pending [] s _ (finished worker s w e) ∙ drain-none _,
        refl,
        e,
        refl,
      )
  drain-Returns (e ∷ es) worker s w h =
      let (s', q, p, k) = handle_worker_msg-Forgets e es s h in
      subst (Returns worker) (sym (drain-next (ack (number e)) (replies es) s s' q)) (
        drain-Returns es worker s' (k ∙ w)
          (subst (AwaitedAmong es) (sym p) (erase-Awaited e es s.pending_acks h)))

-- A machine that has some events in its queue, and whose engine is done whenever it is polled and is not
-- woken up, acknowledges all of them within one more poll than there are events. If its worker runs that
-- guild, was read up to there and can reach the scheduler, and the session awaits nothing but acknowledgements of some of these events,
-- then the session has its worker back in the pool, in order, after it read what the worker sent.
pub idle-Returns :
    (engine : Engine) (ending : Ending) (env : Env) (n g : ℕ) (es : List Event) (vm : ScriptVm)
    (w : VmWorker) (current : WorkerState) (worker : Worker) (s : VmSession)
    → length es < n
    → vm.events ≡ []
    → w.current_state ≡ some current
    → current.guild_id ≡ g
    → w.is_open ≡ true
    → w.runtime_evts ≡ []
    → w.sent ≡ []
    → s.current_worker ≡ some worker
    → AwaitedAmong es s.pending_acks
    → (w' : VmWorker) × (run ending
          (inputs g (ticks engine (quiet_ticks n) (waiting es false vm)).vm.events)
          w
        ≡ some w')
      × Returns env worker (drain_inbox env w'.sent s)
idle-Returns engine ending env n g es vm w current worker s l v c q o r e h a = (
  record w { sent = replies es },
  ap (λ evts. run ending (inputs g evts) w)
        (ticks-reports engine n es vm l ∙ ap (λ evts. evts ++ reports es) v)
      ∙ run-replies ending g es w ((current, c, q), o, r)
      ∙ ap (λ xs. some (record w { sent = xs ++ replies es })) e,
  drain-Returns env es worker s h a,
)
