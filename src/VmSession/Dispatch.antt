-- ===== src/VmSession/Dispatch.antt =====
-- cmd/scheduler/src/vm_session.rs: the dispatch of an event to a worker, `dispatch_worker_evt`, which
-- tries again with another worker when the one that it has cannot be reached.
use botloader.Prelude.{
  ℕ, zero, suc, ◌≤◌, ◌≡◌, refl, sym, ap, subst, ◌∙◌, true, false, ◌⊎◌, Option, none, some, List, [],
  ◌∷◌, ◌++◌, String, All, length, Bool-cases, inl, inr, arith, if◌then◌else◌, is_empty, lookup,
  insert, lookup-insert, ==_refl,
}
use botloader.WorkerPool.{WorkerRetrieved, other_guild}
use botloader.VmSession.{
  EventData, SchedulerMessage, WorkerMessage, dispatch_event, Worker, PendingAck, VmSession, Env,
  Offers, returned, emit, gen_id, deliver, hold, forget, create_message, should_send_scripts,
  drain_inbox, broken_worker, claim_worker, ensure_claim_worker, reset_contribs,
}
use botloader.VmSession.Actions.{dispatch_round, dispatch_rounds, dispatch_worker_evt}
use botloader.VmSession.Claims.{AnyOpen, still_open}

abbrev pub IsQuiet : Worker × WorkerRetrieved → Type 0
IsQuiet (worker, wr) = worker.inbox ≡ []

-- A session that holds a worker, with the offers that are left.
abbrev Holds : Offers → VmSession → Worker → Offers → Type 0
Holds offers s worker rest =
    (s.current_worker ≡ some worker)
    × (worker.inbox ≡ [])
    × ((worker.is_open ≡ true) ⊎ AnyOpen rest)
    × All IsQuiet rest
    × (suc (length rest) ≤ length offers)

abbrev Claimed : Offers → Option (VmSession × Offers) → Type 0
Claimed offers result =
    (s' : VmSession) × (rest : Offers) × (worker : Worker) × (result ≡ some (s', rest))
    × Holds offers s' worker rest

longer :
    (o : Worker × WorkerRetrieved) (offers : Offers) (result : Option (VmSession × Offers))
    → Claimed offers result
    → Claimed (o ∷ offers) result
longer o offers result (s', rest, worker, e, (h, q, r, a, l)) =
    (s', rest, worker, e, (h, q, r, a, omega (arith, l)))

claim_worker-retry :
    (worker : Worker) (wr : WorkerRetrieved) (offers : Offers) (s : VmSession)
    → should_send_scripts wr s ≡ true
    → worker.is_open ≡ false
    → claim_worker ((worker, wr) ∷ offers) s
      ≡ claim_worker offers (emit (returned worker true) (forget s))
unfolding claim_worker
claim_worker-retry worker wr offers s e f = simp (e, f) refl

claim_worker-Claimed :
    (offers : Offers) (s : VmSession)
    → All IsQuiet offers
    → AnyOpen offers
    → Claimed offers (claim_worker offers s)
unfolding claim_worker
claim_worker-Claimed [] s q h = absurd h
claim_worker-Claimed ((worker, wr) ∷ offers) s q h = elim (Bool-cases (should_send_scripts wr s)) [
  | inr e ↦ (hold worker s, offers, worker, simp e refl, (refl, q.0, h, q.1, omega arith))
  | inl e ↦ elim (Bool-cases worker.is_open) [
    | inl f ↦ (
      hold (deliver (create_message (forget s)) worker) (forget s),
      offers,
      deliver (create_message (forget s)) worker,
      simp (e, f) refl,
      (refl, q.0, inl f, q.1, omega arith),
    )
    | inr f ↦
        subst (Claimed ((worker, wr) ∷ offers)) (sym (claim_worker-retry worker wr offers s e f)) (
          longer (worker, wr) offers _
            (claim_worker-Claimed offers (emit (returned worker true) (forget s)) q.1
              (still_open worker wr offers f h)))
  ]
]

ensure_claim_worker-none :
    (offers : Offers) (s : VmSession)
    → s.current_worker ≡ none
    → ensure_claim_worker offers s ≡ claim_worker offers s
unfolding ensure_claim_worker
ensure_claim_worker-none offers s e = ground (arith, e)

ensure_claim_worker-some :
    (offers : Offers) (s : VmSession) (worker : Worker)
    → s.current_worker ≡ some worker
    → ensure_claim_worker offers s ≡ some (s, offers)
unfolding ensure_claim_worker
ensure_claim_worker-some offers s worker e = ground (arith, e)

quiet :
    (env : Env) (inbox : List WorkerMessage) (s : VmSession)
    → inbox ≡ []
    → drain_inbox env inbox s ≡ some s
unfolding drain_inbox
quiet env [] s q = refl
quiet env (msg ∷ msgs) s q = ground (arith, q)

broken_worker-drained :
    (env : Env) (s : VmSession) (worker : Worker) (s' : VmSession)
    → s.current_worker ≡ some worker
    → drain_inbox env worker.inbox (record s { current_worker = none }) ≡ some s'
    → broken_worker env s
      ≡ some (record (reset_contribs (emit (returned (record worker { inbox = [] }) true) s')) {
        pending_acks = [];
      })
unfolding broken_worker
broken_worker-drained env s worker s' e q = ground (arith, e, q)

broken_worker-quiet :
    (env : Env) (s : VmSession) (worker : Worker)
    → s.current_worker ≡ some worker
    → worker.inbox ≡ []
    → (s' : VmSession) × (broken_worker env s ≡ some s') × (s'.current_worker ≡ none)
unfolding reset_contribs
broken_worker-quiet env s worker e q = (
  record (reset_contribs
      (emit (returned (record worker { inbox = [] }) true) (record s { current_worker = none }))) {
        pending_acks = [];
      },
  broken_worker-drained env s worker (record s { current_worker = none }) e
      (quiet env worker.inbox _ q),
  refl,
)

-- The event is the last message of the worker that the session holds, and its acknowledgement is
-- awaited under its number.
abbrev pub Dispatched : String → EventData → PendingAck → Option (VmSession × Offers) → Type 0
Dispatched t value ack none = ⊥
Dispatched t value ack (some (s', rest)) =
    ((worker : Worker) × (before : List SchedulerMessage) × (s'.current_worker ≡ some worker)
      × (worker.sent ≡ before ++ dispatch_event t s'.id_gen value ∷ []))
    × (lookup s'.id_gen s'.pending_acks ≡ some ack)

module _ (env : Env) (t : String) (value : EventData) (ack : PendingAck) where
  sent :
      (n : ℕ) (offers rest : Offers) (s s' : VmSession) (worker : Worker)
      → ensure_claim_worker offers s ≡ some (s', rest)
      → s'.current_worker ≡ some worker
      → worker.is_open ≡ true
      → dispatch_rounds (suc n) env offers t value ack s
        ≡ some (
          record (gen_id s') {
            current_worker = some (deliver (dispatch_event t (gen_id s').id_gen value) worker);
            pending_acks = insert (gen_id s').id_gen ack s'.pending_acks;
          },
          rest,
        )
  unfolding dispatch_rounds dispatch_round
  sent n offers rest s s' worker e w o = ground (arith, e, w, o)

  tried :
      (n : ℕ) (offers rest : Offers) (s s' s'' : VmSession) (worker : Worker)
      → ensure_claim_worker offers s ≡ some (s', rest)
      → s'.current_worker ≡ some worker
      → worker.is_open ≡ false
      → broken_worker env (gen_id s') ≡ some s''
      → dispatch_rounds (suc n) env offers t value ack s
        ≡ dispatch_rounds n env rest t value ack s''
  unfolding dispatch_rounds dispatch_round
  tried n offers rest s s' s'' worker e w o b = ground (arith, e, w, o, b)

  filed :
      (s : VmSession) (worker : Worker) (rest : Offers)
      → Dispatched t value ack (
          some (
            record (gen_id s) {
              current_worker = some (deliver (dispatch_event t (gen_id s).id_gen value) worker);
              pending_acks = insert (gen_id s).id_gen ack s.pending_acks;
            },
            rest,
          ))
  filed s worker rest = (
    (_, worker.sent, refl, refl),
    lookup-insert (gen_id s).id_gen (gen_id s).id_gen ack s.pending_acks
        ∙ ap (λ b. if b then some ack else lookup (gen_id s).id_gen s.pending_acks)
            (==_refl (gen_id s).id_gen),
  )

  -- A round in which the session holds a worker, where the rounds after it are known to end well.
  round-Dispatched :
      (n : ℕ) (offers rest : Offers) (s s' : VmSession) (worker : Worker)
      → ensure_claim_worker offers s ≡ some (s', rest)
      → s'.current_worker ≡ some worker
      → worker.inbox ≡ []
      → (worker.is_open ≡ true) ⊎ AnyOpen rest
      → ((s'' : VmSession)
          → s''.current_worker ≡ none
          → AnyOpen rest
          → Dispatched t value ack (dispatch_rounds n env rest t value ack s''))
      → Dispatched t value ack (dispatch_rounds (suc n) env offers t value ack s)
  round-Dispatched n offers rest s s' worker e w q r later = elim (Bool-cases worker.is_open) [
    | inl o ↦
        subst (Dispatched t value ack) (sym (sent n offers rest s s' worker e w o))
          (filed s' worker rest)
    | inr o ↦
        let (s'', b, free) = broken_worker-quiet env (gen_id s') worker w q in
        subst (Dispatched t value ack) (sym (tried n offers rest s s' s'' worker e w o b))
          (later s'' free (still_open worker other_guild rest o r))
  ]

  rounds-Dispatched :
      (n : ℕ) (offers : Offers) (s : VmSession)
      → All IsQuiet offers
      → AnyOpen offers
      → s.current_worker ≡ none
      → suc (length offers) ≤ n
      → Dispatched t value ack (dispatch_rounds n env offers t value ack s)
  rounds-Dispatched zero offers s q h w l = absurd (omega (arith, l))
  rounds-Dispatched (suc n) offers s q h w l =
      let (s', rest, worker, e, (c, i, r, a, shorter)) = claim_worker-Claimed offers s q h in
      round-Dispatched n offers rest s s' worker (ensure_claim_worker-none offers s w ∙ e) c i r
        (λ s'' free any. rounds-Dispatched n rest s'' a any free (omega (arith, shorter, l)))

-- The worker that the session holds, if it holds one, has no unread message, and it or an offer can
-- be reached.
abbrev pub CanReach : Option Worker → Offers → Type 0
CanReach none offers = AnyOpen offers
CanReach (some worker) offers = (worker.inbox ≡ []) × ((worker.is_open ≡ true) ⊎ AnyOpen offers)

-- The dispatch of an event ends for a session with scripts if the worker that it holds or one that the
-- pool offers can be reached, and no unread message of a worker is left: the event is the last message
-- of the worker that the session then holds, and its acknowledgement is awaited under its number.
pub dispatch_worker_evt-Dispatched :
    (env : Env) (offers : Offers) (t : String) (value : EventData) (ack : PendingAck)
    (s : VmSession) (held : Option Worker)
    → is_empty s.scripts ≡ false
    → s.current_worker ≡ held
    → All IsQuiet offers
    → CanReach held offers
    → Dispatched t value ack (dispatch_worker_evt env offers t value ack s)
unfolding dispatch_worker_evt
dispatch_worker_evt-Dispatched env offers t value ack s none n w q h =
    rw n
      (rounds-Dispatched env t value ack (suc (suc (length offers))) offers s q h w (omega arith))
dispatch_worker_evt-Dispatched env offers t value ack s (some worker) n w q (i, r) = rw n (
    round-Dispatched env t value ack (suc (length offers)) offers offers s s worker
      (ensure_claim_worker-some offers s worker w) w i r
      (λ s'' free any.
        rounds-Dispatched env t value ack (suc (length offers)) offers s'' q any free
          (omega arith)))
