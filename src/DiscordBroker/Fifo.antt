-- ===== src/DiscordBroker/Fifo.antt =====
-- cmd/discordbroker/src/broker.rs against a queue: what becomes of the events to pass on, over any
-- sequence of gateway events and connecting schedulers.
use mathlib.Core.List.{append-nil, append_assoc}
use botloader.Prelude.{
  ℕ, ◌-◌, ◌≡◌, refl, sym, ap, subst, ◌∙◌, Bool, true, false, Option, none, some, List, [], ◌∷◌,
  ◌++◌, ltb, if◌then◌else◌, arith, Option-cases, inl, inr,
}
use botloader.DiscordBroker.{
  EventKind, ready, guild_delete, guild_create, GatewayEvent, QueuedEvent, hello, discord_event,
  Answer, acked, unacked, unsent, Broker, new, queue_lifetime, send_event, enqueue, queue_event,
  disconnect, dispatch_or_queue_event, greet, handle_new_scheduler_connected, scheduler_connected,
  guild_of, note_event, handle_event, Input, gateway, connection, step, run,
}
use botloader.DiscordBroker.Queue.{
  acked_events, acked_events-append, log, WaitsDown, send_event-Sends, settle-log, settle-queued,
  Down-queued, resend-log,
}

-- An event comes in time if a scheduler is connected or the last disconnection that the broker noted is not too
-- long ago.
abbrev pub InTime : ℕ → Broker → Type 0
InTime now b = elim b.connected_scheduler [
  | none ↦ ltb queue_lifetime (now - b.scheduler_disconnected_at) ≡ false
  | some conn ↦ Unit
]

abbrev Logs : Broker → List QueuedEvent → Broker → Type 0
Logs b es b' = (log b' ≡ log b ++ es) × WaitsDown b'

dispatch-none :
    (now : ℕ) (e : QueuedEvent) (b : Broker)
    → b.connected_scheduler ≡ none
    → ltb queue_lifetime (now - b.scheduler_disconnected_at) ≡ false
    → dispatch_or_queue_event now e b ≡ enqueue e b
unfolding dispatch_or_queue_event queue_event
dispatch-none now e b c t = ground (arith, c, t)

dispatch-some :
    (now : ℕ) (e : QueuedEvent) (b : Broker) (conn : List Answer)
    → b.connected_scheduler ≡ some conn
    → let p = send_event (discord_event e) b in
      dispatch_or_queue_event now e b
      ≡ (if p.1 then p.0 else queue_event now e (disconnect now p.0))
unfolding dispatch_or_queue_event
dispatch-some now e b conn c = ground (arith, c)

dispatch-Logs :
    (now : ℕ) (e : QueuedEvent) (b : Broker)
    → WaitsDown b
    → InTime now b
    → Logs b (e ∷ []) (dispatch_or_queue_event now e b)
dispatch-Logs now e b w t = elim (Option-cases b.connected_scheduler) [
  | inl c ↦
      subst (Logs b (e ∷ [])) (sym (dispatch-none now e b c (subst (in_time now b) c t)))
        (sym (append_assoc (acked_events b.sent) b.queued_events (e ∷ [])), rw c tt)
  | inr (conn, c) ↦
      let empty = Down-queued b conn c w in
      let sends = send_event-Sends e b conn c in
      subst (Logs b (e ∷ []))
        (settle-queued e b empty now (send_event (discord_event e) b) sends
          ∙ sym (dispatch-some now e b conn c))
        (settle-log e b empty now (send_event (discord_event e) b) sends)
]
  where
    in_time : ℕ → Broker → Option (List Answer) → Type 0
    in_time now b o = elim o [
      | none ↦ ltb queue_lifetime (now - b.scheduler_disconnected_at) ≡ false
      | some conn ↦ Unit
    ]

pub greeted :
    (gs : List ℕ) (ok : Bool) (b : Broker)
    → acked_events (b.sent ++ (hello gs, ok) ∷ []) ≡ acked_events b.sent
greeted gs ok b =
    acked_events-append b.sent ((hello gs, ok) ∷ []) ∙ append-nil (acked_events b.sent)

greet-kept :
    (gs : List ℕ) (stream : List Answer) (b : Broker)
    → let b' : Broker = greet gs (record b { connected_scheduler = some stream }) in
      (acked_events b'.sent ≡ acked_events b.sent) × (b'.queued_events ≡ b.queued_events)
unfolding greet send_event
greet-kept gs [] b = (refl, refl)
greet-kept gs (acked ∷ rest) b = (greeted gs true b, refl)
greet-kept gs (unacked ∷ rest) b = (greeted gs false b, refl)
greet-kept gs (unsent ∷ rest) b = (refl, refl)

down-empty : (b : Broker) → b.queued_events ≡ [] → WaitsDown b
down-empty b e = elim (Option-cases b.connected_scheduler) [
  | inl c ↦ rw c tt
  | inr (conn, c) ↦ rw c e
]

connected-Logs :
    (now : ℕ) (gs : List ℕ) (stream : List Answer) (b : Broker)
    → Logs b [] (scheduler_connected now gs stream b)
unfolding scheduler_connected handle_new_scheduler_connected
connected-Logs now gs stream b =
    let b' : Broker = greet gs (record b { connected_scheduler = some stream }) in
    let (a, q) = greet-kept gs stream b in
    let (l, v) =
      resend-log now b'.queued_events (record b' { queued_events = [] })
        (down-empty (record b' { queued_events = [] }) refl) in
    (
      l
          ∙ ap (λ es. es ++ b'.queued_events) (append-nil (acked_events b'.sent) ∙ a)
          ∙ ap (λ es. acked_events b.sent ++ es) q
          ∙ sym (append-nil (log b)),
      v,
    )

note_event-Logs : (k : EventKind) (b : Broker) → WaitsDown b → Logs b [] (note_event k b)
unfolding note_event
note_event-Logs ready b w = (sym (append-nil (log b)), w)
note_event-Logs (guild_delete g false) b w = (sym (append-nil (log b)), w)
note_event-Logs (guild_delete g true) b w = (sym (append-nil (log b)), w)
note_event-Logs (guild_create g) b w = (sym (append-nil (log b)), w)
note_event-Logs _ b w = (sym (append-nil (log b)), w)

-- The event that the broker is to pass on, if it is one.
abbrev pub passed : (GatewayEvent → Option ℕ) → GatewayEvent → List QueuedEvent
passed to_dispatch evt = elim (guild_of evt.kind) [
  | none ↦ []
  | some g ↦ elim (to_dispatch evt) [ none ↦ [] | some body ↦ (g, body) ∷ [] ]
]

-- All of them, in the order in which they came.
abbrev pub all_passed : (GatewayEvent → Option ℕ) → List Input → List QueuedEvent
all_passed to_dispatch [] = []
all_passed to_dispatch (gateway now evt ∷ is) = passed to_dispatch evt ++ all_passed to_dispatch is
all_passed to_dispatch (connection now gs stream ∷ is) = all_passed to_dispatch is

-- Every event comes in time.
abbrev pub AllInTime : (GatewayEvent → Option ℕ) → List Input → Broker → Type 0
AllInTime to_dispatch [] b = Unit
AllInTime to_dispatch (gateway now evt ∷ is) b =
    InTime now b × AllInTime to_dispatch is (step to_dispatch (gateway now evt) b)
AllInTime to_dispatch (connection now gs stream ∷ is) b =
    AllInTime to_dispatch is (step to_dispatch (connection now gs stream) b)

Logs-then :
    (b b' b'' : Broker) (xs ys : List QueuedEvent)
    → Logs b xs b'
    → Logs b' ys b''
    → Logs b (xs ++ ys) b''
Logs-then b b' b'' xs ys (l, w) (m, v) = (m ∙ ap (λ es. es ++ ys) l ∙ append_assoc (log b) xs ys, v)

note_event-InTime :
    (k : EventKind) (now : ℕ) (b : Broker) → InTime now b → InTime now (note_event k b)
unfolding note_event
note_event-InTime ready now b t = t
note_event-InTime (guild_delete g false) now b t = t
note_event-InTime (guild_delete g true) now b t = t
note_event-InTime (guild_create g) now b t = t
note_event-InTime _ now b t = t

module _ (to_dispatch : GatewayEvent → Option ℕ) where
  as_passed :
      (now : ℕ) (evt : GatewayEvent) (b : Broker) (es : List QueuedEvent) (b' : Broker)
      → es ≡ passed to_dispatch evt
      → b' ≡ handle_event to_dispatch now evt b
      → Logs b es b'
      → Logs b (passed to_dispatch evt) (handle_event to_dispatch now evt b)
  as_passed now evt b es b' e f h =
      subst (λ xs. Logs b xs (handle_event to_dispatch now evt b)) e (subst (Logs b es) f h)

  handle_event-Logs :
      (now : ℕ) (evt : GatewayEvent) (b : Broker)
      → WaitsDown b
      → InTime now b
      → Logs b (passed to_dispatch evt) (handle_event to_dispatch now evt b)
  unfolding handle_event
  handle_event-Logs now evt b w t =
      let noted = note_event-Logs evt.kind b w in
      elim (Option-cases (guild_of evt.kind)) [
        | inl g ↦
            as_passed now evt b [] (note_event evt.kind b) (ground (arith, g)) (ground (arith, g))
              noted
        | inr (g, e) ↦ elim (Option-cases (to_dispatch evt)) [
          | inl d ↦
              as_passed now evt b [] (note_event evt.kind b) (ground (arith, e, d))
                (ground (arith, e, d)) noted
          | inr (body, d) ↦
              as_passed now evt b ((g, body) ∷ [])
                (dispatch_or_queue_event now (g, body) (note_event evt.kind b))
                (ground (arith, e, d)) (ground (arith, e, d))
                (Logs-then b (note_event evt.kind b)
                  (dispatch_or_queue_event now (g, body) (note_event evt.kind b)) []
                  ((g, body) ∷ []) noted
                  (dispatch-Logs now (g, body) (note_event evt.kind b) noted.1
                    (note_event-InTime evt.kind now b t)))
        ]
      ]

  run-Logs :
      (is : List Input) (b : Broker)
      → WaitsDown b
      → AllInTime to_dispatch is b
      → Logs b (all_passed to_dispatch is) (run to_dispatch is b)
  unfolding run step
  run-Logs [] b w t = (sym (append-nil (log b)), w)
  run-Logs (gateway now evt ∷ is) b w t =
      let here = handle_event-Logs now evt b w t.0 in
      Logs-then b (handle_event to_dispatch now evt b)
        (run to_dispatch is (handle_event to_dispatch now evt b)) (passed to_dispatch evt)
        (all_passed to_dispatch is) here
        (run-Logs is (handle_event to_dispatch now evt b) here.1 t.1)
  run-Logs (connection now gs stream ∷ is) b w t =
      let here = connected-Logs now gs stream b in
      Logs-then b (scheduler_connected now gs stream b)
        (run to_dispatch is (scheduler_connected now gs stream b)) [] (all_passed to_dispatch is)
        here (run-Logs is (scheduler_connected now gs stream b) here.1 t)

  -- Whatever schedulers come and go and whatever becomes of the messages to them, the events that
  -- they acknowledged, followed by those that wait, are exactly the events that the broker was to pass
  -- on, in the order in which they came, and none waits while a scheduler is connected: as long as
  -- no event comes while no scheduler is connected and the last disconnection that the broker noted is
  -- more than a minute ago. It notes none for a scheduler that is lost while it is greeted.
  pub run-fifo :
      (start : ℕ) (is : List Input)
      → AllInTime to_dispatch is (new start)
      → (log (run to_dispatch is (new start)) ≡ all_passed to_dispatch is)
        × WaitsDown (run to_dispatch is (new start))
  run-fifo start is t = run-Logs is (new start) tt t
