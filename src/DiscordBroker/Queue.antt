-- ===== src/DiscordBroker/Queue.antt =====
-- cmd/discordbroker/src/broker.rs: the events that the broker was to pass on, in their order, as those
-- that the schedulers acknowledged and those that wait.
use mathlib.Core.List.{append-nil, append_assoc}
use botloader.Prelude.{
  ℕ, ◌≡◌, refl, sym, ap, subst, ◌∙◌, Bool, true, false, none, some, List, [], ◌∷◌, ◌++◌,
  if◌then◌else◌, arith, Option-cases, inl, inr,
}
use botloader.DiscordBroker.{
  QueuedEvent, BrokerEvent, hello, discord_event, Answer, acked, unacked, unsent, Broker,
  send_event, enqueue, queue_event, disconnect, resend,
}

-- The events among the messages that a scheduler acknowledged.
abbrev pub acked_events : List (BrokerEvent × Bool) → List QueuedEvent
acked_events [] = []
acked_events ((discord_event e, true) ∷ rest) = e ∷ acked_events rest
acked_events (_ ∷ rest) = acked_events rest

pub acked_events-append :
    (xs ys : List (BrokerEvent × Bool))
    → acked_events (xs ++ ys) ≡ acked_events xs ++ acked_events ys
acked_events-append [] ys = refl
acked_events-append ((discord_event e, true) ∷ xs) ys = ap (◌∷◌ e) (acked_events-append xs ys)
acked_events-append ((discord_event e, false) ∷ xs) ys = acked_events-append xs ys
acked_events-append ((hello gs, ok) ∷ xs) ys = acked_events-append xs ys

-- All events so far: those acknowledged, then those that wait.
abbrev pub log : Broker → List QueuedEvent
log b = acked_events b.sent ++ b.queued_events

-- Nothing waits while a scheduler is connected.
abbrev pub WaitsDown : Broker → Type 0
WaitsDown b = elim b.connected_scheduler [ none ↦ Unit | some conn ↦ b.queued_events ≡ [] ]

-- One message over a connection: it is acknowledged and the connection stays, or only what was sent
-- and the rest of the connection changed.
pub data Sends (e : QueuedEvent) (b : Broker) : Broker × Bool → Type 0 where
  through :
      (b' : Broker) (conn : List Answer)
      → b'.connected_scheduler ≡ some conn
      → acked_events b'.sent ≡ acked_events b.sent ++ e ∷ []
      → b'.queued_events ≡ b.queued_events
      → Sends e b (b', true)
  broken :
      (b' : Broker)
      → acked_events b'.sent ≡ acked_events b.sent
      → b'.queued_events ≡ b.queued_events
      → Sends e b (b', false)

pub send_event-Sends :
    (e : QueuedEvent) (b : Broker) (conn : List Answer)
    → b.connected_scheduler ≡ some conn
    → Sends e b (send_event (discord_event e) b)
unfolding send_event
send_event-Sends e b [] c = simp (send_event, c) (broken b refl refl)
send_event-Sends e b (acked ∷ rest) c =
    simp (send_event, c)
      (through _ rest refl (acked_events-append b.sent ((discord_event e, true) ∷ [])) refl)
send_event-Sends e b (unacked ∷ rest) c =
    simp (send_event, c)
      (broken _
        (acked_events-append b.sent ((discord_event e, false) ∷ [])
          ∙ append-nil (acked_events b.sent))
        refl)
send_event-Sends e b (unsent ∷ rest) c = simp (send_event, c) (broken _ refl refl)

-- What the broker makes of the result of a send.
abbrev pub settle : ℕ → QueuedEvent → Broker × Bool → Broker
settle now e (b', ok) = if ok then b' else disconnect now (enqueue e b')

module _ (e : QueuedEvent) (b : Broker) (empty : b.queued_events ≡ []) where
  logs : (b' : Broker) → b'.queued_events ≡ b.queued_events → log b' ≡ acked_events b'.sent
  logs b' q = ap (λ es. acked_events b'.sent ++ es) (q ∙ empty) ∙ append-nil (acked_events b'.sent)

  pub settle-log :
      (now : ℕ) (p : Broker × Bool)
      → Sends e b p
      → (log (settle now e p) ≡ log b ++ e ∷ []) × WaitsDown (settle now e p)
  settle-log now p (through b' conn c a q) =
      (logs b' q ∙ a ∙ ap (λ es. es ++ e ∷ []) (sym (logs b refl)), rw c (q ∙ empty))
  settle-log now p (broken b' a q) = (
    ap (λ es. acked_events b'.sent ++ (es ++ e ∷ [])) (q ∙ empty)
        ∙ ap (λ es. es ++ e ∷ []) (a ∙ sym (logs b refl)),
    tt,
  )

  pub settle-queued :
      (now : ℕ) (p : Broker × Bool)
      → Sends e b p
      → settle now e p ≡ (if p.1 then p.0 else queue_event now e (disconnect now p.0))
  unfolding queue_event
  settle-queued now p (through b' conn c a q) = refl
  settle-queued now p (broken b' a q) = ground arith

pub resend-none :
    (now : ℕ) (e : QueuedEvent) (es : List QueuedEvent) (b : Broker)
    → b.connected_scheduler ≡ none
    → resend now (e ∷ es) b ≡ resend now es (enqueue e b)
unfolding resend
resend-none now e es b c = ground (arith, c)

resend-some :
    (now : ℕ) (e : QueuedEvent) (es : List QueuedEvent) (b : Broker) (conn : List Answer)
    → b.connected_scheduler ≡ some conn
    → resend now (e ∷ es) b ≡ resend now es (settle now e (send_event (discord_event e) b))
unfolding resend
resend-some now e es b conn c = ground (arith, c)

pub Down-queued :
    (b : Broker) (conn : List Answer)
    → b.connected_scheduler ≡ some conn
    → WaitsDown b
    → b.queued_events ≡ []
Down-queued b conn c w = subst (λ o. elim o [ none ↦ Unit | some s ↦ b.queued_events ≡ [] ]) c w

pub resend-log :
    (now : ℕ) (es : List QueuedEvent) (b : Broker)
    → WaitsDown b
    → (log (resend now es b) ≡ log b ++ es) × WaitsDown (resend now es b)
unfolding resend
resend-log now [] b w = (sym (append-nil (log b)), w)
resend-log now (e ∷ es) b w = elim (Option-cases b.connected_scheduler) [
  | inl c ↦
      let (l, v) = resend-log now es (enqueue e b) (rw c tt) in
      subst (λ r. (log r ≡ log b ++ e ∷ es) × WaitsDown r) (sym (resend-none now e es b c))
        (
          l
              ∙ ap (λ xs. xs ++ es)
                  (sym (append_assoc (acked_events b.sent) b.queued_events (e ∷ [])))
              ∙ append_assoc (log b) (e ∷ []) es,
          v,
        )
  | inr (conn, c) ↦
      let p : Broker × Bool = send_event (discord_event e) b in
      let (k, u) = settle-log e b (Down-queued b conn c w) now p (send_event-Sends e b conn c) in
      let (l, v) = resend-log now es (settle now e p) u in
      subst (λ r. (log r ≡ log b ++ e ∷ es) × WaitsDown r) (sym (resend-some now e es b conn c))
        (l ∙ ap (λ xs. xs ++ es) k ∙ append_assoc (log b) (e ∷ []) es, v)
]
