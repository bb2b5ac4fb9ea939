-- ===== src/DiscordBroker/Expiry.antt =====
-- cmd/discordbroker/src/broker.rs: the time from which the age of the queue counts, when a scheduler is
-- lost while it is greeted.
use botloader.Prelude.{
  ℕ, ◌-◌, ◌≡◌, refl, sym, ap, subst, ◌∙◌, true, false, none, some, List, [], ◌∷◌, ltb, arith,
}
use botloader.DiscordBroker.{
  QueuedEvent, Answer, acked, unacked, unsent, Broker, queue_lifetime, queue_event, enqueue,
  dispatch_or_queue_event, resend, greet, send_event, handle_new_scheduler_connected,
  scheduler_connected,
}
use botloader.DiscordBroker.Queue.{acked_events, resend-none}
use botloader.DiscordBroker.Fifo.{greeted}

-- The first message over the connection fails.
abbrev pub FirstFails : List Answer → Type 0
FirstFails (acked ∷ rest) = ⊥
FirstFails _ = Unit

abbrev IsDown : Broker → Broker → Type 0
IsDown b b' =
    (b'.connected_scheduler ≡ none)
    × (b'.scheduler_disconnected_at ≡ b.scheduler_disconnected_at)
    × (acked_events b'.sent ≡ acked_events b.sent)

greet-IsDown :
    (gs : List ℕ) (stream : List Answer) (b : Broker)
    → FirstFails stream
    → IsDown b (greet gs (record b { connected_scheduler = some stream }))
unfolding greet send_event
greet-IsDown gs [] b h = (refl, refl, refl)
greet-IsDown gs (acked ∷ rest) b h = absurd h
greet-IsDown gs (unacked ∷ rest) b h = (refl, refl, greeted gs false b)
greet-IsDown gs (unsent ∷ rest) b h = (refl, refl, refl)

resent :
    (now : ℕ) (e : QueuedEvent) (es : List QueuedEvent) (b : Broker)
    → b.connected_scheduler ≡ none
    → resend now es (enqueue e b) ≡ resend now (e ∷ es) b
resent now e es b c = sym (resend-none now e es b c)

resend-IsDown :
    (now : ℕ) (es : List QueuedEvent) (b : Broker)
    → b.connected_scheduler ≡ none
    → IsDown b (resend now es b)
unfolding resend
resend-IsDown now [] b c = (c, refl, refl)
resend-IsDown now (e ∷ es) b c =
    subst (IsDown b) (resent now e es b c) (resend-IsDown now es (enqueue e b) c)

connected-IsDown :
    (now : ℕ) (gs : List ℕ) (stream : List Answer) (b : Broker)
    → FirstFails stream
    → IsDown b (scheduler_connected now gs stream b)
unfolding scheduler_connected handle_new_scheduler_connected
connected-IsDown now gs stream b h =
    let b' : Broker = greet gs (record b { connected_scheduler = some stream }) in
    let (c, d, a) = greet-IsDown gs stream b h in
    let (c', d', a') = resend-IsDown now b'.queued_events (record b' { queued_events = [] }) c in
    (c', d' ∙ d, a' ∙ a)

dispatch-expired :
    (now : ℕ) (e : QueuedEvent) (b : Broker)
    → b.connected_scheduler ≡ none
    → ltb queue_lifetime (now - b.scheduler_disconnected_at) ≡ true
    → dispatch_or_queue_event now e b ≡ record b { queued_events = [] }
unfolding dispatch_or_queue_event queue_event
dispatch-expired now e b c t = ground (arith, c, t)

-- When a scheduler connects more than a minute after the broker last noted a disconnection and is lost
-- while it is greeted, the next event is dropped with all that wait, even at that very time: the
-- loss is not noted as a disconnection.
pub greeting_lost-drops :
    (now : ℕ) (e : QueuedEvent) (gs : List ℕ) (stream : List Answer) (b : Broker)
    → ltb queue_lifetime (now - b.scheduler_disconnected_at) ≡ true
    → FirstFails stream
    → let b' = dispatch_or_queue_event now e (scheduler_connected now gs stream b) in
      (b'.queued_events ≡ []) × (acked_events b'.sent ≡ acked_events b.sent)
greeting_lost-drops now e gs stream b t h =
    let (c, d, a) = connected-IsDown now gs stream b h in
    let b' : Broker = scheduler_connected now gs stream b in
    subst (λ r. (r.queued_events ≡ []) × (acked_events r.sent ≡ acked_events b.sent))
      (sym (dispatch-expired now e b' c (ap (λ at. ltb queue_lifetime (now - at)) d ∙ t))) (refl, a)
