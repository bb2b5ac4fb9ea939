-- ===== src/WebSocket/Unsubscribe.antt =====
-- `unsubscribe_logs` of cmd/webapi/src/routes/ws.rs: which streams it leaves.
use botloader.Prelude.{
  ℕ, ◌≡◌, ◌≢◌, ap, ◌∙◌, false, some, List, [], ◌∷◌, keep, ◌==◌, if◌then◌else◌, arith,
}
use botloader.WebSocket.{
  un_subscribe_logs, Call, WsConn, is_subscribed, unsubscribe, emit_subscriptions, send_event, send,
  handle_ws_command,
}
use botloader.WebSocket.Access.{handled_unsubscribe}

unsubscribe-streams :
    (call : Call) (g : ℕ) (c : WsConn)
    → (unsubscribe call g c).0.active_log_streams ≡ keep (λ h. h == g) c.active_log_streams
unfolding unsubscribe emit_subscriptions send_event send
unsubscribe-streams call g c = ground arith

is_subscribed-keep :
    (g h : ℕ) (gs : List ℕ)
    → is_subscribed h (keep (λ x. x == g) gs) ≡ (if h == g then is_subscribed h gs else false)
unfolding is_subscribed keep
is_subscribed-keep g h [] = ground arith
is_subscribed-keep g h (x ∷ xs) = ground (arith, is_subscribed-keep g h xs)

-- When a client that is logged in asks to end the logs of one guild, the logs of that guild go on if
-- they did, and those of all other guilds end.
pub unsubscribe-is_subscribed :
    (call : Call) (g user : ℕ) (c : WsConn)
    → c.authorized ≡ some user
    → let gs = (handle_ws_command call (un_subscribe_logs g) c).0.active_log_streams in
      (is_subscribed g gs ≡ is_subscribed g c.active_log_streams)
      × ((h : ℕ) → h ≢ g → is_subscribed h gs ≡ false)
unsubscribe-is_subscribed call g user c a =
    let e : (handle_ws_command call (un_subscribe_logs g) c).0.active_log_streams
        ≡ keep (λ h. h == g) c.active_log_streams =
      ap (λ p. p.0.active_log_streams) (handled_unsubscribe call g user c a)
      ∙ unsubscribe-streams call g c in
    (
      ground (arith, ap (is_subscribed g) e, is_subscribed-keep g g c.active_log_streams),
      λ h n. ground (arith, n, ap (is_subscribed h) e, is_subscribed-keep g h c.active_log_streams),
    )
