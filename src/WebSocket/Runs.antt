-- ===== src/WebSocket/Runs.antt =====
-- The loop of cmd/webapi/src/routes/ws.rs: what a client is shown during a connection.
use botloader.Prelude.{
  ℕ, ◌≡◌, refl, subst, inl, inr, true, false, none, some, List, [], ◌∷◌, All, Any, All-keep,
  All-map, ◌==◌, if◌then◌else◌, if_either, Bool-cases, arith,
}
use botloader.WebSocket.{
  WsCloseReason, client_disconnected, internal_error, json_decode_error, json_encode_error,
  bad_token, not_authorized, auth_when_authorized, unknown_guild, guild_missing_access,
  bot_rpc_error, Sent, script_log_message, ping_sent, pong_sent, close_frame, Message, text, binary,
  ping, pong, close_message, Call, WsConn, new, WsResult, done, panicked, refused, send, send_event,
  close, is_subscribed, handle_ws_message, Progress, goes_on, ends, panics, or_close, Input,
  received, log_item, stream_error, invalid_entry, entry, stream_ends, ping_tick, handle_input, run,
}
use botloader.WebSocket.Access.{Step, Gives, Entitled, Shown, Proper, Keeps}
use botloader.WebSocket.Handlers.{send-Keeps, send_event-Keeps, command-Keeps}

module _ (steps : List Step) where
  send_raw :
      (call : Call) (msg : Sent) (c : WsConn)
      → Shown steps msg
      → Proper steps c
      → Proper steps (send call msg c).0
  send_raw call msg c m p = send-Keeps steps call msg c m p

  close-Proper :
      (call : Call) (reason : WsCloseReason) (c : WsConn)
      → Proper steps c
      → Proper steps (close call reason c)
  unfolding close
  close-Proper call client_disconnected c p = p
  close-Proper call internal_error c p = send_raw call (close_frame 1011) c tt p
  close-Proper call json_decode_error c p = send_raw call (close_frame 1007) c tt p
  close-Proper call json_encode_error c p = send_raw call (close_frame 4005) c tt p
  close-Proper call bad_token c p = send_raw call (close_frame 4001) c tt p
  close-Proper call not_authorized c p = send_raw call (close_frame 4000) c tt p
  close-Proper call auth_when_authorized c p = send_raw call (close_frame 4002) c tt p
  close-Proper call unknown_guild c p = send_raw call (close_frame 4003) c tt p
  close-Proper call guild_missing_access c p = send_raw call (close_frame 4004) c tt p
  close-Proper call bot_rpc_error c p = send_raw call (close_frame 4006) c tt p

  abbrev Goes : Progress → Type 0
  Goes (goes_on c) = Proper steps c
  Goes (ends c) = Proper steps c
  Goes (panics c) = Proper steps c

  or_close-Goes : (call : Call) (p : WsConn × WsResult) → Keeps steps p → Goes (or_close call p)
  unfolding or_close
  or_close-Goes call (c, done) k = k
  or_close-Goes call (c, refused reason) k = close-Proper call reason c k
  or_close-Goes call (c, panicked) k = k

  subscribed-Entitled :
      (g : ℕ) (gs : List ℕ) → All (Entitled steps) gs → is_subscribed g gs ≡ true → Entitled steps g
  unfolding is_subscribed
  subscribed-Entitled g [] h e = absurd (ground (arith, e))
  subscribed-Entitled g (x ∷ xs) h e = elim (Bool-cases (x == g)) [
    | inl t ↦ subst (Entitled steps) (ground (arith, t)) h.0
    | inr t ↦ subscribed-Entitled g xs h.1 (ground (arith, e, t))
  ]

  message-Keeps :
      (call : Call) (msg : Message) (c : WsConn)
      → ((P : Step → Type 0) → P (call, received (some (some msg))) → Any P steps)
      → Proper steps c
      → Keeps steps (handle_ws_message call msg c)
  unfolding handle_ws_message
  message-Keeps call (text none) c seen p = p
  message-Keeps call (binary none) c seen p = p
  message-Keeps call (text (some cmd)) c seen p =
      command-Keeps steps call (received (some (some (text (some cmd))))) seen cmd c refl p
  message-Keeps call (binary (some cmd)) c seen p =
      command-Keeps steps call (received (some (some (binary (some cmd))))) seen cmd c refl p
  message-Keeps call (ping d) c seen p = send-Keeps steps call (pong_sent d) c tt p
  message-Keeps call pong c seen p = p
  message-Keeps call close_message c seen p = p

  input-Goes :
      (call : Call) (input : Input) (c : WsConn)
      → ((P : Step → Type 0) → P (call, input) → Any P steps)
      → Proper steps c
      → Goes (handle_input call input c)
  unfolding handle_input
  input-Goes call (received none) c seen p = p
  input-Goes call (received (some none)) c seen p = p
  input-Goes call (received (some (some msg))) c seen p =
      or_close-Goes call (handle_ws_message call msg c) (message-Keeps call msg c seen p)
  input-Goes call (log_item g stream_error) c seen p =
      if_either Goes (is_subscribed g c.active_log_streams) (ends (close call bot_rpc_error c))
        (goes_on c) (λ t. close-Proper call bot_rpc_error c p) (λ t. p)
  input-Goes call (log_item g invalid_entry) c seen p =
      if_either Goes (is_subscribed g c.active_log_streams) (panics c) (goes_on c) (λ t. p) (λ t. p)
  input-Goes call (log_item g (entry h message)) c seen p =
      let sent = send_event call (script_log_message h message) c in
      if_either Goes (is_subscribed g c.active_log_streams) (or_close call sent) (goes_on c)
        (λ t. or_close-Goes call sent (
          send_event-Keeps steps call (script_log_message h message) c
            (
              g,
              subscribed-Entitled g c.active_log_streams p.streams t,
              seen (Gives g h message) refl,
            )
            p))
        (λ t. p)
  input-Goes call (stream_ends g) c seen p = record {
    user = p.user;
    streams =
        All-keep (Entitled steps) (λ h. if h == g then false else true) c.active_log_streams
          p.streams;
    shown = p.shown;
  }
  input-Goes call ping_tick c seen p =
      or_close-Goes call (send call ping_sent c) (send-Keeps steps call ping_sent c tt p)

  after :
      (rest : List Step) (q : Progress)
      → Goes q
      → ((c : WsConn) → Proper steps c → Goes (run rest c))
      → Goes (elim q [ goes_on c' ↦ run rest c' | ends c' ↦ ends c' | panics c' ↦ panics c' ])
  after rest (goes_on c) h next = next c h
  after rest (ends c) h next = h
  after rest (panics c) h next = h

  run-Goes :
      (rest : List Step) (c : WsConn)
      → All (λ s. (P : Step → Type 0) → P s → Any P steps) rest
      → Proper steps c
      → Goes (run rest c)
  unfolding run
  run-Goes [] c seen p = p
  run-Goes ((call, input) ∷ rest) c seen p =
      after rest (handle_input call input c) (input-Goes call input c seen.0 p)
        (λ c' k. run-Goes rest c' seen.1 k)

all_seen : (steps : List Step) → All (λ s. (P : Step → Type 0) → P s → Any P steps) steps
all_seen [] = tt
all_seen (s ∷ steps) = (
  (λ P h. inl h),
  All-map (λ s'. (P : Step → Type 0) → P s' → Any P steps)
      (λ s'. (P : Step → Type 0) → P s' → Any P (s ∷ steps)) steps (λ s' f P h. inr (f P h))
      (all_seen steps),
)

-- What a connection has sent after a run, one that panics included.
abbrev pub ShownAfter : List Step → Progress → Type 0
ShownAfter steps (goes_on c) = All (Shown steps) c.sent
ShownAfter steps (ends c) = All (Shown steps) c.sent
ShownAfter steps (panics c) = All (Shown steps) c.sent

-- Whatever a client sends in whatever order, whatever the stores, Discord and the bot answer, and
-- however its connection ends, every subscription that the client is shown is to a guild that it asked for, and
-- every log entry comes from the bot's stream of such a guild: at the time of asking, a user whose session the
-- client showed during the connection owned or managed the guild, by the list that Discord answered then or
-- less than ten seconds before. The guild that an entry itself names is the bot's word, and is not compared.
pub run-Shown : (steps : List Step) → ShownAfter steps (run steps new)
run-Shown steps = done_with (run steps new) (
    run-Goes steps steps new (all_seen steps)
      (record { user = λ u e. absurd (ground (arith, e)); streams = tt; shown = tt }))
  where
    done_with : (q : Progress) → Goes steps q → ShownAfter steps q
    done_with (goes_on c) h = h.shown
    done_with (ends c) h = h.shown
    done_with (panics c) h = h.shown
