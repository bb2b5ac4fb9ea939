-- ===== src/WebSocket/Handlers.antt =====
-- The handlers of cmd/webapi/src/routes/ws.rs keep a connection proper.
use botloader.Prelude.{
  ℕ, ◌≡◌, refl, sym, subst, inl, inr, Option, none, some, List, [], ◌∷◌, ◌++◌, String, keep, Any,
  All-append, All-keep, ◌==◌, if_either, Option-cases, arith,
}
use botloader.WebSocket.{
  client_disconnected, json_encode_error, bot_rpc_error, WsCommand, authorize, subscribe_logs,
  un_subscribe_logs, Sent, auth_success, subscriptions_updated, Call, WsConn, WsResult, done,
  panicked, refused, and_then, send, send_event, is_subscribed, check_guild_acces,
  emit_subscriptions, open_stream, subscribe, unsubscribe, do_login, handle_ws_command, Input,
}
use botloader.WebSocket.Access.{
  Step, asks, LogsIn, Reads, Entitled, Shown, Proper, Keeps, Passed, check_guild_acces-Passed,
  handled_unsubscribe,
}

module _ (steps : List Step) where
  pub send-Keeps :
      (call : Call) (msg : Sent) (c : WsConn)
      → Shown steps msg
      → Proper steps c
      → Keeps steps (send call msg c)
  unfolding send
  send-Keeps call msg c m p =
      if_either (Keeps steps) call.alive (record c { sent = c.sent ++ msg ∷ [] }, done)
        (c, refused client_disconnected)
        (λ t. record {
          user = p.user;
          streams = p.streams;
          shown = All-append (Shown steps) c.sent (msg ∷ []) p.shown (m, tt);
        })
        (λ t. p)

  pub send_event-Keeps :
      (call : Call) (msg : Sent) (c : WsConn)
      → Shown steps msg
      → Proper steps c
      → Keeps steps (send_event call msg c)
  unfolding send_event
  send_event-Keeps call msg c m p =
      if_either (Keeps steps) call.encodes (send call msg c) (c, refused json_encode_error)
        (λ t. send-Keeps call msg c m p) (λ t. p)

  and_then-Keeps :
      (p : WsConn × WsResult) (next : WsConn → WsConn × WsResult)
      → Keeps steps p
      → ((c : WsConn) → Proper steps c → Keeps steps (next c))
      → Keeps steps (and_then p next)
  and_then-Keeps (c, done) next k h = h c k
  and_then-Keeps (c, refused reason) next k h = k
  and_then-Keeps (c, panicked) next k h = k

  emit-Keeps : (call : Call) (c : WsConn) → Proper steps c → Keeps steps (emit_subscriptions call c)
  unfolding emit_subscriptions
  emit-Keeps call c p =
      send_event-Keeps call (subscriptions_updated c.active_log_streams) c p.streams p

  open_stream-Keeps :
      (call : Call) (g : ℕ) (c : WsConn)
      → Entitled steps g
      → Proper steps c
      → Keeps steps (open_stream call g c)
  unfolding open_stream
  open_stream-Keeps call g c e p =
      if_either (Keeps steps) (call.stream_opens g)
        (emit_subscriptions call (record c { active_log_streams = c.active_log_streams ++ g ∷ [] }))
        (c, refused bot_rpc_error)
        (λ t.
          emit-Keeps call (record c { active_log_streams = c.active_log_streams ++ g ∷ [] })
            (record {
              user = p.user;
              streams = All-append (Entitled steps) c.active_log_streams (g ∷ []) p.streams (e, tt);
              shown = p.shown;
            }))
        (λ t. p)

  unsubscribe-Keeps :
      (call : Call) (g : ℕ) (c : WsConn) → Proper steps c → Keeps steps (unsubscribe call g c)
  unfolding unsubscribe
  unsubscribe-Keeps call g c p =
      emit-Keeps call (record c { active_log_streams = keep (λ h. h == g) c.active_log_streams })
        (record {
          user = p.user;
          streams = All-keep (Entitled steps) (λ h. h == g) c.active_log_streams p.streams;
          shown = p.shown;
        })

  module _ (call : Call) (input : Input)
      (seen : (P : Step → Type 0) → P (call, input) → Any P steps) where
    when-Passed :
        (g user : ℕ) (c : WsConn) (r : WsResult)
        → asks input ≡ some (subscribe_logs g)
        → c.authorized ≡ some user
        → Proper steps c
        → Passed call user g r
        → Keeps steps (and_then (c, r) (open_stream call g))
    when-Passed g user c done q a p m =
        open_stream-Keeps call g c (user, p.user user a, seen (Reads user g) (q, m)) p
    when-Passed g user c (refused reason) q a p m = p
    when-Passed g user c panicked q a p m = p

    subscribe-Keeps :
        (g user : ℕ) (c : WsConn)
        → asks input ≡ some (subscribe_logs g)
        → c.authorized ≡ some user
        → Proper steps c
        → Keeps steps (subscribe call g c)
    unfolding subscribe
    subscribe-Keeps g user c q a p =
        if_either (Keeps steps) (is_subscribed g c.active_log_streams) (c, done)
          (and_then (c, check_guild_acces call g c) (open_stream call g)) (λ t. p)
          (λ t.
            when-Passed g user c (check_guild_acces call g c) q a p
              (check_guild_acces-Passed call g user c a))

    logged_in :
        (user : ℕ) (c : WsConn)
        → Any (LogsIn user) steps
        → Proper steps c
        → Keeps steps (record c { authorized = some user }, done)
    logged_in user c l p = record {
      user = λ u e. subst (λ v. Any (LogsIn v) steps) (ground (arith, e)) l;
      streams = p.streams;
      shown = p.shown;
    }

    login_with :
        (token : String) (c : WsConn) (o : Option (Option ℕ))
        → call.get_session token ≡ o
        → asks input ≡ some (authorize token)
        → Proper steps c
        → Keeps steps (do_login call token c)
    unfolding do_login
    login_with token c none e q p = simp (do_login, e) p
    login_with token c (some none) e q p = simp (do_login, e) p
    login_with token c (some (some user)) e q p =
        let l : Any (LogsIn user) steps = seen (LogsIn user) (token, q, e) in
        simp (do_login, e)
          (and_then-Keeps (send_event call (auth_success user) c)
            (λ c'. (record c' { authorized = some user }, done))
            (send_event-Keeps call (auth_success user) c l p) (λ c'. logged_in user c' l))

    command_unauth :
        (cmd : WsCommand) (c : WsConn)
        → asks input ≡ some cmd
        → c.authorized ≡ none
        → Proper steps c
        → Keeps steps (handle_ws_command call cmd c)
    unfolding handle_ws_command
    command_unauth (authorize token) c q a p =
        simp (handle_ws_command, a) (login_with token c (call.get_session token) refl q p)
    command_unauth (subscribe_logs g) c q a p = simp (handle_ws_command, a) p
    command_unauth (un_subscribe_logs g) c q a p = simp (handle_ws_command, a) p

    command_auth :
        (cmd : WsCommand) (user : ℕ) (c : WsConn)
        → asks input ≡ some cmd
        → c.authorized ≡ some user
        → Proper steps c
        → Keeps steps (handle_ws_command call cmd c)
    unfolding handle_ws_command
    command_auth (authorize token) user c q a p = simp (handle_ws_command, a) p
    command_auth (subscribe_logs g) user c q a p =
        simp (handle_ws_command, a) (subscribe-Keeps g user c q a p)
    command_auth (un_subscribe_logs g) user c q a p =
        subst (Keeps steps) (sym (handled_unsubscribe call g user c a))
          (unsubscribe-Keeps call g c p)

    pub command-Keeps :
        (cmd : WsCommand) (c : WsConn)
        → asks input ≡ some cmd
        → Proper steps c
        → Keeps steps (handle_ws_command call cmd c)
    command-Keeps cmd c q p = elim (Option-cases c.authorized) [
      | inl a ↦ command_unauth cmd c q a p
      | inr (user, a) ↦ command_auth cmd user c q a p
    ]
