-- ===== src/WebSocket/Examples.antt =====
-- A client that logs in, and one that is subscribed to two guilds.
use botloader.Prelude.{ℕ, ◌≡◌, ◌≢◌, refl, true, false, Option, none, some, List, [], ◌∷◌}
use botloader.WebSocket.{
  authorize, subscribe_logs, un_subscribe_logs, text, Call, WsConn, new, Input, received, log_item,
  entry, listed, is_subscribed, handle_ws_command, run,
}
use botloader.WebSocket.Access.{Step}
use botloader.WebSocket.Runs.{ShownAfter, run-Shown}
use botloader.WebSocket.Unsubscribe.{unsubscribe-is_subscribed}

abbrev call : Call
call = record {
  get_session = λ token. some (some 1);
  cached_guilds = λ user. none;
  user_guilds = λ user.
      listed (record { id = 7; administrator = false; manage_guild = true; owner = false } ∷ []);
  stream_opens = λ g. true;
  encodes = true;
  alive = true;
}

abbrev says : Option (Option ℕ) → Input
says none = received none
says (some none) = received (some (some (text (some (authorize "token")))))
says (some (some g)) = received (some (some (text (some (subscribe_logs g)))))

abbrev steps : List Step
steps =
    (call, says (some none))
    ∷ (call, says (some (some 7)))
    ∷ (call, log_item 7 (entry 7 "hello"))
    ∷ (call, says (some (some 8)))
    ∷ []

run-Shown_example : ShownAfter steps (run steps new)
run-Shown_example = run-Shown steps

abbrev two_guilds : WsConn
two_guilds = record { authorized = some 1; active_log_streams = 7 ∷ 8 ∷ []; sent = [] }

unsubscribe-is_subscribed_example :
    let gs = (handle_ws_command call (un_subscribe_logs 7) two_guilds).0.active_log_streams in
    (is_subscribed 7 gs ≡ is_subscribed 7 (7 ∷ 8 ∷ []))
    × ((h : ℕ) → h ≢ 7 → is_subscribed h gs ≡ false)
unsubscribe-is_subscribed_example = unsubscribe-is_subscribed call 7 1 two_guilds refl
