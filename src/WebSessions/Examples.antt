-- ===== src/WebSessions/Examples.antt =====
-- A server with one user whose client is broken, and the requests of a login.
use botloader.Prelude.{
  ◌≡◌, ◌≤◌, ◌+◌, refl, true, false, Option, none, some, List, [], ◌∷◌, length, arith,
}
use botloader.Prelude.{lookup, insert}
use botloader.WebSocket.{UserGuild, find_guild, fresh_guilds}
use botloader.WebSessions.Managers.{ByManager, handle-ByManager}
use botloader.WebSessions.Client.{fetch}
use botloader.WebSessions.Requests.{
  guild_route, with_client, handle_guild_route, after_request, get_user_guilds,
}
use botloader.WebSessions.{
  find_session, remove_token, has_token, free_token, create_session, set_oauth_create_session,
  set_user_oatuh_token, generate_csrf_token, check_csrf_token, Session, user_session, get_session,
}
use botloader.WebSessions.Client.{
  is_broken, Web, new, invalid_token, ratelimit, other_error, answer, run_api_check_err,
}
use botloader.WebSessions.Requests.{
  delete_session, see_other, refused, bad_csrf_token, handle_public, handle_login,
  handle_confirm_login, Request, Response, login, confirm_login, logout, create_api_token,
  confirmed, done, Call, Exchange, log_in, handle_authorized, handle, serve,
}
use botloader.WebSessions.Calls.{Keeps}
use botloader.WebSessions.Refreshing.{run_api_check_err-Refreshes}
use botloader.WebSessions.Middleware.{acting_user, SameSessions, handle-SameSessions}
use botloader.WebSessions.Broken.{LoggedOut, handle-LoggedOut}
use botloader.WebSessions.Logins.{total_accepted, total_issued, serve-total_accepted}
use botloader.WebSessions.Lifetime.{log_in-logout}

abbrev call : Call
call = record {
  now = 5;
  generated = "a" ∷ "b" ∷ "c" ∷ [];
  evicted = λ user. false;
  exchange_code = λ code. some ("access", "refresh");
  current_user = λ access. some 1;
  refresh = λ token. none;
  user_guilds = [];
}

abbrev web : Web
web = record new {
  store = record {
    sessions =
        record { token = "a"; user = 1; kind = user_session; created_at = 0 }
        ∷ record { token = "x"; user = 2; kind = user_session; created_at = 0 }
        ∷ [];
    tokens = (1, record { user_id = 1; access_token = "t"; refresh_token = "r" }) ∷ [];
  };
  clients = (1, record { bearer = "t"; broken = true }) ∷ [];
}

abbrev session : Session
session = record {
  oauth_token = record { user_id = 1; access_token = "t"; refresh_token = "r" };
  token = "a";
  kind = user_session;
  user = 1;
  created_at = 0;
}

handle-LoggedOut_example : LoggedOut 1 (handle call (some "a") create_api_token web)
unfolding get_session find_session lookup is_broken
handle-LoggedOut_example = handle-LoggedOut call "a" create_api_token web session refl refl

run_api_check_err-Refreshes_example :
    (web' : Web) × (v : Option (List UserGuild)) × (run_api_check_err call.refresh 1
        (ratelimit ∷ invalid_token ∷ answer [] ∷ [])
        false
        web
      ≡ some (web', v))
    × Keeps web web'
    × (length web'.refreshed ≤ length web.refreshed + 1)
run_api_check_err-Refreshes_example =
    run_api_check_err-Refreshes call.refresh 1 (ratelimit ∷ invalid_token ∷ answer [] ∷ []) web
      (omega arith)

handle-SameSessions_example : SameSessions 2 web (handle call (some "a") (delete_session "x") web)
unfolding acting_user get_session find_session lookup
handle-SameSessions_example =
    handle-SameSessions call (some "a") (delete_session "x") web 2 (λ e. absurd (ground (arith, e)))
      (λ access e. absurd (ground (arith, e)))

abbrev exchanges : List Exchange
exchanges =
    record { call = call; header = none; request = login }
    ∷ record { call = call; header = none; request = confirm_login "code" "a" }
    ∷ record { call = call; header = none; request = confirm_login "code" "a" }
    ∷ []

abbrev after_login : Web
after_login = record new {
  store = record {
    sessions = record { token = "a"; user = 1; kind = user_session; created_at = 5 } ∷ [];
    tokens = (1, record { user_id = 1; access_token = "access"; refresh_token = "refresh" }) ∷ [];
  };
}

abbrev history : List (Request × Response)
history =
    (login, see_other "a")
    ∷ (confirm_login "code" "a", confirmed "a" 1)
    ∷ (confirm_login "code" "a", refused bad_csrf_token)
    ∷ []

serve-total_accepted_example : total_accepted "a" history ≤ total_issued "a" history
unfolding serve handle handle_public handle_login handle_confirm_login log_in generate_csrf_token
    check_csrf_token has_token remove_token set_oauth_create_session create_session
    set_user_oatuh_token insert lookup free_token find_session
serve-total_accepted_example = serve-total_accepted "a" exchanges new after_login history refl refl

log_in-logout_example :
    (s : Session) × (get_session "a" after_login.store ≡ some (some s))
    × (s.user ≡ 1)
    × ((web'' : Web) × (handle call (some "a") logout after_login ≡ some (web'', done))
        × (web''.store.sessions ≡ []))
unfolding log_in set_oauth_create_session create_session set_user_oatuh_token insert lookup
    free_token find_session is_broken
log_in-logout_example = log_in-logout call call "code" "a" 1 new after_login refl refl

abbrev manager_call : Call
manager_call = record call {
  user_guilds =
      record { cached = none; asked = ratelimit }
      ∷ record {
        cached = some (
          8000,
          record { id = 7; administrator = false; manage_guild = true; owner = false } ∷ [],
        );
        asked = other_error;
      }
      ∷ [];
}

handle-ByManager_example : ByManager manager_call (some "a") (guild_route 7) after_login 7
unfolding handle get_session find_session lookup with_client fetch insert handle_authorized
    handle_guild_route run_api_check_err get_user_guilds fresh_guilds find_guild after_request
    is_broken
handle-ByManager_example =
    handle-ByManager manager_call (some "a") (guild_route 7) after_login
      (record after_login { clients = (1, record { bearer = "access"; broken = false }) ∷ [] }) 7
      refl
