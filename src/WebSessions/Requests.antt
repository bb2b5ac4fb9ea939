-- ===== src/WebSessions/Requests.antt =====
-- cmd/webapi/src: the requests of the web site that are about sessions and guilds (routes/auth.rs,
-- routes/sessions.rs, the guilds' access of middlewares/guild.rs), behind the session of the request
-- (middlewares/mw_session.rs), and the guilds of components/discordoauthwrapper/src/twilight_api_provider.rs. One
-- request is handled at a time. The other routes are behind the same checks.
use botloader.Prelude.{
  ℕ, Bool, false, ◌||◌, Option, none, some, List, [], ◌∷◌, map, String, ◌==◌, if◌then◌else◌,
}
use botloader.WebSocket.{UserGuild, find_guild, fresh_guilds}
use botloader.WebSessions.{
  SessionType, user_session, api_key, DiscordOauthToken, Session, create_session,
  set_oauth_create_session, get_session, get_all_sessions, del_session, del_all_sessions,
  generate_csrf_token, check_csrf_token,
}
use botloader.WebSessions.Client.{
  Web, ApiAnswer, answer, fetch, is_broken, Refresher, run_api_check_err,
}

pub data Request : Type 0 where
  login : Request
  confirm_login : String → String → Request
  logout all_sessions create_api_token delete_all_sessions : Request
  delete_session : String → Request
  guild_route : ℕ → Request

pub data ApiErrorResponse : Type 0 where
  bad_csrf_token internal_error no_active_guild not_guild_admin no_session : ApiErrorResponse

pub data Response : Type 0 where
  see_other : String → Response
  confirmed : String → ℕ → Response
  session_metas : List (SessionType × ℕ) → Response
  session_with_key : Session → Response
  guild_reached : ℕ → Response
  done : Response
  refused : ApiErrorResponse → Response

-- A try to get the guilds of a user: the list that the client keeps, with its age in milliseconds, and
-- what Discord answers if it is asked.
pub record GuildsTry : Type 0 where
  pub cached : Option (ℕ × List UserGuild)
  pub asked : ApiAnswer (List UserGuild)

-- What the rest of the world does while a request is handled: the clock, the random tokens, the entries
-- that leave the cache, and Discord's answers: of a login, the token and its user. A body that cannot be
-- decoded, on which a request panics, is no answer: it ends the tries.
pub record Call : Type 0 where
  pub now : ℕ
  pub generated : List String
  pub evicted : ℕ → Bool
  pub exchange_code : String → Option (String × String)
  pub current_user : String → Option ℕ
  pub refresh : Refresher
  pub user_guilds : List GuildsTry

abbrev pub session_meta : Session → SessionType × ℕ
session_meta s = (s.kind, s.created_at)

unfoldable pub handle_login : Call → Web → Option (Web × Response)
unfolding generate_csrf_token
handle_login call web = elim (generate_csrf_token call.generated web.csrf) [
  | none ↦ none
  | some (tokens, t) ↦ some (record web { csrf = tokens }, see_other t)
]

-- `handle_confirm_login` after the check of the token.
unfoldable pub log_in : Call → String → Web → Option (Web × Response)
unfolding set_oauth_create_session
log_in call code web = elim (call.exchange_code code) [
  | none ↦ some (web, refused internal_error)
  | some (access, next) ↦ elim (call.current_user access) [
    | none ↦ some (web, refused internal_error)
    | some user ↦
        let oauth : DiscordOauthToken = record {
          user_id = user;
          access_token = access;
          refresh_token = next;
        } in
        elim (set_oauth_create_session call.generated call.now oauth user user_session web.store) [
          | none ↦ none
          | some (st, none) ↦ some (record web { store = st }, refused internal_error)
          | some (st, some s) ↦ some (record web { store = st }, confirmed s.token user)
        ]
  ]
]

unfoldable pub handle_confirm_login : Call → String → String → Web → Option (Web × Response)
unfolding check_csrf_token log_in
handle_confirm_login call code state web =
    let (tokens, valid) = check_csrf_token state web.csrf in
    let web' : Web = record web { csrf = tokens } in
    let logged_in = log_in call code web' in
    if valid then logged_in else some (web', refused bad_csrf_token)

unfoldable pub handle_create_api_token : Call → Session → Web → Option (Web × Response)
unfolding create_session
handle_create_api_token call session web =
    elim (create_session call.generated call.now session.user api_key web.store) [
      | none ↦ none
      | some (st, none) ↦ some (record web { store = st }, refused internal_error)
      | some (st, some s) ↦ some (record web { store = st }, session_with_key s)
    ]

-- `del_session` of routes/sessions.rs.
unfoldable pub handle_delete_session : String → Session → Web → Web × Response
unfolding get_session del_session
handle_delete_session t session web = elim (get_session t web.store) [
  | none ↦ (web, refused internal_error)
  | some none ↦ (web, refused internal_error)
  | some (some s) ↦
      if s.user == session.user
      then (record web { store = del_session t web.store }, done)
      else (web, refused internal_error)
]

-- `TwilightApiProvider::get_user_guilds`.
unfoldable pub get_user_guilds : GuildsTry → ApiAnswer (List UserGuild)
unfolding fresh_guilds
get_user_guilds try = elim (fresh_guilds try.cached) [
  | some guilds ↦ answer guilds
  | none ↦ try.asked
]

unfoldable pub guilds_answers : Call → List (ApiAnswer (List UserGuild))
unfolding get_user_guilds
guilds_answers call = map get_user_guilds call.user_guilds

-- The two middlewares of a guild's routes. A guild's id is not zero.
unfoldable pub handle_guild_route : Call → ℕ → Session → Web → Option (Web × Response)
unfolding run_api_check_err find_guild guilds_answers
handle_guild_route call g session web =
    let fetched = run_api_check_err call.refresh session.user (guilds_answers call) false web in
    if g == 0 then some (web, refused no_active_guild) else elim fetched [
      | none ↦ none
      | some (web', none) ↦ some (web', refused internal_error)
      | some (web', some guilds) ↦ elim (find_guild g guilds) [
        | none ↦ some (web', refused no_active_guild)
        | some ug ↦
            if ug.administrator || ug.manage_guild
            then some (web', guild_reached g)
            else some (web', refused not_guild_admin)
      ]
    ]

abbrev pub handle_logout : Session → Web → Web × Response
handle_logout session web = (record web { store = del_session session.token web.store }, done)

abbrev pub handle_all_sessions : Session → Web → Web × Response
handle_all_sessions session web =
    (web, session_metas (map session_meta (get_all_sessions session.user web.store)))

abbrev pub handle_delete_all_sessions : Session → Web → Web × Response
handle_delete_all_sessions session web =
    (record web { store = del_all_sessions session.user web.store }, done)

-- The routes behind `RequireAuthMiddleware`, and the public ones, with a session.
unfoldable pub handle_authorized : Call → Request → Session → Web → Option (Web × Response)
unfolding handle_login handle_confirm_login handle_create_api_token handle_delete_session
    handle_guild_route get_all_sessions del_session del_all_sessions
handle_authorized call login session web = handle_login call web
handle_authorized call (confirm_login code state) session web =
    handle_confirm_login call code state web
handle_authorized call logout session web = some (handle_logout session web)
handle_authorized call all_sessions session web = some (handle_all_sessions session web)
handle_authorized call create_api_token session web = handle_create_api_token call session web
handle_authorized call delete_all_sessions session web =
    some (handle_delete_all_sessions session web)
handle_authorized call (delete_session t) session web = some (handle_delete_session t session web)
handle_authorized call (guild_route g) session web = handle_guild_route call g session web

-- A request without a session: `RequireAuthMiddleware` refuses all but the public ones.
unfoldable pub handle_public : Call → Request → Web → Option (Web × Response)
unfolding handle_login handle_confirm_login
handle_public call login web = handle_login call web
handle_public call (confirm_login code state) web = handle_confirm_login call code state web
handle_public call _ web = some (web, refused no_session)

-- What `SessionMiddleware` does after the request: a user whose client is broken loses the sessions.
unfoldable pub after_request : ℕ → Web × Response → Web × Response
unfolding is_broken del_all_sessions
after_request user (web, r) =
    if is_broken user web
    then (record web { store = del_all_sessions user web.store }, r)
    else (web, r)

unfoldable pub with_client : Call → Session → Web → Web
unfolding fetch
with_client call session web = record web { clients = fetch call.evicted session web.clients }

-- `SessionMiddleware::call`, with the request's header.
unfoldable pub handle : Call → Option String → Request → Web → Option (Web × Response)
unfolding get_session with_client handle_authorized handle_public after_request
handle call none request web = handle_public call request web
handle call (some header) request web = elim (get_session header web.store) [
  | none ↦ some (web, refused internal_error)
  | some none ↦ handle_public call request web
  | some (some session) ↦
      elim (handle_authorized call request session (with_client call session web)) [
        | none ↦ none
        | some answered ↦ some (after_request session.user answered)
      ]
]

-- The requests to a server, with what it answers.
pub record Exchange : Type 0 where
  pub call : Call
  pub header : Option String
  pub request : Request

unfoldable pub serve : List Exchange → Web → Option (Web × List (Request × Response))
unfolding handle
serve [] web = some (web, [])
serve (x ∷ xs) web = elim (handle x.call x.header x.request web) [
  | none ↦ none
  | some (web', r) ↦ elim (serve xs web') [
    | none ↦ none
    | some (web'', log) ↦ some (web'', (x.request, r) ∷ log)
  ]
]
