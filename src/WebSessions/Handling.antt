-- ===== src/WebSessions/Handling.antt =====
-- The handlers of cmd/webapi/src/routes/auth.rs and routes/sessions.rs: what each does to the sessions, to the
-- tokens against forged logins and to the clients.
use botloader.WebSessions.Requests.{guild_reached, guild_route}
use botloader.Prelude.{
  Any, ◌⊎◌, ◌<◌, ◌||◌, ℕ, ◌+◌, ◌≤◌, ◌≡◌, ◌≢◌, refl, sym, ap, ◌∙◌, subst, Bool, true, false, Option,
  none, some, List, String, if◌then◌else◌, arith, Option-cases, inl, inr,
}
use botloader.WebSocket.{UserGuild, find_guild}
use botloader.WebSessions.{
  Session, SessionStore, same_token, create_session, get_session, sessions_of, del_session,
  generate_csrf_token, api_key,
}
use botloader.WebSessions.Client.{answer, Web, is_broken}
use botloader.WebSessions.Requests.{
  Request, login, confirm_login, create_api_token, internal_error, Response, see_other, confirmed,
  session_with_key, done, refused, Call, GuildsTry, handle_login, handle_create_api_token,
  handle_delete_session,
}
use botloader.WebSessions.Stores.{CreatesOr, Creation, create_session-Creation, Created-others}
use botloader.WebSessions.Csrf.{one_if, count, generate_csrf_token-count}

abbrev pub is_confirmed : Response → Bool
is_confirmed (confirmed x user) = true
is_confirmed _ = false

-- Whether a request with its answer is a confirmed login with the token.
abbrev pub accepted : String → Request → Response → ℕ
accepted t (confirm_login code state) r = if is_confirmed r then one_if (same_token state t) else 0
accepted t _ r = 0

-- Whether an answer sends a token out.
abbrev pub issued : String → Response → ℕ
issued t (see_other x) = one_if (same_token x t)
issued t _ = 0

abbrev pub is_reached : Response → Bool
is_reached (guild_reached g) = true
is_reached _ = false

-- The guilds are Discord's answer to the try, or an answer of less than ten seconds before.
abbrev pub Given : List UserGuild → GuildsTry → Type 0
Given guilds try =
    (try.asked ≡ answer guilds) ⊎ ((age : ℕ) × (try.cached ≡ some (age, guilds)) × (age < 10000))

-- A list of the user's guilds that Discord gave has this one, with the right to manage it.
abbrev pub Permitted : Call → ℕ → Type 0
Permitted call g =
    (guilds : List UserGuild) × (ug : UserGuild) × Any (Given guilds) call.user_guilds
    × (find_guild g guilds ≡ some ug)
    × ((ug.administrator || ug.manage_guild) ≡ true)

-- What a request does: a client that is broken stays so, no token is used that is not there, and a user that is
-- neither that of the session nor one who logs in has the sessions as they were. A guild's route is
-- reached with the right to manage the guild only.
abbrev pub Effect : Call → Option ℕ → Request → Web → Web → Response → Type 0
Effect call acting request web web' r =
    ((user : ℕ) → is_broken user web ≡ true → is_broken user web' ≡ true)
    × ((t : String) → accepted t request r + count t web'.csrf ≤ issued t r + count t web.csrf)
    × ((v : ℕ)
        → acting ≢ some v
        → ((access : String) → call.current_user access ≢ some v)
        → sessions_of v web'.store.sessions ≡ sessions_of v web.store.sessions)
    × ((g : ℕ) → r ≡ guild_reached g → (request ≡ guild_route g) × Permitted call g)

abbrev pub Handled : Call → Option ℕ → Request → Web → Option (Web × Response) → Type 0
Handled call acting request web none = Unit
Handled call acting request web (some (web', r)) = Effect call acting request web web' r

module _ (call : Call) (acting : Option ℕ) where
  -- An answer that changes nothing, and takes no token.
  pub nothing-Effect :
      (request : Request) (web : Web) (r : Response)
      → ((t : String) → accepted t request r ≡ issued t r)
      → is_reached r ≡ false
      → Effect call acting request web web r
  nothing-Effect request web r e i = (
    λ user b. b,
    λ t. omega (arith, e t),
    λ v n m. refl,
    λ g q. absurd (ground (arith, i, ap is_reached q)),
  )

  -- A change of the store of sessions alone.
  pub store-Effect :
      (request : Request) (web : Web) (st : SessionStore) (r : Response)
      → ((t : String) → accepted t request r ≡ issued t r)
      → is_reached r ≡ false
      → ((v : ℕ)
          → acting ≢ some v
          → ((access : String) → call.current_user access ≢ some v)
          → sessions_of v st.sessions ≡ sessions_of v web.store.sessions)
      → Effect call acting request web (record web { store = st }) r
  unfolding is_broken
  store-Effect request web st r e i h =
      (λ user b. b, λ t. omega (arith, e t), h, λ g q. absurd (ground (arith, i, ap is_reached q)))

  login_waits :
      (web : Web)
      → generate_csrf_token call.generated web.csrf ≡ none
      → handle_login call web ≡ none
  unfolding handle_login
  login_waits web e = ground (arith, e)

  login_sent :
      (web : Web) (tokens : List String) (x : String)
      → generate_csrf_token call.generated web.csrf ≡ some (tokens, x)
      → handle_login call web ≡ some (record web { csrf = tokens }, see_other x)
  unfolding handle_login
  login_sent web tokens x e = ground (arith, e)

  pub handle_login-Handled : (web : Web) → Handled call acting login web (handle_login call web)
  unfolding is_broken
  handle_login-Handled web = elim (Option-cases (generate_csrf_token call.generated web.csrf)) [
    | inl e ↦ subst (Handled call acting login web) (sym (login_waits web e)) tt
    | inr ((tokens, x), e) ↦
        subst (Handled call acting login web) (sym (login_sent web tokens x e)) (
          λ user b. b,
          λ t. omega (arith, generate_csrf_token-count t x call.generated web.csrf tokens e),
          λ v n m. refl,
          λ g q. absurd (ground (arith, q)),
        )
  ]

  api_key_waits :
      (session : Session) (web : Web)
      → create_session call.generated call.now session.user api_key web.store ≡ none
      → handle_create_api_token call session web ≡ none
  unfolding handle_create_api_token
  api_key_waits session web e = ground (arith, e)

  api_key_failed :
      (session : Session) (web : Web) (st : SessionStore)
      → create_session call.generated call.now session.user api_key web.store ≡ some (st, none)
      → handle_create_api_token call session web
        ≡ some (record web { store = st }, refused internal_error)
  unfolding handle_create_api_token
  api_key_failed session web st e = ground (arith, e)

  api_key_created :
      (session s : Session) (web : Web) (st : SessionStore)
      → create_session call.generated call.now session.user api_key web.store ≡ some (st, some s)
      → handle_create_api_token call session web
        ≡ some (record web { store = st }, session_with_key s)
  unfolding handle_create_api_token
  api_key_created session s web st e = ground (arith, e)

  pub handle_create_api_token-Handled :
      (session : Session) (web : Web)
      → acting ≡ some session.user
      → Handled call acting create_api_token web (handle_create_api_token call session web)
  handle_create_api_token-Handled session web a =
      let made = create_session call.generated call.now session.user api_key web.store in
      let c : Creation call.generated call.now session.user api_key web.store made =
        create_session-Creation call.generated call.now session.user api_key web.store in
      elim (Option-cases made) [
        | inl e ↦
            subst (Handled call acting create_api_token web) (sym (api_key_waits session web e)) tt
        | inr ((st, none), e) ↦
            let c' : CreatesOr call.generated call.now session.user api_key web.store st none =
              subst (Creation call.generated call.now session.user api_key web.store) e c in
            subst (Handled call acting create_api_token web) (sym (api_key_failed session web st e))
              (store-Effect create_api_token web st (refused internal_error) (λ t. refl) refl
                (λ v n m. ap (λ x. sessions_of v x.sessions) c'))
        | inr ((st, some s), e) ↦
            let c' : CreatesOr call.generated call.now session.user api_key web.store st (some s) =
              subst (Creation call.generated call.now session.user api_key web.store) e c in
            subst (Handled call acting create_api_token web)
              (sym (api_key_created session s web st e))
              (store-Effect create_api_token web st (session_with_key s) (λ t. refl) refl
                (λ v n m.
                  Created-others session.user v web.store st s c'
                    (λ q. n (a ∙ ap (λ u. some u) q))))
      ]

  pub delete_refused :
      (t : String) (session : Session) (web : Web)
      → ((s : Session) → get_session t web.store ≡ some (some s) → s.user ≢ session.user)
      → handle_delete_session t session web ≡ (web, refused internal_error)
  unfolding handle_delete_session
  delete_refused t session web n = elim (Option-cases (get_session t web.store)) [
    | inl e ↦ ground (arith, e)
    | inr (none, e) ↦ ground (arith, e)
    | inr (some s, e) ↦ ground (arith, e, n s e)
  ]

  pub deleted_own :
      (t : String) (session s : Session) (web : Web)
      → get_session t web.store ≡ some (some s)
      → s.user ≡ session.user
      → handle_delete_session t session web ≡ (record web { store = del_session t web.store }, done)
  unfolding handle_delete_session
  deleted_own t session s web e q = ground (arith, e, q)
