-- ===== src/WebSessions/Lifetime.antt =====
-- `handle_confirm_login` and `handle_logout` of cmd/webapi/src/routes/auth.rs: a session from its login to its
-- logout.
use botloader.Prelude.{
  ℕ, ◌≡◌, refl, sym, ◌∙◌, subst, Option, none, some, String, arith, false, lookup, lookup-insert,
  Option-cases, inl, inr,
}
use botloader.WebSessions.{
  Session, SessionStore, get_session, user_session, set_user_oatuh_token, del_session,
}
use botloader.WebSessions.Client.{Web, ApiClient, is_broken, fetch, still_cached}
use botloader.WebSessions.Middleware.{finish, handled_session}
use botloader.WebSessions.Requests.{
  logout, Response, confirmed, done, Call, log_in, handle_authorized, after_request, with_client,
  handle,
}
use botloader.WebSessions.Stores.{Created, Creation, create_session-Creation}
use botloader.WebSessions.Stores.{Created-get_session}
use botloader.WebSessions.Confirming.{
  no_code, no_user, logged_in, oauth_of, session_made, confirmation,
}

module _ (call : Call) where
  -- A login that is confirmed made a session.
  abbrev Makes : Web → Option (Web × Response) → Type 0
  Makes web none = Unit
  Makes web (some (web', r)) =
      (t : String) (user : ℕ)
      → r ≡ confirmed t user
      → (s : Session) × (st : SessionStore) × (s.token ≡ t)
        × (st.sessions ≡ web.store.sessions)
        × Created user st web'.store s

  confirmation-Makes :
      (user : ℕ) (access next : String) (web : Web) (made : Option (SessionStore × Option Session))
      → Creation call.generated call.now user user_session
          (set_user_oatuh_token (oauth_of call user access next) web.store)
          made
      → Makes web (confirmation call user web made)
  unfolding set_user_oatuh_token
  confirmation-Makes user access next web none c = tt
  confirmation-Makes user access next web (some (st, none)) c = λ t u e. absurd (ground (arith, e))
  confirmation-Makes user access next web (some (st, some s)) c = λ t u e. (
    s,
    set_user_oatuh_token (oauth_of call user access next) web.store,
    ground (arith, e),
    refl,
    subst (λ v. Created v (set_user_oatuh_token (oauth_of call user access next) web.store) st s)
        (ground (arith, e)) c,
  )

  log_in-Makes : (code : String) (web : Web) → Makes web (log_in call code web)
  unfolding session_made
  log_in-Makes code web = elim (Option-cases (call.exchange_code code)) [
    | inl e ↦
        subst (Makes web) (sym (no_code call code web e)) (λ t u q. absurd (ground (arith, q)))
    | inr ((access, next), e) ↦ elim (Option-cases (call.current_user access)) [
      | inl f ↦
          subst (Makes web) (sym (no_user call code access next web e f))
            (λ t u q. absurd (ground (arith, q)))
      | inr (user, f) ↦ subst (Makes web) (sym (logged_in call code access next user web e f)) (
          confirmation-Makes user access next web (session_made call user access next web) (
            create_session-Creation call.generated call.now user user_session
              (set_user_oatuh_token (oauth_of call user access next) web.store)))
    ]
  ]

with_client_sound :
    (call : Call) (s : Session) (web : Web)
    → is_broken s.user web ≡ false
    → is_broken s.user (with_client call s web) ≡ false
unfolding is_broken with_client fetch
with_client_sound call s web b = elim (Option-cases (lookup s.user web.clients)) [
  | inr (client, e) ↦ ground (arith, e, b)
  | inl e ↦
      let fresh : ApiClient = record { bearer = s.oauth_token.access_token; broken = false } in
      ground (arith, e, lookup-insert s.user s.user fresh (still_cached call.evicted web.clients))
]

-- A logout of a user whose client is not broken, as a whole request.
handled_logout :
    (later : Call) (t : String) (s : Session) (web : Web)
    → get_session t web.store ≡ some (some s)
    → is_broken s.user web ≡ false
    → handle later (some t) logout web
      ≡ some (record (with_client later s web) { store = del_session s.token web.store }, done)
unfolding finish handle_authorized after_request is_broken with_client
handled_logout later t s web e b =
    handled_session later logout web t s e ∙ rw (with_client_sound later s web b) refl

-- The token that a confirmed login answers with is that of a session of its user. The request to log
-- out with that token, if it comes next and the user's Discord client is not marked as broken, is
-- answered as done, and leaves the sessions that were there before the login.
pub log_in-logout :
    (call later : Call) (code t : String) (user : ℕ) (web web' : Web)
    → log_in call code web ≡ some (web', confirmed t user)
    → is_broken user web' ≡ false
    → (s : Session) × (get_session t web'.store ≡ some (some s))
      × (s.user ≡ user)
      × ((web'' : Web) × (handle later (some t) logout web' ≡ some (web'', done))
          × (web''.store.sessions ≡ web.store.sessions))
log_in-logout call later code t user web web' e b =
    let made : Makes call web (some (web', confirmed t user)) =
      subst (Makes call web) e (log_in-Makes call code web) in
    let (s, st, q, r, c) = made t user refl in
    let (found, gone) = Created-get_session user st web'.store s c in
    let held : get_session t web'.store ≡ some (some s) =
      subst (λ x. get_session x web'.store ≡ some (some s)) q found in
    let sound : is_broken s.user web' ≡ false = subst (λ u. is_broken u web' ≡ false) (sym c.3) b in
    (s, held, c.3, (_, handled_logout later t s web' held sound, gone ∙ r))
