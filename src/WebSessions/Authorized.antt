-- ===== src/WebSessions/Authorized.antt =====
-- cmd/webapi/src/routes: what every handler does to sessions, tokens and clients, for a request with a
-- session.
use botloader.Prelude.{
  ℕ, ◌≤◌, ◌≡◌, ◌≢◌, refl, sym, ap, ◌∙◌, subst, true, false, Option, none, some, String, lookup,
  ◌==◌, if_either, arith, Bool-cases, Option-cases, inl, inr, ==_iff,
}
use botloader.WebSessions.{
  Session, same_token, has_token, get_session, sessions_of, del_session, del_all_sessions,
  check_csrf_token, remove_token,
}
use botloader.WebSessions.Client.{Web, is_broken}
use botloader.WebSessions.Requests.{
  Request, login, confirm_login, logout, all_sessions, create_api_token, delete_all_sessions,
  delete_session, guild_route, bad_csrf_token, internal_error, Response, session_metas, done,
  refused, Call, log_in, handle_confirm_login, handle_delete_session, handle_authorized,
}
use botloader.WebSessions.Tokens.{remove_session-others}
use botloader.WebSessions.Stores.{del_all_sessions-others}
use botloader.WebSessions.Csrf.{one_if, count, remove_token-absent, remove_token-count}
use botloader.WebSessions.Handling.{
  is_reached, is_confirmed, Handled, nothing-Effect, store-Effect, handle_login-Handled,
  handle_create_api_token-Handled, delete_refused, deleted_own,
}
use botloader.Prelude.{map}
use botloader.WebSessions.Requests.{session_meta}
use botloader.WebSessions.{get_all_sessions}
use botloader.WebSessions.Confirming.{get_session-find_session, Logged, log_in-Logged}
use botloader.WebSessions.Guilds.{guild_route-Handled}

module _ (call : Call) (acting : Option ℕ) where
  confirm_refused :
      (code state : String) (web : Web)
      → has_token state web.csrf ≡ false
      → handle_confirm_login call code state web
        ≡ some (record web { csrf = remove_token state web.csrf }, refused bad_csrf_token)
  unfolding handle_confirm_login check_csrf_token
  confirm_refused code state web e = ground (arith, e)

  confirm_goes_on :
      (code state : String) (web : Web)
      → has_token state web.csrf ≡ true
      → handle_confirm_login call code state web
        ≡ log_in call code (record web { csrf = remove_token state web.csrf })
  unfolding handle_confirm_login check_csrf_token
  confirm_goes_on code state web e = ground (arith, e)

  -- A login whose token was in the store.
  goes_on-Handled :
      (code state : String) (web : Web) (result : Option (Web × Response))
      → has_token state web.csrf ≡ true
      → Logged call (record web { csrf = remove_token state web.csrf }) result
      → Handled call acting (confirm_login code state) web result
  unfolding is_broken
  goes_on-Handled code state web none e l = tt
  goes_on-Handled code state web (some (web', r)) e (k, c, i, u, s) = (
    λ user q. ap (λ m. elim (lookup user m) [ none ↦ false | some client ↦ client.broken ]) k ∙ q,
    λ t. omega (
      arith,
      if_either (λ n. n ≤ one_if (same_token state t)) (is_confirmed r)
          (one_if (same_token state t)) 0 (λ e'. omega arith) (λ e'. omega arith),
      ap (count t) c,
      i t,
      remove_token-count t state web.csrf e,
    ),
    λ v n m. s v m,
    λ g q. absurd (ground (arith, u, ap is_reached q)),
  )

  pub handle_confirm_login-Handled :
      (code state : String) (web : Web)
      → Handled call acting
          (confirm_login code state)
          web
          (handle_confirm_login call code state web)
  unfolding is_broken
  handle_confirm_login-Handled code state web = elim (Bool-cases (has_token state web.csrf)) [
    | inl e ↦
        subst (Handled call acting (confirm_login code state) web)
          (sym (confirm_goes_on code state web e))
          (goes_on-Handled code state web _ e (log_in-Logged call code _))
    | inr e ↦
        subst (Handled call acting (confirm_login code state) web)
          (sym (confirm_refused code state web e))
          (
            λ user q. q,
            λ t. omega (arith, ap (count t) (remove_token-absent state web.csrf e)),
            λ v n m. refl,
            λ g q. absurd (ground (arith, q)),
          )
  ]

  -- A session that is deleted belongs to the user who asks for it.
  deleted-others :
      (t : String) (s : Session) (web : Web)
      → get_session t web.store ≡ some (some s)
      → acting ≡ some s.user
      → (v : ℕ) → acting ≢ some v
      → sessions_of v (del_session t web.store).sessions ≡ sessions_of v web.store.sessions
  unfolding del_session
  deleted-others t s web e a v n =
      let (b, f, u, q) = get_session-find_session t web.store s e in
      remove_session-others t v web.store.sessions b f (λ w. n (a ∙ ap (λ x. some x) (sym u ∙ w)))

  unchanged :
      (t : String) (session : Session) (web : Web)
      → handle_delete_session t session web ≡ (web, refused internal_error)
      → Handled call acting (delete_session t) web (some (handle_delete_session t session web))
  unchanged t session web e =
      subst (λ x. Handled call acting (delete_session t) web (some x)) (sym e)
        (nothing-Effect call acting (delete_session t) web (refused internal_error) (λ t'. refl)
          refl)

  all_deleted :
      (session : Session) (v : ℕ) (web : Web)
      → session.user ≢ v
      → sessions_of v (del_all_sessions session.user web.store).sessions
        ≡ sessions_of v web.store.sessions
  unfolding del_all_sessions
  all_deleted session v web n = del_all_sessions-others session.user v web.store.sessions n

  delete_session-Handled :
      (t : String) (session : Session) (web : Web)
      → acting ≡ some session.user
      → Handled call acting (delete_session t) web (some (handle_delete_session t session web))
  delete_session-Handled t session web a = elim (Option-cases (get_session t web.store)) [
    | inl e ↦
        unchanged t session web
          (delete_refused call acting t session web (λ s q. absurd (ground (arith, e, q))))
    | inr (none, e) ↦
        unchanged t session web
          (delete_refused call acting t session web (λ s q. absurd (ground (arith, e, q))))
    | inr (some s, e) ↦ elim (Bool-cases (s.user == session.user)) [
      | inl q ↦
          let u = (==_iff s.user session.user).0 q in
          subst (λ x. Handled call acting (delete_session t) web (some x))
            (sym (deleted_own call acting t session s web e u))
            (store-Effect call acting (delete_session t) web (del_session t web.store) done
              (λ t'. refl) refl
              (λ v n m. deleted-others t s web e (a ∙ ap (λ x. some x) (sym u)) v n))
      | inr q ↦ unchanged t session web (
          delete_refused call acting t session web
            (λ s' q' u. absurd (ground (arith, q, u, e, q'))))
    ]
  ]

  -- The session stands in the store, and its user acts.
  pub handle_authorized-Handled :
      (request : Request) (session : Session) (web : Web) (header : String)
      → get_session header web.store ≡ some (some session)
      → acting ≡ some session.user
      → Handled call acting request web (handle_authorized call request session web)
  unfolding handle_authorized
  handle_authorized-Handled login session web header h a = handle_login-Handled call acting web
  handle_authorized-Handled (confirm_login code state) session web header h a =
      handle_confirm_login-Handled code state web
  handle_authorized-Handled logout session web header h a =
      store-Effect call acting logout web (del_session session.token web.store) done (λ t. refl)
        refl
        (λ v n m.
          deleted-others session.token session web
            (subst (λ x. get_session x web.store ≡ some (some session))
              (sym (get_session-find_session header web.store session h).3) h)
            a v n)
  handle_authorized-Handled all_sessions session web header h a =
      nothing-Effect call acting all_sessions web
        (session_metas (map session_meta (get_all_sessions session.user web.store))) (λ t. refl)
        refl
  handle_authorized-Handled create_api_token session web header h a =
      handle_create_api_token-Handled call acting session web a
  handle_authorized-Handled delete_all_sessions session web header h a =
      store-Effect call acting delete_all_sessions web (del_all_sessions session.user web.store)
        done (λ t. refl) refl (λ v n m. all_deleted session v web (λ q. n (a ∙ ap (λ x. some x) q)))
  handle_authorized-Handled (delete_session t) session web header h a =
      delete_session-Handled t session web a
  handle_authorized-Handled (guild_route g) session web header h a =
      guild_route-Handled call acting g session web
