-- ===== src/WebSessions/Middleware.antt =====
-- `SessionMiddleware` of cmd/webapi/src/middlewares/mw_session.rs: what a request does as a whole.
use botloader.Prelude.{
  ℕ, ◌≡◌, ◌≢◌, refl, sym, ap, ◌∙◌, subst, Option, none, some, String, if_either, arith,
  Option-cases, inl, inr,
}
use botloader.WebSessions.{Session, get_session, sessions_of, del_all_sessions}
use botloader.WebSessions.Client.{Web, is_broken}
use botloader.WebSessions.Requests.{
  Request, login, confirm_login, logout, all_sessions, create_api_token, delete_all_sessions,
  delete_session, guild_route, internal_error, Response, refused, Call, handle_authorized,
}
use botloader.WebSessions.Stores.{del_all_sessions-others}
use botloader.WebSessions.Handling.{Handled, nothing-Effect, handle_login-Handled}
use botloader.WebSessions.Authorized.{handle_authorized-Handled, handle_confirm_login-Handled}
use botloader.WebSessions.Requests.{handle_public, after_request, with_client, handle, no_session}

-- What the middleware makes of a handler's result.
unfoldable pub finish : ℕ → Option (Web × Response) → Option (Web × Response)
unfolding after_request
finish user none = none
finish user (some answered) = some (after_request user answered)

module _ (call : Call) (request : Request) (web : Web) where
  handled_public :
      (header : String)
      → get_session header web.store ≡ some none
      → handle call (some header) request web ≡ handle_public call request web
  unfolding handle
  handled_public header e = ground (arith, e)

  handled_error :
      (header : String)
      → get_session header web.store ≡ none
      → handle call (some header) request web ≡ some (web, refused internal_error)
  unfolding handle
  handled_error header e = ground (arith, e)

  pub handled_session :
      (header : String) (s : Session)
      → get_session header web.store ≡ some (some s)
      → handle call (some header) request web
        ≡ finish s.user (handle_authorized call request s (with_client call s web))
  unfolding handle finish with_client
  handled_session header s e =
      elim (Option-cases (handle_authorized call request s (with_client call s web))) [
        | inl q ↦ ground (arith, e, q)
        | inr (answered, q) ↦ ground (arith, e, q)
      ]

  -- What holds of a request without a session, of an error, and of a request with one.
  pub handle-cases :
      (P : Option (Web × Response) → Type 0) (header : Option String)
      → P (handle_public call request web)
      → P (some (web, refused internal_error))
      → ((t : String) (s : Session)
          → header ≡ some t
          → get_session t web.store ≡ some (some s)
          → P (finish s.user (handle_authorized call request s (with_client call s web))))
      → P (handle call header request web)
  unfolding handle
  handle-cases P none public error session = public
  handle-cases P (some header) public error session =
      elim (Option-cases (get_session header web.store)) [
        | inl e ↦ subst P (sym (handled_error header e)) error
        | inr (none, e) ↦ subst P (sym (handled_public header e)) public
        | inr (some s, e) ↦ subst P (sym (handled_session header s e)) (session header s refl e)
      ]

pub handle_public-Handled :
    (call : Call) (acting : Option ℕ) (request : Request) (web : Web)
    → Handled call acting request web (handle_public call request web)
unfolding handle_public
handle_public-Handled call acting login web = handle_login-Handled call acting web
handle_public-Handled call acting (confirm_login code state) web =
    handle_confirm_login-Handled call acting code state web
handle_public-Handled call acting logout web =
    nothing-Effect call acting logout web (refused no_session) (λ t. refl) refl
handle_public-Handled call acting all_sessions web =
    nothing-Effect call acting all_sessions web (refused no_session) (λ t. refl) refl
handle_public-Handled call acting create_api_token web =
    nothing-Effect call acting create_api_token web (refused no_session) (λ t. refl) refl
handle_public-Handled call acting delete_all_sessions web =
    nothing-Effect call acting delete_all_sessions web (refused no_session) (λ t. refl) refl
handle_public-Handled call acting (delete_session x) web =
    nothing-Effect call acting (delete_session x) web (refused no_session) (λ t. refl) refl
handle_public-Handled call acting (guild_route g) web =
    nothing-Effect call acting (guild_route g) web (refused no_session) (λ t. refl) refl

-- The user of the session that a request comes with.
unfoldable pub acting_user : Option String → Web → Option ℕ
unfolding get_session
acting_user none web = none
acting_user (some t) web = elim (get_session t web.store) [
  | none ↦ none
  | some none ↦ none
  | some (some s) ↦ some s.user
]

acting_user-session :
    (header : Option String) (t : String) (s : Session) (web : Web)
    → header ≡ some t
    → get_session t web.store ≡ some (some s)
    → acting_user header web ≡ some s.user
unfolding acting_user
acting_user-session header t s web h e = ground (arith, h, e)

-- The sessions of a user after a request.
abbrev pub SameSessions : ℕ → Web → Option (Web × Response) → Type 0
SameSessions v web none = Unit
SameSessions v web (some (web', r)) =
    sessions_of v web'.store.sessions ≡ sessions_of v web.store.sessions

finish-SameSessions :
    (user v : ℕ) (web : Web) (result : Option (Web × Response))
    → user ≢ v
    → SameSessions v web result
    → SameSessions v web (finish user result)
unfolding finish del_all_sessions
finish-SameSessions user v web none n h = tt
finish-SameSessions user v web (some (web', r)) n h =
    if_either (λ x. SameSessions v web (some x)) (is_broken user web')
      (record web' { store = del_all_sessions user web'.store }, r) (web', r)
      (λ b. del_all_sessions-others user v web'.store.sessions n ∙ h) (λ b. h)

-- A request of a user, logged in or not, leaves the sessions of all other users as they were, except those of
-- a user whom Discord names for a login.
pub handle-SameSessions :
    (call : Call) (header : Option String) (request : Request) (web : Web) (v : ℕ)
    → acting_user header web ≢ some v
    → ((access : String) → call.current_user access ≢ some v)
    → SameSessions v web (handle call header request web)
unfolding with_client
handle-SameSessions call header request web v n m =
    handle-cases call request web (SameSessions v web) header
      (same none web _ (λ e. absurd (ground (arith, e))) refl
        (handle_public-Handled call none request web))
      refl
      (λ t s h e.
        let a = acting_user-session header t s web h e in
        finish-SameSessions s.user v web _ (λ q. n (a ∙ ap (λ u. some u) q))
          (same (some s.user) (with_client call s web) _ (λ q. n (a ∙ q)) refl
            (handle_authorized-Handled call (some s.user) request s (with_client call s web) t e
              refl)))
  where
    same :
        (acting : Option ℕ) (before : Web) (result : Option (Web × Response))
        → acting ≢ some v
        → before.store ≡ web.store
        → Handled call acting request before result
        → SameSessions v web result
    same acting before none d q h = tt
    same acting before (some (web', r)) d q h = h.2 v d m ∙ ap (λ x. sessions_of v x.sessions) q
