-- ===== src/WebSessions/Broken.antt =====
-- cmd/webapi/src/middlewares/mw_session.rs with components/discordoauthwrapper/src/cache.rs: a client that is
-- broken stays in the cache, and takes the sessions of its user away with every request.
use botloader.Prelude.{
  ℕ, ◌≡◌, refl, sym, subst, true, Option, none, some, [], String, lookup, arith, Option-cases, inl,
  inr,
}
use botloader.WebSessions.{Session, get_session, sessions_of, del_all_sessions}
use botloader.WebSessions.Client.{Web, is_broken}
use botloader.WebSessions.Requests.{Request, Response, Call}
use botloader.WebSessions.Handling.{Handled}
use botloader.WebSessions.Authorized.{handle_authorized-Handled}
use botloader.WebSessions.Middleware.{finish, handled_session}
use botloader.WebSessions.Client.{fetch}
use botloader.WebSessions.Requests.{with_client, handle}
use botloader.WebSessions.Stores.{del_all_sessions-none}

-- A user without sessions whose client is broken.
abbrev pub LoggedOut : ℕ → Option (Web × Response) → Type 0
LoggedOut user none = Unit
LoggedOut user (some (web', r)) =
    (sessions_of user web'.store.sessions ≡ []) × (is_broken user web' ≡ true)

with_client-is_broken :
    (call : Call) (s : Session) (web : Web)
    → is_broken s.user web ≡ true
    → is_broken s.user (with_client call s web) ≡ true
unfolding is_broken with_client fetch
with_client-is_broken call s web b = elim (Option-cases (lookup s.user web.clients)) [
  | inl e ↦ absurd (ground (arith, e, b))
  | inr (client, e) ↦ ground (arith, e, b)
]

finish-LoggedOut :
    (call : Call) (s : Session) (request : Request) (web : Web) (result : Option (Web × Response))
    → is_broken s.user web ≡ true
    → Handled call (some s.user) request web result
    → LoggedOut s.user (finish s.user result)
unfolding finish is_broken del_all_sessions
finish-LoggedOut call s request web none b h = tt
finish-LoggedOut call s request web (some (web', r)) b h =
    let b' : is_broken s.user web' ≡ true = h.0 s.user b in
    rw b' (del_all_sessions-none s.user web'.store.sessions, b')

-- A user whose client is broken loses all sessions with the first request that comes with one of them, also
-- those of a new login, whatever the request is; and the client is broken still.
pub handle-LoggedOut :
    (call : Call) (header : String) (request : Request) (web : Web) (s : Session)
    → get_session header web.store ≡ some (some s)
    → is_broken s.user web ≡ true
    → LoggedOut s.user (handle call (some header) request web)
unfolding with_client
handle-LoggedOut call header request web s e b =
    subst (LoggedOut s.user) (sym (handled_session call request web header s e)) (
      finish-LoggedOut call s request (with_client call s web) _
        (with_client-is_broken call s web b)
        (handle_authorized-Handled call (some s.user) request s (with_client call s web) header e
          refl))
