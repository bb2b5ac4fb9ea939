-- ===== src/WebSessions/Logins.antt =====
-- The tokens against forged logins over all requests to cmd/webapi.
use botloader.Prelude.{
  ℕ, ◌+◌, ◌≤◌, ◌≡◌, refl, sym, ap, subst, Option, none, some, List, [], ◌∷◌, String, if_either,
  arith, Option-cases, inl, inr,
}
use botloader.WebSessions.{del_all_sessions}
use botloader.WebSessions.Client.{Web, is_broken}
use botloader.WebSessions.Requests.{
  Request, login, confirm_login, logout, all_sessions, create_api_token, delete_all_sessions,
  delete_session, guild_route, internal_error, Response, refused, Call,
}
use botloader.WebSessions.Csrf.{count}
use botloader.WebSessions.Handling.{accepted, issued, Handled}
use botloader.WebSessions.Authorized.{handle_authorized-Handled}
use botloader.WebSessions.Middleware.{finish, handle-cases, handle_public-Handled}
use botloader.WebSessions.Requests.{with_client, handle, Exchange, serve}

-- No token is used that is not there.
abbrev pub Counted : String → Request → Web → Option (Web × Response) → Type 0
Counted t request web none = Unit
Counted t request web (some (web', r)) =
    accepted t request r + count t web'.csrf ≤ issued t r + count t web.csrf

not_used :
    (t : String) (request : Request) (web : Web)
    → Counted t request web (some (web, refused internal_error))
not_used t (confirm_login code state) web = omega arith
not_used t login web = omega arith
not_used t logout web = omega arith
not_used t all_sessions web = omega arith
not_used t create_api_token web = omega arith
not_used t delete_all_sessions web = omega arith
not_used t (delete_session x) web = omega arith
not_used t (guild_route g) web = omega arith

finish-Counted :
    (t : String) (user : ℕ) (request : Request) (web : Web) (result : Option (Web × Response))
    → Counted t request web result
    → Counted t request web (finish user result)
unfolding finish
finish-Counted t user request web none h = tt
finish-Counted t user request web (some (web', r)) h =
    if_either (λ x. Counted t request web (some x)) (is_broken user web')
      (record web' { store = del_all_sessions user web'.store }, r) (web', r) (λ b. h) (λ b. h)

handle-Counted :
    (t : String) (call : Call) (header : Option String) (request : Request) (web : Web)
    → Counted t request web (handle call header request web)
unfolding with_client
handle-Counted t call header request web =
    handle-cases call request web (Counted t request web) header
      (counted none web _ refl (handle_public-Handled call none request web))
      (not_used t request web)
      (λ text s h e. finish-Counted t s.user request web _ (
        counted (some s.user) (with_client call s web) _ refl (
          handle_authorized-Handled call (some s.user) request s (with_client call s web) text e
            refl)))
  where
    counted :
        (acting : Option ℕ) (web' : Web) (result : Option (Web × Response))
        → web'.csrf ≡ web.csrf
        → Handled call acting request web' result
        → Counted t request web result
    counted acting web' none q h = tt
    counted acting web' (some (web'', r)) q h = omega (arith, h.1 t, ap (count t) q)

-- Over a history: how many logins were confirmed with the token, and how often it was sent out.
abbrev pub total_accepted : String → List (Request × Response) → ℕ
total_accepted t [] = 0
total_accepted t ((request, r) ∷ log) = accepted t request r + total_accepted t log

abbrev pub total_issued : String → List (Request × Response) → ℕ
total_issued t [] = 0
total_issued t ((request, r) ∷ log) = issued t r + total_issued t log

-- What is in the store after some requests, with what was used up.
abbrev Total : String → Web → Option (Web × List (Request × Response)) → Type 0
Total t web none = Unit
Total t web (some (web', log)) =
    total_accepted t log + count t web'.csrf ≤ total_issued t log + count t web.csrf

first_waits :
    (x : Exchange) (xs : List Exchange) (web : Web)
    → handle x.call x.header x.request web ≡ none
    → serve (x ∷ xs) web ≡ none
unfolding serve
first_waits x xs web e = ground (arith, e)

rest_waits :
    (x : Exchange) (xs : List Exchange) (web web' : Web) (r : Response)
    → handle x.call x.header x.request web ≡ some (web', r)
    → serve xs web' ≡ none
    → serve (x ∷ xs) web ≡ none
unfolding serve
rest_waits x xs web web' r e f = ground (arith, e, f)

served :
    (x : Exchange) (xs : List Exchange) (web web' web'' : Web) (r : Response)
    (log : List (Request × Response))
    → handle x.call x.header x.request web ≡ some (web', r)
    → serve xs web' ≡ some (web'', log)
    → serve (x ∷ xs) web ≡ some (web'', (x.request, r) ∷ log)
unfolding serve
served x xs web web' web'' r log e f = ground (arith, e, f)

serve-Total : (t : String) (xs : List Exchange) (web : Web) → Total t web (serve xs web)
unfolding serve
serve-Total t [] web = omega arith
serve-Total t (x ∷ xs) web = elim (Option-cases (handle x.call x.header x.request web)) [
  | inl e ↦ subst (Total t web) (sym (first_waits x xs web e)) tt
  | inr ((web', r), e) ↦
      let c : Counted t x.request web (some (web', r)) =
        subst (Counted t x.request web) e (handle-Counted t x.call x.header x.request web) in
      elim (Option-cases (serve xs web')) [
        | inl f ↦ subst (Total t web) (sym (rest_waits x xs web web' r e f)) tt
        | inr ((web'', log), f) ↦
            let d : Total t web' (some (web'', log)) =
              subst (Total t web') f (serve-Total t xs web') in
            subst (Total t web) (sym (served x xs web web' web'' r log e f)) (omega (arith, c, d))
      ]
]

-- Over any requests to a server that starts with no token in its store, no token confirms more logins than
-- times it was sent out: a token that nobody was sent confirms none, and no token confirms
-- two logins unless it was generated twice.
pub serve-total_accepted :
    (t : String) (xs : List Exchange) (web web' : Web) (log : List (Request × Response))
    → web.csrf ≡ []
    → serve xs web ≡ some (web', log)
    → total_accepted t log ≤ total_issued t log
serve-total_accepted t xs web web' log e f =
    let d : Total t web (some (web', log)) = subst (Total t web) f (serve-Total t xs web) in
    omega (arith, d, ap (count t) e)
