-- ===== src/WebSessions/Confirming.antt =====
-- The other handlers of cmd/webapi/src/routes : a confirmed login.
use botloader.Prelude.{false}
use botloader.Prelude.{
  ℕ, ◌≡◌, ◌≢◌, refl, sym, ap, ◌∙◌, subst, Option, none, some, String, lookup, arith, Option-cases,
  inl, inr,
}
use botloader.WebSessions.{
  DiscordOauthToken, Session, SessionStore, create_session, set_oauth_create_session, get_session,
  sessions_of, user_session, set_user_oatuh_token,
}
use botloader.WebSessions.Client.{Web}
use botloader.WebSessions.Requests.{internal_error, Response, confirmed, refused, Call, log_in}
use botloader.WebSessions.Stores.{Creation, create_session-Creation, Created-others}
use botloader.WebSessions.Handling.{is_reached, issued}
use botloader.WebSessions.{BareSession, find_session, with_oauth}
use botloader.WebSessions.Tokens.{find_session-token}

-- A session that is found stands in the store, under the text that it was asked for by.
pub get_session-find_session :
    (t : String) (st : SessionStore) (s : Session)
    → get_session t st ≡ some (some s)
    → (b : BareSession) × (find_session t st.sessions ≡ some b) × (b.user ≡ s.user) × (s.token ≡ t)
unfolding get_session
get_session-find_session t st s e = elim (Option-cases (find_session t st.sessions)) [
  | inl f ↦ absurd (ground (arith, e, f))
  | inr (b, f) ↦ elim (Option-cases (lookup b.user st.tokens)) [
    | inl g ↦ absurd (ground (arith, e, f, g))
    | inr (oauth, g) ↦
        let q : with_oauth oauth b ≡ s = ground (arith, e, f, g) in
        (b, f, ap (λ x. x.user) q, ap (λ x. x.token) (sym q) ∙ find_session-token t st.sessions b f)
  ]
]

module _ (call : Call) where
  -- A login after its token was checked: the tokens and the clients stay, and no other user is concerned.
  abbrev pub Logged : Web → Option (Web × Response) → Type 0
  Logged web none = Unit
  Logged web (some (web', r)) =
      (web'.clients ≡ web.clients)
      × (web'.csrf ≡ web.csrf)
      × ((t : String) → issued t r ≡ 0)
      × (is_reached r ≡ false)
      × ((v : ℕ)
          → ((access : String) → call.current_user access ≢ some v)
          → sessions_of v web'.store.sessions ≡ sessions_of v web.store.sessions)

  pub no_code :
      (code : String) (web : Web)
      → call.exchange_code code ≡ none
      → log_in call code web ≡ some (web, refused internal_error)
  unfolding log_in
  no_code code web e = ground (arith, e)

  pub no_user :
      (code access next : String) (web : Web)
      → call.exchange_code code ≡ some (access, next)
      → call.current_user access ≡ none
      → log_in call code web ≡ some (web, refused internal_error)
  unfolding log_in
  no_user code access next web e f = ground (arith, e, f)

  abbrev pub oauth_of : ℕ → String → String → DiscordOauthToken
  oauth_of user access next = record { user_id = user; access_token = access; refresh_token = next }

  unfoldable pub session_made : ℕ → String → String → Web → Option (SessionStore × Option Session)
  unfolding set_user_oatuh_token
  session_made user access next web =
      create_session call.generated call.now user user_session
        (set_user_oatuh_token (oauth_of user access next) web.store)

  -- What a confirmed login answers with the session that was made.
  abbrev pub confirmation :
      ℕ → Web → Option (SessionStore × Option Session) → Option (Web × Response)
  confirmation user web none = none
  confirmation user web (some (st, none)) = some (record web { store = st }, refused internal_error)
  confirmation user web (some (st, some s)) =
      some (record web { store = st }, confirmed s.token user)

  pub logged_in :
      (code access next : String) (user : ℕ) (web : Web)
      → call.exchange_code code ≡ some (access, next)
      → call.current_user access ≡ some user
      → log_in call code web ≡ confirmation user web (session_made user access next web)
  unfolding log_in set_oauth_create_session session_made
  logged_in code access next user web e f =
      elim (Option-cases (session_made user access next web)) [
        | inl q ↦ ground (arith, e, f, q)
        | inr ((st, none), q) ↦ ground (arith, e, f, q)
        | inr ((st, some s), q) ↦ ground (arith, e, f, q)
      ]

  confirmation-Logged :
      (user : ℕ) (access next : String) (web : Web)
      → call.current_user access ≡ some user
      → (made : Option (SessionStore × Option Session))
      → Creation call.generated call.now user user_session
          (set_user_oatuh_token (oauth_of user access next) web.store)
          made
      → Logged web (confirmation user web made)
  unfolding set_user_oatuh_token
  confirmation-Logged user access next web f none c = tt
  confirmation-Logged user access next web f (some (st, none)) c =
      (refl, refl, λ t. refl, refl, λ v m. ap (λ x. sessions_of v x.sessions) c)
  confirmation-Logged user access next web f (some (st, some s)) c = (
    refl,
    refl,
    λ t. refl,
    refl,
    λ v m. Created-others user v _ st s c (λ q. m access (f ∙ ap (λ u. some u) q)),
  )

  pub log_in-Logged : (code : String) (web : Web) → Logged web (log_in call code web)
  unfolding session_made
  log_in-Logged code web = elim (Option-cases (call.exchange_code code)) [
    | inl e ↦
        subst (Logged web) (sym (no_code code web e)) (refl, refl, λ t. refl, refl, λ v m. refl)
    | inr ((access, next), e) ↦ elim (Option-cases (call.current_user access)) [
      | inl f ↦
          subst (Logged web) (sym (no_user code access next web e f))
            (refl, refl, λ t. refl, refl, λ v m. refl)
      | inr (user, f) ↦ subst (Logged web) (sym (logged_in code access next user web e f)) (
          confirmation-Logged user access next web f (session_made user access next web) (
            create_session-Creation call.generated call.now user user_session
              (set_user_oatuh_token (oauth_of user access next) web.store)))
    ]
  ]
