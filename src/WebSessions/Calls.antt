-- ===== src/WebSessions/Calls.antt =====
-- components/discordoauthwrapper/src/lib.rs: what a refresh of a token leaves as it was.
use botloader.Prelude.{
  ℕ, ◌≡◌, refl, sym, ap, ◌∙◌, subst, Bool, true, false, none, some, [], ◌∷◌, ◌++◌, String, Map,
  lookup, length, length-append, suc, ◌≤◌, ◌==◌, if◌then◌else◌, arith, Option-cases, inl, inr,
}
use botloader.WebSessions.{DiscordOauthToken, get_oauth_token, set_user_oatuh_token}
use botloader.WebSessions.Client.{
  ApiClient, Web, change_client, set_broken, mark_broken, is_broken, Refresher, update_token,
}

-- What a call of Discord's API keeps: the sessions, the tokens against forged logins, and the marks of the
-- clients that are broken.
abbrev pub Keeps : Web → Web → Type 0
Keeps web web' =
    (web'.store.sessions ≡ web.store.sessions)
    × (web'.csrf ≡ web.csrf)
    × ((user : ℕ) → is_broken user web ≡ true → is_broken user web' ≡ true)

pub Keeps-trans : (web web' web'' : Web) → Keeps web web' → Keeps web' web'' → Keeps web web''
Keeps-trans web web' web'' (s, c, b) (s', c', b') = (s' ∙ s, c' ∙ c, λ user e. b' user (b user e))

lookup-change_client :
    (u v : ℕ) (f : ApiClient → ApiClient) (clients : Map ApiClient)
    → lookup v (change_client u f clients) ≡ elim (lookup v clients) [
      | none ↦ none
      | some client ↦ some (if u == v then f client else client)
    ]
unfolding lookup change_client
lookup-change_client u v f [] = refl
lookup-change_client u v f ((w, client) ∷ rest) = ground (arith, lookup-change_client u v f rest)

is_broken-change_client :
    (u user : ℕ) (f : ApiClient → ApiClient) (web web' : Web)
    → ((client : ApiClient) → client.broken ≡ true → (f client).broken ≡ true)
    → web'.clients ≡ change_client u f web.clients
    → is_broken user web ≡ true
    → is_broken user web' ≡ true
unfolding is_broken
is_broken-change_client u user f web web' k e b = elim (Option-cases (lookup user web.clients)) [
  | inl n ↦ absurd (ground (arith, n, b))
  | inr (client, n) ↦ ground (
    arith,
    n,
    b,
    k client (ground (arith, n, b)),
    ap (lookup user) e,
    lookup-change_client u user f web.clients,
  )
]

pub mark_broken-refreshed : (u : ℕ) (web : Web) → (mark_broken u web).refreshed ≡ web.refreshed
unfolding mark_broken
mark_broken-refreshed u web = refl

pub mark_broken-Keeps : (u : ℕ) (web : Web) → Keeps web (mark_broken u web)
unfolding mark_broken
mark_broken-Keeps u web = (
  refl,
  refl,
  λ user. is_broken-change_client u user set_broken web (mark_broken u web) (λ client e. refl) refl,
)

module _ (refresh : Refresher) (u : ℕ) where
  -- The keys that were sent by one refresh at most.
  abbrev pub Refreshes : Web → Web × Bool → Type 0
  Refreshes web (web', ok) = Keeps web web' × (length web'.refreshed ≤ suc (length web.refreshed))

  no_token :
      (web : Web) → get_oauth_token u web.store ≡ none → update_token refresh u web ≡ (web, false)
  unfolding update_token
  no_token web e = ground (arith, e)

  not_refreshed :
      (web : Web) (current : DiscordOauthToken)
      → get_oauth_token u web.store ≡ some current
      → refresh current.refresh_token ≡ none
      → update_token refresh u web
        ≡ (record web { refreshed = web.refreshed ++ current.refresh_token ∷ [] }, false)
  unfolding update_token
  not_refreshed web current e f = ground (arith, e, f)

  abbrev renewed : Web → DiscordOauthToken → String × String → Web
  unfolding set_user_oatuh_token change_client
  renewed web current (access, next) = record web {
    refreshed = web.refreshed ++ current.refresh_token ∷ [];
    store =
        set_user_oatuh_token (record { user_id = u; access_token = access; refresh_token = next })
          web.store;
    clients = change_client u (λ client. record client { bearer = access }) web.clients;
  }

  refreshed :
      (web : Web) (current : DiscordOauthToken) (answered : String × String)
      → get_oauth_token u web.store ≡ some current
      → refresh current.refresh_token ≡ some answered
      → update_token refresh u web ≡ (renewed web current answered, true)
  unfolding update_token
  refreshed web current answered e f = ground (arith, e, f)

  pub update_token-Refreshes : (web : Web) → Refreshes web (update_token refresh u web)
  unfolding set_user_oatuh_token is_broken renewed
  update_token-Refreshes web = elim (Option-cases (get_oauth_token u web.store)) [
    | inl e ↦ subst (Refreshes web) (sym (no_token web e)) ((refl, refl, λ user b. b), omega arith)
    | inr (current, e) ↦
        let l : length (web.refreshed ++ current.refresh_token ∷ []) ≤ suc (length web.refreshed) =
          omega (arith, length-append web.refreshed (current.refresh_token ∷ [])) in
        elim (Option-cases (refresh current.refresh_token)) [
          | inl f ↦
              subst (Refreshes web) (sym (not_refreshed web current e f))
                ((refl, refl, λ user b. b), l)
          | inr (answered, f) ↦ subst (Refreshes web) (sym (refreshed web current answered e f)) (
            (
              refl,
              refl,
              λ user.
                  is_broken-change_client u user (λ client. record client { bearer = answered.0 })
                    web (renewed web current answered) (λ client b. b) refl,
            ),
            l,
          )
        ]
  ]
