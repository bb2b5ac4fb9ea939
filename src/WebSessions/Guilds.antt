-- ===== src/WebSessions/Guilds.antt =====
-- cmd/webapi/src/middlewares/guild.rs: the access to a guild's routes.
use botloader.WebSessions.Client.{ApiAnswer}
use botloader.Prelude.{◌∙◌, Bool, [], ◌∷◌, map, ltb}
use botloader.Prelude.{
  Any, ℕ, ◌≡◌, refl, sym, ap, subst, true, false, Option, none, some, List, String, ◌==◌, ◌||◌,
  if◌then◌else◌, if_either, arith, Bool-cases, Option-cases, inl, inr,
}
use botloader.WebSocket.{UserGuild, find_guild, fresh_guilds}
use botloader.WebSessions.{Session, sessions_of}
use botloader.WebSessions.Client.{
  answer, invalid_token, ratelimit, other_error, Refresher, update_token, Web, run_api_check_err,
}
use botloader.WebSessions.Requests.{
  guild_route, internal_error, no_active_guild, not_guild_admin, Response, guild_reached, refused,
  Call, GuildsTry, get_user_guilds, guilds_answers, handle_guild_route,
}
use botloader.WebSessions.Refreshing.{Called, run_api_check_err-Called}
use botloader.WebSessions.Csrf.{count}
use botloader.WebSessions.Handling.{Given, Permitted, issued, Handled, nothing-Effect}

get_user_guilds-Given :
    (guilds : List UserGuild) (try : GuildsTry)
    → get_user_guilds try ≡ answer guilds
    → Given guilds try
unfolding get_user_guilds fresh_guilds
get_user_guilds-Given guilds try e = elim (Option-cases try.cached) [
  | inl n ↦ inl (ground (arith, e, n))
  | inr ((age, kept), s) ↦ elim (Bool-cases (ltb age 10000)) [
    | inl t ↦
        let same : kept ≡ guilds = ground (arith, e, s, t) in
        inr (age, subst (λ k. try.cached ≡ some (age, k)) same s, ground (arith, t))
    | inr f ↦ inl (ground (arith, e, s, f))
  ]
]

answers-Given :
    (guilds : List UserGuild) (tries : List GuildsTry)
    → Any (λ a. a ≡ answer guilds) (map get_user_guilds tries)
    → Any (Given guilds) tries
answers-Given guilds [] h = absurd h
answers-Given guilds (try ∷ tries) (inl e) = inl (get_user_guilds-Given guilds try e)
answers-Given guilds (try ∷ tries) (inr h) = inr (answers-Given guilds tries h)

guilds_answers-Given :
    (guilds : List UserGuild) (call : Call)
    → Any (λ a. a ≡ answer guilds) (guilds_answers call)
    → Any (Given guilds) call.user_guilds
unfolding guilds_answers
guilds_answers-Given guilds call h = answers-Given guilds call.user_guilds h

-- A value that the calls of a request gave is one of their answers.
run_api_check_err-answered :
    {A : Type 0} (refresh : Refresher) (u : ℕ) (v : A) (answers : List (ApiAnswer A))
    (updated : Bool) (web web' : Web)
    → run_api_check_err refresh u answers updated web ≡ some (web', some v)
    → Any (λ a. a ≡ answer v) answers
unfolding run_api_check_err
run_api_check_err-answered refresh u v [] updated web web' e = absurd (ground (arith, e))
run_api_check_err-answered refresh u v (answer w ∷ rest) updated web web' e =
    inl (ap (λ x. answer x) (ground (arith, e)))
run_api_check_err-answered refresh u v (other_error ∷ rest) updated web web' e =
    absurd (ground (arith, e))
run_api_check_err-answered refresh u v (ratelimit ∷ rest) updated web web' e =
    inr (run_api_check_err-answered refresh u v rest updated web web' e)
run_api_check_err-answered refresh u v (invalid_token ∷ rest) true web web' e =
    absurd (ground (arith, e))
run_api_check_err-answered refresh u v (invalid_token ∷ rest) false web web' e =
    elim (Bool-cases (update_token refresh u web).1) [
      | inr q ↦ absurd (ground (arith, e, q))
      | inl q ↦ inr (
          run_api_check_err-answered refresh u v rest true (update_token refresh u web).0 web'
            (ground (arith, e, q)))
    ]

module _ (call : Call) (acting : Option ℕ) where
  -- The answer of a guild's route to the guilds that the client gave.
  abbrev pub member_response : ℕ → Option UserGuild → Response
  member_response g none = refused no_active_guild
  member_response g (some ug) =
      if ug.administrator || ug.manage_guild then guild_reached g else refused not_guild_admin

  abbrev pub guild_response : ℕ → Option (List UserGuild) → Response
  guild_response g none = refused internal_error
  guild_response g (some guilds) = member_response g (find_guild g guilds)

  pub no_guild :
      (g : ℕ) (session : Session) (web : Web)
      → (g == 0) ≡ true
      → handle_guild_route call g session web ≡ some (web, refused no_active_guild)
  unfolding handle_guild_route
  no_guild g session web z = ground (arith, z)

  pub guild_waits :
      (g : ℕ) (session : Session) (web : Web)
      → (g == 0) ≡ false
      → run_api_check_err call.refresh session.user (guilds_answers call) false web ≡ none
      → handle_guild_route call g session web ≡ none
  unfolding handle_guild_route
  guild_waits g session web z e = ground (arith, z, e)

  pub guild_fetched :
      (g : ℕ) (session : Session) (web web' : Web) (v : Option (List UserGuild))
      → (g == 0) ≡ false
      → run_api_check_err call.refresh session.user (guilds_answers call) false web ≡ some (web', v)
      → handle_guild_route call g session web ≡ some (web', guild_response g v)
  unfolding handle_guild_route
  guild_fetched g session web web' none z e = ground (arith, z, e)
  guild_fetched g session web web' (some guilds) z e = elim (Option-cases (find_guild g guilds)) [
    | inl f ↦ ground (arith, z, e, f)
    | inr (ug, f) ↦ ground (arith, z, e, f)
  ]

  member_response-issued :
      (g : ℕ) (found : Option UserGuild) (t : String) → issued t (member_response g found) ≡ 0
  member_response-issued g none t = refl
  member_response-issued g (some ug) t =
      if_either (λ r. issued t r ≡ 0) (ug.administrator || ug.manage_guild) (guild_reached g)
        (refused not_guild_admin) (λ e. refl) (λ e. refl)

  guild_response-issued :
      (g : ℕ) (v : Option (List UserGuild)) (t : String) → issued t (guild_response g v) ≡ 0
  guild_response-issued g none t = refl
  guild_response-issued g (some guilds) t = member_response-issued g (find_guild g guilds) t

  member_response-Permitted :
      (g h : ℕ) (guilds : List UserGuild) (found : Option UserGuild)
      → find_guild g guilds ≡ found
      → Any (Given guilds) call.user_guilds
      → member_response g found ≡ guild_reached h
      → (guild_route g ≡ guild_route h) × Permitted call h
  member_response-Permitted g h guilds none f a q = absurd (ground (arith, q))
  member_response-Permitted g h guilds (some ug) f a q =
      elim (Bool-cases (ug.administrator || ug.manage_guild)) [
        | inr e ↦ absurd (ground (arith, q, e))
        | inl e ↦
            let w : g ≡ h = ground (arith, q, e) in
            (
              ap (λ x. guild_route x) w,
              (guilds, ug, a, ap (λ x. find_guild x guilds) (sym w) ∙ f, e),
            )
      ]

  guild_response-Permitted :
      (g h : ℕ) (v : Option (List UserGuild))
      → guild_response g v ≡ guild_reached h
      → ((guilds : List UserGuild) → v ≡ some guilds → Any (Given guilds) call.user_guilds)
      → (guild_route g ≡ guild_route h) × Permitted call h
  guild_response-Permitted g h none q a = absurd (ground (arith, q))
  guild_response-Permitted g h (some guilds) q a =
      member_response-Permitted g h guilds (find_guild g guilds) refl (a guilds refl) q

  pub guild_route-Handled :
      (g : ℕ) (session : Session) (web : Web)
      → Handled call acting (guild_route g) web (handle_guild_route call g session web)
  guild_route-Handled g session web = elim (Bool-cases (g == 0)) [
    | inl z ↦
        subst (Handled call acting (guild_route g) web) (sym (no_guild g session web z)) (
          nothing-Effect call acting (guild_route g) web (refused no_active_guild) (λ t. refl) refl)
    | inr z ↦
        let fetched = run_api_check_err call.refresh session.user (guilds_answers call) false web in
        elim (Option-cases fetched) [
          | inl e ↦
              subst (Handled call acting (guild_route g) web) (sym (guild_waits g session web z e))
                tt
          | inr ((web', v), e) ↦
              let (k, l) : Called call.refresh session.user web 1 (some (web', v)) =
                subst (Called call.refresh session.user web 1) e (
                  run_api_check_err-Called call.refresh session.user (guilds_answers call) false
                    web) in
              subst (Handled call acting (guild_route g) web)
                (sym (guild_fetched g session web web' v z e))
                (
                  k.2,
                  λ t. omega (arith, guild_response-issued g v t, ap (count t) k.1),
                  λ u n m. ap (sessions_of u) k.0,
                  λ h q. guild_response-Permitted g h v q (λ guilds w.
                      guilds_answers-Given guilds call (
                        run_api_check_err-answered call.refresh session.user guilds
                          (guilds_answers call) false web web' (e ∙ ap (λ x. some (web', x)) w))),
                )
        ]
  ]
