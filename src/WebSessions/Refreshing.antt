-- ===== src/WebSessions/Refreshing.antt =====
-- components/discordoauthwrapper/src/lib.rs: the calls of Discord's API end, after one refresh at most.
use botloader.Prelude.{
  ℕ, ◌≡◌, refl, sym, ap, ◌∙◌, subst, Bool, true, false, Option, none, some, List, [], ◌∷◌, length,
  suc, ◌+◌, ◌≤◌, if◌then◌else◌, arith, Bool-cases, inl, inr,
}
use botloader.WebSessions.Client.{
  Web, ApiAnswer, answer, invalid_token, ratelimit, other_error, mark_broken, Refresher,
  update_token, run_api_check_err,
}
use botloader.WebSessions.Calls.{
  Keeps, Keeps-trans, mark_broken-refreshed, mark_broken-Keeps, Refreshes, update_token-Refreshes,
}

module _ (refresh : Refresher) (u : ℕ) where
  -- What the calls of a request did, with the number of refreshes left to it.
  abbrev pub Called : {A : Type 0} → Web → ℕ → Option (Web × Option A) → Type 0
  Called web left none = Unit
  Called web left (some (web', v)) =
      Keeps web web' × (length web'.refreshed ≤ length web.refreshed + left)

  Called-after :
      {A : Type 0} (web web' : Web) (left : ℕ) (result : Option (Web × Option A))
      → Keeps web web'
      → length web'.refreshed ≤ length web.refreshed + left
      → Called web' 0 result
      → Called web left result
  Called-after web web' left none k l c = tt
  Called-after web web' left (some (web'', v)) k l (k', l') =
      (Keeps-trans web web' web'' k k', omega (arith, l, l'))

  -- The refreshes that are left to a request.
  abbrev pub allowed : Bool → ℕ
  allowed updated = if updated then 0 else 1

  module _ {A : Type 0} (rest : List (ApiAnswer A)) where
    invalid_twice :
        (web : Web)
        → run_api_check_err refresh u (invalid_token ∷ rest) true web
          ≡ some (mark_broken u web, none)
    unfolding run_api_check_err
    invalid_twice web = refl

    invalid_failed :
        (web web' : Web)
        → update_token refresh u web ≡ (web', false)
        → run_api_check_err refresh u (invalid_token ∷ rest) false web
          ≡ some (mark_broken u web', none)
    unfolding run_api_check_err
    invalid_failed web web' e = ground (arith, e)

    invalid_again :
        (web web' : Web)
        → update_token refresh u web ≡ (web', true)
        → run_api_check_err refresh u (invalid_token ∷ rest) false web
          ≡ run_api_check_err refresh u rest true web'
    unfolding run_api_check_err
    invalid_again web web' e = ground (arith, e)

  tried : (web : Web) → (web' : Web) × (ok : Bool) × (update_token refresh u web ≡ (web', ok))
  tried web = (_, _, refl)

  no_more :
      (web web' : Web) (left : ℕ)
      → Keeps web web'
      → length web'.refreshed ≤ length web.refreshed + left
      → Keeps web (mark_broken u web')
        × (length (mark_broken u web').refreshed ≤ length web.refreshed + left)
  no_more web web' left k l = (
    Keeps-trans web web' (mark_broken u web') k (mark_broken-Keeps u web'),
    omega (arith, l, ap length (mark_broken-refreshed u web')),
  )

  pub run_api_check_err-Called :
      {A : Type 0} (answers : List (ApiAnswer A)) (updated : Bool) (web : Web)
      → Called web (allowed updated) (run_api_check_err refresh u answers updated web)
  unfolding run_api_check_err
  run_api_check_err-Called [] updated web = tt
  run_api_check_err-Called (answer v ∷ rest) updated web = ((refl, refl, λ user b. b), omega arith)
  run_api_check_err-Called (other_error ∷ rest) updated web =
      ((refl, refl, λ user b. b), omega arith)
  run_api_check_err-Called (ratelimit ∷ rest) updated web =
      run_api_check_err-Called rest updated web
  run_api_check_err-Called (invalid_token ∷ rest) true web =
      no_more web web 0 (refl, refl, λ user b. b) (omega arith)
  run_api_check_err-Called (invalid_token ∷ rest) false web =
      let (web', ok, e) = tried web in
      let (k, l) : Refreshes refresh u web (web', ok) =
        subst (Refreshes refresh u web) e (update_token-Refreshes refresh u web) in
      let m : length web'.refreshed ≤ length web.refreshed + 1 = omega (arith, l) in
      elim (Bool-cases ok) [
        | inr q ↦
            subst (Called web 1) (sym (invalid_failed rest web web' (e ∙ ap (λ b. (web', b)) q)))
              (no_more web web' 1 k m)
        | inl q ↦
            subst (Called web 1) (sym (invalid_again rest web web' (e ∙ ap (λ b. (web', b)) q)))
              (Called-after web web' 1 _ k m (run_api_check_err-Called rest true web'))
      ]

  -- The answers that are no rate limits.
  abbrev pub conclusive : {A : Type 0} → List (ApiAnswer A) → ℕ
  conclusive [] = 0
  conclusive (ratelimit ∷ rest) = conclusive rest
  conclusive (_ ∷ rest) = suc (conclusive rest)

  -- The calls of a request end.
  abbrev Ends : {A : Type 0} → Option (Web × Option A) → Type 0
  Ends {A = A} result = (web' : Web) × (v : Option A) × (result ≡ some (web', v))

  run_api_check_err-Ends :
      {A : Type 0} (answers : List (ApiAnswer A)) (updated : Bool) (web : Web)
      → suc (allowed updated) ≤ conclusive answers
      → Ends (run_api_check_err refresh u answers updated web)
  unfolding run_api_check_err
  run_api_check_err-Ends [] updated web l = absurd (omega (arith, l))
  run_api_check_err-Ends (answer v ∷ rest) updated web l = (_, _, refl)
  run_api_check_err-Ends (other_error ∷ rest) updated web l = (_, _, refl)
  run_api_check_err-Ends (ratelimit ∷ rest) updated web l =
      run_api_check_err-Ends rest updated web l
  run_api_check_err-Ends (invalid_token ∷ rest) true web l = (_, _, refl)
  run_api_check_err-Ends (invalid_token ∷ rest) false web l =
      let (web', ok, e) = tried web in
      elim (Bool-cases ok) [
        | inr q ↦
            subst Ends (sym (invalid_failed rest web web' (e ∙ ap (λ b. (web', b)) q))) (_, _, refl)
        | inl q ↦
            subst Ends (sym (invalid_again rest web web' (e ∙ ap (λ b. (web', b)) q)))
              (run_api_check_err-Ends rest true web' (omega (arith, l)))
      ]

-- Whatever the token refresher answers, the calls of a request end once Discord gave two answers
-- that are no rate limits. At most one refresh token is sent, and the sessions, the tokens against
-- forged logins and the marks of broken clients stay.
pub run_api_check_err-Refreshes :
    {A : Type 0} (refresh : Refresher) (u : ℕ) (answers : List (ApiAnswer A)) (web : Web)
    → 2 ≤ conclusive refresh u answers
    → (web' : Web) × (v : Option A) × (run_api_check_err refresh u answers false web
        ≡ some (web', v))
      × Keeps web web'
      × (length web'.refreshed ≤ length web.refreshed + 1)
run_api_check_err-Refreshes refresh u answers web l =
    let (web', v, e) = run_api_check_err-Ends refresh u answers false web (omega (arith, l)) in
    let (k, b) : Called refresh u web 1 (some (web', v)) =
      subst (Called refresh u web 1) e (run_api_check_err-Called refresh u answers false web) in
    (web', v, e, k, b)
