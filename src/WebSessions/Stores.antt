-- ===== src/WebSessions/Stores.antt =====
-- components/stores/src/inmemory/web.rs: the creation and the deletion of a session.

use botloader.Prelude.{
  ℕ, ◌≡◌, ◌≢◌, refl, sym, ap, ◌∙◌, subst, true, false, Option, none, some, List, [], ◌∷◌, ◌++◌,
  keep, String, lookup, ◌==◌, if◌then◌else◌, arith, Option-cases, inl, inr,
}
use botloader.WebSessions.{
  SessionType, DiscordOauthToken, BareSession, Session, SessionStore, find_session, remove_session,
  with_oauth, free_token, create_session, get_session, sessions_of, del_session,
}
use botloader.WebSessions.Tokens.{free_token-find_session, find_session-snoc, remove_session-snoc}

abbrev pub bare_of : Session → BareSession
bare_of s = record { token = s.token; user = s.user; kind = s.kind; created_at = s.created_at }

-- The session was added to the store, under a token that no session had.
abbrev pub Created : ℕ → SessionStore → SessionStore → Session → Type 0
Created user st st' s =
    (find_session s.token st.sessions ≡ none)
    × (st'.sessions ≡ st.sessions ++ bare_of s ∷ [])
    × (st'.tokens ≡ st.tokens)
    × (s.user ≡ user)
    × (lookup user st.tokens ≡ some s.oauth_token)

module _ (generated : List String) (now user : ℕ) (kind : SessionType) (st : SessionStore) where
  abbrev bare : String → BareSession
  bare t = record { token = t; user = user; kind = kind; created_at = now }

  created :
      (oauth : DiscordOauthToken) (t : String)
      → lookup user st.tokens ≡ some oauth
      → free_token generated st.sessions ≡ some t
      → create_session generated now user kind st
        ≡ some
            (record st { sessions = st.sessions ++ bare t ∷ [] }, some (with_oauth oauth (bare t)))
  unfolding create_session
  created oauth t e f = ground (arith, e, f)

  waits :
      (oauth : DiscordOauthToken)
      → lookup user st.tokens ≡ some oauth
      → free_token generated st.sessions ≡ none
      → create_session generated now user kind st ≡ none
  unfolding create_session
  waits oauth e f = ground (arith, e, f)

  not_logged_in :
      lookup user st.tokens ≡ none → create_session generated now user kind st ≡ some (st, none)
  unfolding create_session
  not_logged_in e = ground (arith, e)

  -- A created session, or the store as it was.
  abbrev pub CreatesOr : SessionStore → Option Session → Type 0
  CreatesOr st' none = st' ≡ st
  CreatesOr st' (some s) = Created user st st' s

  abbrev pub Creation : Option (SessionStore × Option Session) → Type 0
  Creation none = Unit
  Creation (some (st', s)) = CreatesOr st' s

  pub create_session-Creation : Creation (create_session generated now user kind st)
  create_session-Creation = elim (Option-cases (lookup user st.tokens)) [
    | inl e ↦ subst Creation (sym (not_logged_in e)) refl
    | inr (oauth, e) ↦ elim (Option-cases (free_token generated st.sessions)) [
      | inl f ↦ subst Creation (sym (waits oauth e f)) tt
      | inr (t, f) ↦
          subst Creation (sym (created oauth t e f))
            (free_token-find_session generated st.sessions t f, refl, refl, refl, e)
    ]
  ]

found_session :
    (t : String) (st : SessionStore) (b : BareSession) (oauth : DiscordOauthToken)
    → find_session t st.sessions ≡ some b
    → lookup b.user st.tokens ≡ some oauth
    → get_session t st ≡ some (some (with_oauth oauth b))
unfolding get_session
found_session t st b oauth e f = ground (arith, e, f)

-- A created session is found under its token, and its deletion leaves the sessions that were there.
pub Created-get_session :
    (user : ℕ) (st st' : SessionStore) (s : Session)
    → Created user st st' s
    → (get_session s.token st' ≡ some (some s)) × ((del_session s.token st').sessions ≡ st.sessions)
unfolding del_session
Created-get_session user st st' s (n, e, k, u, f) = (
  found_session s.token st' (bare_of s) s.oauth_token
      (ap (find_session s.token) e ∙ find_session-snoc st.sessions (bare_of s) n)
      (ap (lookup s.user) k ∙ ap (λ v. lookup v st.tokens) u ∙ f),
  ap (remove_session s.token) e ∙ remove_session-snoc st.sessions (bare_of s) n,
)

sessions_of-snoc :
    (v : ℕ) (ss : List BareSession) (b : BareSession)
    → b.user ≢ v
    → sessions_of v (ss ++ b ∷ []) ≡ sessions_of v ss
unfolding sessions_of keep
sessions_of-snoc v [] b n = ground (arith, n)
sessions_of-snoc v (s ∷ ss) b n = ground (arith, sessions_of-snoc v ss b n)

-- Users other than that of the created session have the sessions they had.
pub Created-others :
    (user v : ℕ) (st st' : SessionStore) (s : Session)
    → Created user st st' s
    → user ≢ v
    → sessions_of v st'.sessions ≡ sessions_of v st.sessions
Created-others user v st st' s (n, e, k, u, f) d =
    ap (sessions_of v) e ∙ sessions_of-snoc v st.sessions (bare_of s) (λ q. d (sym u ∙ q))

pub del_all_sessions-none :
    (user : ℕ) (ss : List BareSession)
    → sessions_of user (keep (λ s. if s.user == user then false else true) ss) ≡ []
unfolding sessions_of keep
del_all_sessions-none user [] = refl
del_all_sessions-none user (s ∷ ss) = ground (arith, del_all_sessions-none user ss)

pub del_all_sessions-others :
    (user v : ℕ) (ss : List BareSession)
    → user ≢ v
    → sessions_of v (keep (λ s. if s.user == user then false else true) ss) ≡ sessions_of v ss
unfolding sessions_of keep
del_all_sessions-others user v [] n = refl
del_all_sessions-others user v (s ∷ ss) n = ground (arith, n, del_all_sessions-others user v ss n)
