-- ===== src/WebSessions.antt =====
-- components/stores/src/inmemory/web.rs: the sessions of the web site's users, their tokens for Discord, and
-- the tokens against forged logins. A user is its id. `gen_token` is random: an operation takes
-- the tokens that it generates, in order, and is `none` where its loop goes on after them. Of a token for
-- Discord its time of expiry is left out, which nothing reads.
pub mod Client
pub mod Tokens
pub mod Stores
pub mod Calls
pub mod Refreshing
pub mod Csrf
pub mod Handling
pub mod Confirming
pub mod Guilds
pub mod Authorized
pub mod Middleware
pub mod Broken
pub mod Logins
pub mod Lifetime
pub mod Managers
mod Examples
pub mod Requests
use botloader.Prelude.{
  ℕ, Bool, true, false, Option, none, some, List, [], ◌∷◌, ◌++◌, map, keep, String, Map, lookup,
  insert, ◌==◌, if◌then◌else◌,
}
use text.Mathlib.Text.{is_eq}
use Prim.Native.String.{compare as compare_text}

pub data SessionType : Type 0 where
  user_session api_key : SessionType

pub record DiscordOauthToken : Type 0 where
  pub user_id : ℕ
  pub access_token : String
  pub refresh_token : String

pub record BareSession : Type 0 where
  pub token : String
  pub user : ℕ
  pub kind : SessionType
  pub created_at : ℕ

pub record Session : Type 0 where
  pub oauth_token : DiscordOauthToken
  pub token : String
  pub kind : SessionType
  pub user : ℕ
  pub created_at : ℕ

pub record SessionStore : Type 0 where
  pub sessions : List BareSession
  pub tokens : Map DiscordOauthToken

abbrev pub same_token : String → String → Bool
same_token s t = is_eq (compare_text s t)

unfoldable pub find_session : String → List BareSession → Option BareSession
find_session t [] = none
find_session t (s ∷ ss) =
    let rest = find_session t ss in if same_token s.token t then some s else rest

unfoldable pub remove_session : String → List BareSession → List BareSession
remove_session t [] = []
remove_session t (s ∷ ss) =
    let rest = remove_session t ss in if same_token s.token t then ss else s ∷ rest

abbrev pub with_oauth : DiscordOauthToken → BareSession → Session
with_oauth oauth s = record {
  oauth_token = oauth;
  token = s.token;
  kind = s.kind;
  user = s.user;
  created_at = s.created_at;
}

unfoldable pub set_user_oatuh_token : DiscordOauthToken → SessionStore → SessionStore
unfolding insert
set_user_oatuh_token oauth st = record st { tokens = insert oauth.user_id oauth st.tokens }

-- The loop of `create_session`: the first token that no session has.
unfoldable pub free_token : List String → List BareSession → Option String
unfolding find_session
free_token [] ss = none
free_token (t ∷ ts) ss =
    let rest = free_token ts ss in elim (find_session t ss) [ none ↦ some t | some s ↦ rest ]

-- The session is none where the user has no token for Discord.
unfoldable pub create_session :
    List String → ℕ → ℕ → SessionType → SessionStore → Option (SessionStore × Option Session)
unfolding lookup free_token
create_session generated now user kind st = elim (lookup user st.tokens) [
  | none ↦ some (st, none)
  | some oauth ↦ elim (free_token generated st.sessions) [
    | none ↦ none
    | some t ↦
        let bare : BareSession = record { token = t; user = user; kind = kind; created_at = now } in
        some (record st { sessions = st.sessions ++ bare ∷ [] }, some (with_oauth oauth bare))
  ]
]

unfoldable pub set_oauth_create_session :
    List String
    → ℕ
    → DiscordOauthToken
    → ℕ
    → SessionType
    → SessionStore
    → Option (SessionStore × Option Session)
unfolding create_session set_user_oatuh_token
set_oauth_create_session generated now oauth user kind st =
    create_session generated now user kind (set_user_oatuh_token oauth st)

unfoldable pub get_oauth_token : ℕ → SessionStore → Option DiscordOauthToken
unfolding lookup
get_oauth_token user st = lookup user st.tokens

-- The outer option is the error of a session whose user has no token for Discord.
unfoldable pub get_session : String → SessionStore → Option (Option Session)
unfolding find_session lookup
get_session t st = elim (find_session t st.sessions) [
  | none ↦ some none
  | some bare ↦ elim (lookup bare.user st.tokens) [
    | none ↦ none
    | some oauth ↦ some (some (with_oauth oauth bare))
  ]
]

unfoldable pub sessions_of : ℕ → List BareSession → List BareSession
unfolding keep
sessions_of user ss = keep (λ s. s.user == user) ss

unfoldable pub get_all_sessions : ℕ → SessionStore → List Session
unfolding lookup sessions_of
get_all_sessions user st = elim (lookup user st.tokens) [
  | none ↦ []
  | some oauth ↦ map (with_oauth oauth) (sessions_of user st.sessions)
]

unfoldable pub del_session : String → SessionStore → SessionStore
unfolding remove_session
del_session t st = record st { sessions = remove_session t st.sessions }

unfoldable pub del_all_sessions : ℕ → SessionStore → SessionStore
unfolding keep
del_all_sessions user st = record st {
  sessions = keep (λ s. if s.user == user then false else true) st.sessions;
}

-- `InMemoryCsrfStore`.
unfoldable pub has_token : String → List String → Bool
has_token t [] = false
has_token t (s ∷ ss) = if same_token s t then true else has_token t ss

unfoldable pub remove_token : String → List String → List String
remove_token t [] = []
remove_token t (s ∷ ss) = let rest = remove_token t ss in if same_token s t then ss else s ∷ rest

unfoldable pub generate_csrf_token : List String → List String → Option (List String × String)
unfolding has_token
generate_csrf_token [] tokens = none
generate_csrf_token (t ∷ ts) tokens =
    let rest = generate_csrf_token ts tokens in
    if has_token t tokens then rest else some (tokens ++ t ∷ [], t)

unfoldable pub check_csrf_token : String → List String → List String × Bool
unfolding has_token remove_token
check_csrf_token t tokens = (remove_token t tokens, has_token t tokens)
