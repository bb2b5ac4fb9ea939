-- ===== src/WebSessions/Client.antt =====
-- components/discordoauthwrapper/src: the client for Discord's API that a user's requests share, and the
-- cache of those clients. The cache is a third party's map of at most 10000 entries: which ones a new one
-- drives out is an argument, and so is what Discord answers to each call. Waiting for a rate limit is
-- left out.
use botloader.Prelude.{
  ℕ, Bool, true, false, Option, none, some, List, [], ◌∷◌, ◌++◌, String, Map, lookup, insert, ◌==◌,
  if◌then◌else◌,
}
use botloader.WebSessions.{SessionStore, Session, set_user_oatuh_token, get_oauth_token}

pub record ApiClient : Type 0 where
  pub bearer : String
  pub broken : Bool

-- The stores and the cache of a web server, with the refresh tokens that it sent to Discord.
pub record Web : Type 0 where
  pub store : SessionStore
  pub csrf : List String
  pub clients : Map ApiClient
  pub refreshed : List String

abbrev pub new : Web
new = record {
  store = record { sessions = []; tokens = [] };
  csrf = [];
  clients = [];
  refreshed = [];
}

-- What a call of Discord's API gives: its value, or an `ApiProviderError`.
pub data ApiAnswer (A : Type 0) : Type 0 where
  answer : A → ApiAnswer A
  invalid_token ratelimit other_error : ApiAnswer A

abbrev pub still_cached : (ℕ → Bool) → Map ApiClient → Map ApiClient
still_cached evicted [] = []
still_cached evicted ((user, client) ∷ rest) =
    let kept = still_cached evicted rest in if evicted user then kept else (user, client) ∷ kept

-- `ClientCache::fetch` with a new client of the session.
unfoldable pub fetch : (ℕ → Bool) → Session → Map ApiClient → Map ApiClient
unfolding lookup insert
fetch evicted session clients = elim (lookup session.user clients) [
  | some client ↦ clients
  | none ↦
      insert session.user (record { bearer = session.oauth_token.access_token; broken = false })
        (still_cached evicted clients)
]

unfoldable pub change_client : ℕ → (ApiClient → ApiClient) → Map ApiClient → Map ApiClient
change_client user f [] = []
change_client user f ((u, client) ∷ rest) =
    let rest' = change_client user f rest in
    if u == user then (u, f client) ∷ rest else (u, client) ∷ rest'

abbrev pub set_broken : ApiClient → ApiClient
set_broken client = record client { broken = true }

unfoldable pub mark_broken : ℕ → Web → Web
unfolding change_client
mark_broken user web = record web { clients = change_client user set_broken web.clients }

unfoldable pub is_broken : ℕ → Web → Bool
unfolding lookup
is_broken user web = elim (lookup user web.clients) [ none ↦ false | some client ↦ client.broken ]

-- What Discord gives for a refresh token: an access token and the next refresh token.
abbrev pub Refresher : Type 0
Refresher = String → Option (String × String)

unfoldable pub update_token : Refresher → ℕ → Web → Web × Bool
unfolding get_oauth_token set_user_oatuh_token change_client
update_token refresh user web = elim (get_oauth_token user web.store) [
  | none ↦ (web, false)
  | some current ↦
      let web' : Web = record web { refreshed = web.refreshed ++ current.refresh_token ∷ [] } in
      elim (refresh current.refresh_token) [
        | none ↦ (web', false)
        | some (access, next) ↦ (
          record web' {
            store =
                set_user_oatuh_token
                  (record { user_id = user; access_token = access; refresh_token = next })
                  web.store;
            clients = change_client user (λ client. record client { bearer = access }) web.clients;
          },
          true,
        )
      ]
]

-- `run_api_check_err`, with the answers to its calls in order; `none` where it goes on after them.
unfoldable pub run_api_check_err :
    {A : Type 0} → Refresher → ℕ → List (ApiAnswer A) → Bool → Web → Option (Web × Option A)
unfolding update_token mark_broken
run_api_check_err refresh user [] updated web = none
run_api_check_err refresh user (answer v ∷ rest) updated web = some (web, some v)
run_api_check_err refresh user (other_error ∷ rest) updated web = some (web, none)
run_api_check_err refresh user (ratelimit ∷ rest) updated web =
    run_api_check_err refresh user rest updated web
run_api_check_err refresh user (invalid_token ∷ rest) updated web =
    let (web', ok) = update_token refresh user web in
    let again = run_api_check_err refresh user rest true web' in
    if updated
    then some (mark_broken user web, none)
    else if ok
    then again
    else some (mark_broken user web', none)
