-- ===== src/WebSessions/Managers.antt =====
-- cmd/webapi/src/middlewares: who reaches the routes of a guild.

use botloader.Prelude.{ℕ, ◌≡◌, refl, subst, Option, none, some, String, if_either, arith}
use botloader.WebSessions.{Session, get_session, del_all_sessions}
use botloader.WebSessions.Client.{Web, is_broken}
use botloader.WebSessions.Requests.{
  Request, login, confirm_login, logout, all_sessions, create_api_token, delete_all_sessions,
  delete_session, guild_route, Response, Call,
}
use botloader.WebSessions.Handling.{Handled}
use botloader.WebSessions.Authorized.{handle_authorized-Handled}
use botloader.WebSessions.Requests.{handle_public, with_client, handle}
use botloader.WebSessions.Requests.{guild_reached, guild_route}
use botloader.WebSessions.Handling.{Permitted}
use botloader.WebSessions.Middleware.{finish, handle-cases, handle_public-Handled}

-- The request is for the guild, it comes with a session, and Discord says, or said less than ten seconds
-- before, that its user may manage the guild.
abbrev pub ByManager : Call → Option String → Request → Web → ℕ → Type 0
ByManager call header request web g =
    (request ≡ guild_route g)
    × ((t : String) × (s : Session) × (header ≡ some t) × (get_session t web.store ≡ some (some s)))
    × Permitted call g

abbrev pub Reaches : (ℕ → Type 0) → Option (Web × Response) → Type 0
Reaches P none = Unit
Reaches P (some (web', r)) = (g : ℕ) → r ≡ guild_reached g → P g

Handled-Reaches :
    (call : Call) (acting : Option ℕ) (request : Request) (web : Web)
    (result : Option (Web × Response))
    → Handled call acting request web result
    → Reaches (λ g. (request ≡ guild_route g) × Permitted call g) result
Handled-Reaches call acting request web none h = tt
Handled-Reaches call acting request web (some (web', r)) h = h.3

Reaches-map :
    (P Q : ℕ → Type 0) (result : Option (Web × Response))
    → ((g : ℕ) → P g → Q g)
    → Reaches P result
    → Reaches Q result
Reaches-map P Q none f h = tt
Reaches-map P Q (some (web', r)) f h = λ g e. f g (h g e)

finish-Reaches :
    (P : ℕ → Type 0) (user : ℕ) (result : Option (Web × Response))
    → Reaches P result
    → Reaches P (finish user result)
unfolding finish
finish-Reaches P user none h = tt
finish-Reaches P user (some (web', r)) h =
    if_either (λ x. Reaches P (some x)) (is_broken user web')
      (record web' { store = del_all_sessions user web'.store }, r) (web', r) (λ b. h) (λ b. h)

public-Reaches :
    (P : ℕ → Type 0) (call : Call) (request : Request) (web : Web)
    → Reaches P (handle_public call request web)
unfolding handle_public
public-Reaches P call login web =
    Reaches-map _ P _ (λ g q. absurd (ground (arith, q.0)))
      (Handled-Reaches call none login web _ (handle_public-Handled call none login web))
public-Reaches P call (confirm_login code state) web =
    Reaches-map _ P _ (λ g q. absurd (ground (arith, q.0)))
      (Handled-Reaches call none (confirm_login code state) web _
        (handle_public-Handled call none (confirm_login code state) web))
public-Reaches P call logout web = λ g e. absurd (ground (arith, e))
public-Reaches P call all_sessions web = λ g e. absurd (ground (arith, e))
public-Reaches P call create_api_token web = λ g e. absurd (ground (arith, e))
public-Reaches P call delete_all_sessions web = λ g e. absurd (ground (arith, e))
public-Reaches P call (delete_session x) web = λ g e. absurd (ground (arith, e))
public-Reaches P call (guild_route g') web = λ g e. absurd (ground (arith, e))

handle-Reaches :
    (call : Call) (header : Option String) (request : Request) (web : Web)
    → Reaches (ByManager call header request web) (handle call header request web)
unfolding with_client
handle-Reaches call header request web =
    let P = ByManager call header request web in
    handle-cases call request web (Reaches P) header (public-Reaches P call request web)
      (λ g e. absurd (ground (arith, e)))
      (λ t s h e. finish-Reaches P s.user _ (
        Reaches-map (λ g. (request ≡ guild_route g) × Permitted call g) P _
          (λ g (q, p). (q, (t, s, h, e), p))
          (Handled-Reaches call (some s.user) request (with_client call s web) _ (
            handle_authorized-Handled call (some s.user) request s (with_client call s web) t e
              refl))))

-- A route of a guild is reached only by a request for that guild that comes with a session, and only if
-- Discord gave a list of guilds in which the user may manage this one, in answer to the request or less than ten
-- seconds before.
pub handle-ByManager :
    (call : Call) (header : Option String) (request : Request) (web web' : Web) (g : ℕ)
    → handle call header request web ≡ some (web', guild_reached g)
    → ByManager call header request web g
handle-ByManager call header request web web' g e =
    subst (Reaches (ByManager call header request web)) e (handle-Reaches call header request web) g
      refl
