-- ===== src/WebSocket/Access.antt =====
-- cmd/webapi/src/routes/ws.rs: whose logs a client gets to see.
use botloader.Prelude.{
  ℕ, ◌≡◌, sym, subst, ◌⊎◌, inl, inr, true, ◌||◌, Option, none, some, List, [], ◌∷◌, String, All,
  Any, ◌==◌, if◌then◌else◌, if_either, Bool-cases, Option-cases, arith, ltb, ◌<◌, refl,
}
use botloader.WebSocket.{
  guild_missing_access, WsCommand, authorize, subscribe_logs, un_subscribe_logs, Sent, auth_success,
  subscriptions_updated, script_log_message, text, binary, UserGuild, Guilds, failed, undecodable,
  listed, current_user_guilds, entry, log_item, fresh_guilds, Call, WsConn, WsResult, done,
  panicked, refused, find_guild, check_guild_acces, unsubscribe, handle_ws_command, Input, received,
}

abbrev pub Step : Type 0
Step = Call × Input

-- The command that comes with an input.
abbrev pub asks : Input → Option WsCommand
asks (received (some (some (text cmd)))) = cmd
asks (received (some (some (binary cmd)))) = cmd
asks _ = none

-- In this step the client shows a token of a session of that user.
abbrev pub LogsIn : ℕ → Step → Type 0
LogsIn user (call, input) =
    (token : String) × (asks input ≡ some (authorize token))
    × (call.get_session token ≡ some (some user))

-- Among a user's guilds, one that the user owns or manages.
abbrev pub Manages : ℕ → List UserGuild → Type 0
Manages g ugs =
    Any (λ ug. (ug.id ≡ g) × ((ug.administrator || ug.manage_guild) ≡ true ⊎ ug.owner ≡ true)) ugs

-- These are the guilds that Discord answers for the user, or answered less than ten seconds before.
abbrev pub Given : Call → ℕ → List UserGuild → Type 0
Given call user ugs =
    (call.user_guilds user ≡ listed ugs)
    ⊎ ((age : ℕ) × (call.cached_guilds user ≡ some (age, ugs)) × (age < 10000))

current_user_guilds-Given :
    (call : Call) (user : ℕ) (ugs : List UserGuild)
    → current_user_guilds call user ≡ listed ugs
    → Given call user ugs
unfolding current_user_guilds fresh_guilds
current_user_guilds-Given call user ugs e = elim (Option-cases (call.cached_guilds user)) [
  | inl n ↦ inl (ground (arith, e, n))
  | inr ((age, kept), s) ↦ elim (Bool-cases (ltb age 10000)) [
    | inl t ↦
        let same : kept ≡ ugs = ground (arith, e, s, t) in
        inr (age, subst (λ k. call.cached_guilds user ≡ some (age, k)) same s, ground (arith, t))
    | inr f ↦ inl (ground (arith, e, s, f))
  ]
]

-- In this step the client asks for the logs of the guild while its user manages it, as far as the
-- guilds tell that the Discord client gives.
abbrev pub Reads : ℕ → ℕ → Step → Type 0
Reads user g (call, input) =
    (asks input ≡ some (subscribe_logs g))
    × ((ugs : List UserGuild) × Given call user ugs × Manages g ugs)

abbrev pub Entitled : List Step → ℕ → Type 0
Entitled steps g = (user : ℕ) × Any (LogsIn user) steps × Any (Reads user g) steps

-- In this step the stream of the guild gives that entry.
abbrev pub Gives : ℕ → ℕ → String → Step → Type 0
Gives g h message (call, input) = input ≡ log_item g (entry h message)

-- What is shown to a client that did those steps: an entry comes from the stream of a guild that
-- the client may read.
abbrev pub Shown : List Step → Sent → Type 0
Shown steps (auth_success user) = Any (LogsIn user) steps
Shown steps (subscriptions_updated gs) = All (Entitled steps) gs
Shown steps (script_log_message h message) =
    (g : ℕ) × Entitled steps g × Any (Gives g h message) steps
Shown steps _ = Unit

pub record Proper (steps : List Step) (c : WsConn) : Type 0 where
  pub user : (user : ℕ) → c.authorized ≡ some user → Any (LogsIn user) steps
  pub streams : All (Entitled steps) c.active_log_streams
  pub shown : All (Shown steps) c.sent

abbrev pub Keeps : List Step → WsConn × WsResult → Type 0
Keeps steps (c, r) = Proper steps c

pub handled_unsubscribe :
    (call : Call) (g user : ℕ) (c : WsConn)
    → c.authorized ≡ some user
    → handle_ws_command call (un_subscribe_logs g) c ≡ unsubscribe call g c
unfolding handle_ws_command
handled_unsubscribe call g user c a = ground (arith, a)

found-Manages :
    (g : ℕ) (ugs : List UserGuild) (ug : UserGuild)
    → find_guild g ugs ≡ some ug
    → ((ug.administrator || ug.manage_guild) ≡ true ⊎ ug.owner ≡ true)
    → Manages g ugs
unfolding find_guild
found-Manages g [] ug e m = absurd (ground (arith, e))
found-Manages g (x ∷ xs) ug e m = elim (Bool-cases (x.id == g)) [
  | inl t ↦
      let same : x ≡ ug = ground (arith, e, t) in
      inl (
        ground (arith, t),
        subst (λ y. (y.administrator || y.manage_guild) ≡ true ⊎ y.owner ≡ true) (sym same) m,
      )
  | inr t ↦ inr (found-Manages g xs ug (ground (arith, e, t)) m)
]

-- What a check that was passed says.
abbrev pub Passed : Call → ℕ → ℕ → WsResult → Type 0
Passed call user g done = (ugs : List UserGuild) × Given call user ugs × Manages g ugs
Passed call user g (refused reason) = Unit
Passed call user g panicked = Unit

checked_with :
    (call : Call) (g user : ℕ) (c : WsConn)
    → c.authorized ≡ some user
    → (guilds : Guilds) → current_user_guilds call user ≡ guilds
    → Passed call user g (check_guild_acces call g c)
unfolding check_guild_acces
checked_with call g user c a failed e = simp (check_guild_acces, a, e) tt
checked_with call g user c a undecodable e = simp (check_guild_acces, a, e) tt
checked_with call g user c a (listed ugs) e =
    let m : Given call user ugs = current_user_guilds-Given call user ugs e in
    elim (Option-cases (find_guild g ugs)) [
      | inl n ↦ simp (check_guild_acces, a, e, n) tt
      | inr (ug, f) ↦
          simp (check_guild_acces, a, e, f)
            (if_either (Passed call user g) (ug.administrator || ug.manage_guild) done
              (if ug.owner then done else refused guild_missing_access)
              (λ t. (ugs, m, found-Manages g ugs ug f (inl t)))
              (λ t.
                if_either (Passed call user g) ug.owner done (refused guild_missing_access)
                  (λ o. (ugs, m, found-Manages g ugs ug f (inr o))) (λ o. tt)))
    ]

pub check_guild_acces-Passed :
    (call : Call) (g user : ℕ) (c : WsConn)
    → c.authorized ≡ some user
    → Passed call user g (check_guild_acces call g c)
check_guild_acces-Passed call g user c a =
    checked_with call g user c a (current_user_guilds call user) refl
