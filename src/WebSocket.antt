-- ===== src/WebSocket.antt =====
-- cmd/webapi/src/routes/ws.rs: the connection over which the web site of a user reads the logs of
-- guilds. A connection has the user whose session it belongs to once it is authorized, the guilds whose
-- logs it streams, and what went out to the client. A `Call` has what the rest of the world
-- answers while a message is handled: the store of sessions, Discord's guilds of a user with the list of
-- them that the user's Discord client keeps (components/discordoauthwrapper/src/twilight_api_provider.rs), the
-- bot, the encoding, and whether the client is still there. That a Discord client waits for its rate limit and
-- refreshes its token is in WebSessions/Client.
pub mod Access
pub mod Handlers
pub mod Runs
pub mod Unsubscribe
mod Examples
use botloader.Prelude.{
  ℕ, Bool, true, false, ◌||◌, Option, none, some, List, [], ◌∷◌, ◌++◌, String, keep, ◌==◌,
  if◌then◌else◌, ltb,
}

pub data WsCloseReason : Type 0 where
  client_disconnected internal_error json_decode_error json_encode_error bad_token : WsCloseReason
  not_authorized auth_when_authorized unknown_guild guild_missing_access bot_rpc_error :
      WsCloseReason

unfoldable pub code : WsCloseReason → ℕ
code client_disconnected = 1000
code internal_error = 1011
code json_decode_error = 1007
code json_encode_error = 4005
code bad_token = 4001
code not_authorized = 4000
code auth_when_authorized = 4002
code unknown_guild = 4003
code guild_missing_access = 4004
code bot_rpc_error = 4006

pub data WsCommand : Type 0 where
  authorize : String → WsCommand
  subscribe_logs un_subscribe_logs : ℕ → WsCommand

-- What goes to the client; an entry of a log is the guild that it names and its text.
pub data Sent : Type 0 where
  auth_success : ℕ → Sent
  subscriptions_updated : List ℕ → Sent
  script_log_message : ℕ → String → Sent
  ping_sent : Sent
  pong_sent : ℕ → Sent
  close_frame : ℕ → Sent

-- What comes from the client, a command as it is decoded.
pub data Message : Type 0 where
  text binary : Option WsCommand → Message
  ping : ℕ → Message
  pong close_message : Message

-- A guild of the user, with the two permissions that count.
pub record UserGuild : Type 0 where
  pub id : ℕ
  pub administrator : Bool
  pub manage_guild : Bool
  pub owner : Bool

-- What comes of asking Discord for the guilds of a user: an error, a body that cannot be decoded, which is
-- unwrapped, or the guilds.
pub data Guilds : Type 0 where
  failed undecodable : Guilds
  listed : List UserGuild → Guilds

-- The list that a Discord client keeps has an age in milliseconds.
pub record Call : Type 0 where
  pub get_session : String → Option (Option ℕ)
  pub user_guilds : ℕ → Guilds
  pub cached_guilds : ℕ → Option (ℕ × List UserGuild)
  pub stream_opens : ℕ → Bool
  pub encodes : Bool
  pub alive : Bool

pub record WsConn : Type 0 where
  pub authorized : Option ℕ
  pub active_log_streams : List ℕ
  pub sent : List Sent

abbrev pub new : WsConn
new = record { authorized = none; active_log_streams = []; sent = [] }

pub data WsResult : Type 0 where
  done panicked : WsResult
  refused : WsCloseReason → WsResult

-- The next operation of a chain of `?`.
abbrev pub and_then : WsConn × WsResult → (WsConn → WsConn × WsResult) → WsConn × WsResult
and_then (c, done) next = next c
and_then (c, r) next = (c, r)

unfoldable pub send : Call → Sent → WsConn → WsConn × WsResult
send call msg c =
    if call.alive
    then (record c { sent = c.sent ++ msg ∷ [] }, done)
    else (c, refused client_disconnected)

unfoldable pub send_event : Call → Sent → WsConn → WsConn × WsResult
unfolding send
send_event call evt c = if call.encodes then send call evt c else (c, refused json_encode_error)

unfoldable pub close : Call → WsCloseReason → WsConn → WsConn
unfolding send code
close call client_disconnected c = c
close call reason c = (send call (close_frame (code reason)) c).0

unfoldable pub is_subscribed : ℕ → List ℕ → Bool
is_subscribed g [] = false
is_subscribed g (h ∷ hs) = if h == g then true else is_subscribed g hs

unfoldable pub find_guild : ℕ → List UserGuild → Option UserGuild
find_guild g [] = none
find_guild g (ug ∷ ugs) = let rest = find_guild g ugs in if ug.id == g then some ug else rest

-- A list is served for ten seconds after Discord gave it.
unfoldable pub fresh_guilds : Option (ℕ × List UserGuild) → Option (List UserGuild)
fresh_guilds none = none
fresh_guilds (some (age, ugs)) = if ltb age 10000 then some ugs else none

unfoldable pub current_user_guilds : Call → ℕ → Guilds
unfolding fresh_guilds
current_user_guilds call user = elim (fresh_guilds (call.cached_guilds user)) [
  | some ugs ↦ listed ugs
  | none ↦ call.user_guilds user
]

unfoldable pub check_guild_acces : Call → ℕ → WsConn → WsResult
unfolding find_guild current_user_guilds
check_guild_acces call g c = elim c.authorized [
  | none ↦ panicked
  | some user ↦ elim (current_user_guilds call user) [
    | failed ↦ refused internal_error
    | undecodable ↦ panicked
    | listed ugs ↦ elim (find_guild g ugs) [
      | none ↦ refused unknown_guild
      | some ug ↦
          if ug.administrator || ug.manage_guild
          then done
          else if ug.owner
          then done
          else refused guild_missing_access
    ]
  ]
]

unfoldable pub emit_subscriptions : Call → WsConn → WsConn × WsResult
unfolding send_event
emit_subscriptions call c = send_event call (subscriptions_updated c.active_log_streams) c

-- The stream of a guild that the client may read.
unfoldable pub open_stream : Call → ℕ → WsConn → WsConn × WsResult
unfolding emit_subscriptions
open_stream call g c =
    if call.stream_opens g
    then emit_subscriptions call (record c { active_log_streams = c.active_log_streams ++ g ∷ [] })
    else (c, refused bot_rpc_error)

unfoldable pub subscribe : Call → ℕ → WsConn → WsConn × WsResult
unfolding is_subscribed check_guild_acces open_stream
subscribe call g c =
    if is_subscribed g c.active_log_streams
    then (c, done)
    else and_then (c, check_guild_acces call g c) (open_stream call g)

unfoldable pub unsubscribe : Call → ℕ → WsConn → WsConn × WsResult
unfolding keep emit_subscriptions
unsubscribe call g c =
    emit_subscriptions call
      (record c { active_log_streams = keep (λ h. h == g) c.active_log_streams })

unfoldable pub do_login : Call → String → WsConn → WsConn × WsResult
unfolding send_event
do_login call token c = elim (call.get_session token) [
  | none ↦ (c, refused internal_error)
  | some none ↦ (c, refused bad_token)
  | some (some user) ↦
      and_then (send_event call (auth_success user) c)
        (λ c'. (record c' { authorized = some user }, done))
]

unfoldable pub handle_ws_command : Call → WsCommand → WsConn → WsConn × WsResult
unfolding do_login subscribe unsubscribe
handle_ws_command call cmd c = elim c.authorized [
  | none ↦ elim cmd [ authorize token ↦ do_login call token c | _ ↦ (c, refused not_authorized) ]
  | some user ↦ elim cmd [
    | subscribe_logs g ↦ subscribe call g c
    | un_subscribe_logs g ↦ unsubscribe call g c
    | authorize token ↦ (c, refused auth_when_authorized)
  ]
]

abbrev pub handle_decoded : Call → Option WsCommand → WsConn → WsConn × WsResult
unfolding handle_ws_command
handle_decoded call none c = (c, refused json_decode_error)
handle_decoded call (some cmd) c = handle_ws_command call cmd c

unfoldable pub handle_ws_message : Call → Message → WsConn → WsConn × WsResult
unfolding handle_decoded send
handle_ws_message call (text cmd) c = handle_decoded call cmd c
handle_ws_message call (binary cmd) c = handle_decoded call cmd c
handle_ws_message call (ping d) c = send call (pong_sent d) c
handle_ws_message call pong c = (c, done)
handle_ws_message call close_message c = (c, refused client_disconnected)

-- Whether the connection goes on.
pub data Progress : Type 0 where
  goes_on ends panics : WsConn → Progress

unfoldable pub or_close : Call → WsConn × WsResult → Progress
unfolding close
or_close call (c, done) = goes_on c
or_close call (c, refused reason) = ends (close call reason c)
or_close call (c, panicked) = panics c

-- An item of the stream of a guild: an error, an entry with a level that does not exist or without a guild,
-- on which the conversion of components/botrpc/src/proto.rs panics, or an entry, with the guild that it names
-- and its text.
pub data LogItem : Type 0 where
  stream_error invalid_entry : LogItem
  entry : ℕ → String → LogItem

-- What `run` waits for: a message of the client, an item of the stream of a guild, the end of such a stream, which leaves the streams, or the time for a ping. Only the streams that the
-- connection has can be ready.
pub data Input : Type 0 where
  received : Option (Option Message) → Input
  log_item : ℕ → LogItem → Input
  stream_ends : ℕ → Input
  ping_tick : Input

unfoldable pub handle_input : Call → Input → WsConn → Progress
unfolding handle_ws_message or_close send_event send close is_subscribed keep
handle_input call (received (some (some msg))) c = or_close call (handle_ws_message call msg c)
handle_input call (received _) c = ends c
handle_input call (log_item g item) c =
    if is_subscribed g c.active_log_streams
    then elim item [
      | entry h message ↦ or_close call (send_event call (script_log_message h message) c)
      | stream_error ↦ ends (close call bot_rpc_error c)
      | invalid_entry ↦ panics c
    ]
    else goes_on c
handle_input call (stream_ends g) c = goes_on (record c {
  active_log_streams = keep (λ h. if h == g then false else true) c.active_log_streams;
})
handle_input call ping_tick c = or_close call (send call ping_sent c)

unfoldable pub run : List (Call × Input) → WsConn → Progress
unfolding handle_input
run [] c = goes_on c
run ((call, input) ∷ rest) c = elim (handle_input call input c) [
  | goes_on c' ↦ run rest c'
  | ends c' ↦ ends c'
  | panics c' ↦ panics c'
]
