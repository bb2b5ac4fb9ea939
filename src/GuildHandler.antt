-- ===== src/GuildHandler.antt =====
-- cmd/scheduler/src/guild_handler.rs: the loop of a guild's handler, over the actions of its session and
-- the commands of the scheduler. `slots` is the store's answer about the guild's premium slots;
-- `is_guild_create` tells which events of Discord are about a new guild, and `to_dispatch` converts
-- the others, as cmd/scheduler/src/dispatch_conv.rs does. The tier that the handler shares with
-- its session is the session's field. `none` is a panic, or a wait that does not end.
pub mod Tiers
mod Examples
use botloader.Prelude.{
  ℕ, zero, suc, Bool, true, false, Option, none, some, List, [], ◌∷◌, ◌++◌, String, if◌then◌else◌,
  ◌>>=◌, is_empty,
}
use botloader.WorkerPool.{PremiumSlotTier, lite, premium}
use botloader.GuildScheduler.{
  VmSessionEvent, GuildEvent, guild_delete, other, GuildCommand, broker_event, reload_scripts,
  purge_cache, shutdown,
}
use botloader.VmSession.{
  PremiumTierState, fetched, unknown, EventData, discord_event, dispatch, Env, Script, VmSession,
  Offers, load_contribs,
}
use botloader.VmSession.Actions.{
  NextAction, dispatch_worker_evt, handle_action, next_action, complete_worker, shutdown_rounds,
  init_timers, load_guild_scripts, reload_guild_scripts,
}

unfoldable pub is_higher_than : PremiumSlotTier → PremiumSlotTier → Bool
is_higher_than premium lite = true
is_higher_than _ _ = false

-- The loop over the slots.
unfoldable pub highest_tier : Option PremiumSlotTier → List PremiumSlotTier → Option PremiumSlotTier
unfolding is_higher_than
highest_tier highest [] = highest
highest_tier none (tier ∷ slots) = highest_tier (some tier) slots
highest_tier (some current_highest) (tier ∷ slots) =
    highest_tier (if is_higher_than tier current_highest then some tier else some current_highest)
      slots

unfoldable pub fetch_premium_tier : Option (List PremiumSlotTier) → VmSession → VmSession
unfolding highest_tier
fetch_premium_tier none s = record s { premium_tier = unknown }
fetch_premium_tier (some slots) s = record s { premium_tier = fetched (highest_tier none slots) }

-- What a round of the loop is given: the answers of the stores, the workers that the pool offers, and
-- how the guild's scripts are read.
pub record Round : Type 0 where
  pub env : Env
  pub offers : Offers
  pub get_scripts : List (Option (List Script))
  pub get_next_task_time : List ℕ → List String → Option (Option ℕ)

module _ (is_guild_create : GuildEvent → Bool)
    (to_dispatch : GuildEvent → Option (String × ℕ)) where
  -- `send_discord_guild_event`.
  unfoldable pub send_discord_guild_event : Round → GuildEvent → VmSession → Option VmSession
  unfolding dispatch_worker_evt
  send_discord_guild_event r evt s = elim (to_dispatch evt) [
    | none ↦ some s
    | some (name, data') ↦ do
      (s', offers') ←
          dispatch_worker_evt r.env r.offers name (discord_event data') (dispatch none) s
      some s'
  ]

  unfoldable pub handle_broker_event : Round → GuildEvent → VmSession → Option VmSession
  unfolding send_discord_guild_event
  handle_broker_event r evt s =
      if is_guild_create evt
      then some s
      else elim evt.kind [ guild_delete ↦ none | other ↦ send_discord_guild_event r evt s ]

  unfoldable pub handle_guild_command : Round → GuildCommand → VmSession → Option VmSession
  unfolding handle_broker_event reload_guild_scripts
  handle_guild_command r (broker_event evt) s = handle_broker_event r evt s
  handle_guild_command r reload_scripts s = do
    (s', offers') ← reload_guild_scripts r.env r.offers r.get_scripts s
    some s'
  handle_guild_command r shutdown s = none
  handle_guild_command r purge_cache s = some s

  -- What is ready when `next_event` selects: an action of the session, or a command, or the end of the
  -- commands.
  pub data Ready : Type 0 where
    vm_action : NextAction → Ready
    guild_command : Option GuildCommand → Ready

  -- How a round ends: the loop goes on, or ends with what it tells the scheduler.
  pub data Progress : Type 0 where
    continues : VmSession → Progress
    ends : Option VmSessionEvent → VmSession → Progress

  unfoldable pub handle_ready : Round → Ready → VmSession → Option Progress
  unfolding next_action handle_action handle_guild_command
  handle_ready r (guild_command none) s = some (ends none s)
  handle_ready r (guild_command (some shutdown)) s = some (ends none s)
  handle_ready r (guild_command (some cmd)) s = do
    s' ← handle_guild_command r cmd s
    some (continues s')
  handle_ready r (vm_action select) s =
      elim (handle_action r.env r.offers (next_action r.env.now select s) s) [
        | none ↦ none
        | some (s', offers', none) ↦ some (continues s')
        | some (s', offers', some evt) ↦ some (ends (some evt) s')
      ]

  unfoldable pub round : Round → Ready → VmSession → Option Progress
  unfolding handle_ready init_timers
  round r ready s = handle_ready r ready (init_timers r.get_next_task_time r.env.now s)

  -- The loop of `run`, as long as there are rounds.
  unfoldable pub rounds : List (Round × Ready) → VmSession → Option Progress
  unfolding round
  rounds [] s = some (continues s)
  rounds ((r, ready) ∷ rs) s = elim (round r ready s) [
    | none ↦ none
    | some (continues s') ↦ rounds rs s'
    | some (ends evt s') ↦ some (ends evt s')
  ]

  unfoldable pub start : Option (List PremiumSlotTier) → Round → VmSession → Option VmSession
  unfolding fetch_premium_tier load_guild_scripts load_contribs
  start slots r s = do
    s' ← load_guild_scripts r.get_scripts (fetch_premium_tier slots s)
    (s'', offers') ← load_contribs r.env r.offers s'
    some s''

  -- `run`: what the handler tells the scheduler, and its session after `shutdown`, if that ended.
  unfoldable pub run :
      Option (List PremiumSlotTier)
      → Round
      → List (Round × Ready)
      → List (Env × NextAction)
      → VmSession
      → Option (Option VmSessionEvent × VmSession × Bool)
  unfolding start rounds complete_worker shutdown_rounds
  run slots r rs closing s = do
    started ← start slots r s
    elim (rounds rs started) [
      | none ↦ none
      | some (continues s') ↦ some (none, s', false)
      | some (ends evt s') ↦ do
        told ← complete_worker r.env s'
        (s'', done) ← shutdown_rounds closing told
        some (evt, s'', done)
    ]
