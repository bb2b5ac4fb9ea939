-- ===== src/CommandQueue.antt =====
-- cmd/scheduler/src/command_manager.rs: `Manager`, which registers the commands of a guild some time
-- after its scripts were loaded. `serialize` stands for the serialization of commands as JSON, `list`
-- for the store's answer on a guild's scripts, and `accepted` for whether Discord takes the commands.
-- `registered` is what Discord took last. Times are in milliseconds, and logs are left out.
pub mod Cache
mod Examples
use text.Mathlib.Text.{◌==◌}
use botloader.Prelude.{
  ℕ, ◌-◌, ◌*◌, Bool, true, false, Option, none, some, List, [], ◌∷◌, ◌++◌, String, Map, lookup,
  insert, ltb, if◌then◌else◌, is_number,
}
use botloader.Commands.{TwilightCommand, Script, merge_script_commands, update_or_push}
use botloader.VmSession.{ScriptMeta}

pub record LoadedScript : Type 0 where
  pub guild_id : ℕ
  pub meta : ScriptMeta

pub record PendingCheckGroup : Type 0 where
  pub guild_id : ℕ
  pub started : ℕ
  pub items : List LoadedScript

pub record CommandManager : Type 0 where
  pub pending_checks : List PendingCheckGroup
  pub cached_commands : Map String
  pub registered : Map (List TwilightCommand)

abbrev pub new : CommandManager
new = record { pending_checks = []; cached_commands = []; registered = [] }

unfoldable pub add_item : LoadedScript → PendingCheckGroup → PendingCheckGroup
unfolding update_or_push
add_item evt group = record group {
  items =
      update_or_push (λ v. is_number evt.meta.script_id v.meta.script_id) (λ v. evt) evt
        group.items;
}

unfoldable pub handle_evt : ℕ → LoadedScript → CommandManager → CommandManager
unfolding add_item
handle_evt now evt m = record m {
  pending_checks =
      update_or_push (λ e. is_number evt.guild_id e.guild_id) (add_item evt)
        (record { guild_id = evt.guild_id; items = evt ∷ []; started = now }) m.pending_checks;
}

-- What `update_guild_commands` does with the merged commands.
unfoldable pub register :
    (List TwilightCommand → String)
    → Bool
    → ℕ
    → List TwilightCommand
    → CommandManager
    → CommandManager
register serialize accepted guild_id merged m = record m {
  registered = if accepted then insert guild_id merged m.registered else m.registered;
  cached_commands = insert guild_id (serialize merged) m.cached_commands;
}

abbrev pub is_cached : String → Option String → Bool
is_cached serialized none = false
is_cached serialized (some current) = current == serialized

-- None is the error of the store.
unfoldable pub update_guild_commands :
    (List TwilightCommand → String)
    → (ℕ → Option (List Script))
    → Bool
    → ℕ
    → CommandManager
    → Option CommandManager
unfolding register
update_guild_commands serialize list accepted guild_id m = elim (list guild_id) [
  | none ↦ none
  | some scripts ↦
      if is_cached (serialize (merge_script_commands scripts)) (lookup guild_id m.cached_commands)
      then some m
      else some (register serialize accepted guild_id (merge_script_commands scripts) m)
]

abbrev put_back : PendingCheckGroup → CommandManager → CommandManager
put_back item m = record m { pending_checks = m.pending_checks ++ item ∷ [] }

-- The loop of `handle_tick`; the clock and Discord answer for each group.
unfoldable pub check_groups :
    (List TwilightCommand → String)
    → (ℕ → Option (List Script))
    → (ℕ → Bool)
    → (ℕ → ℕ)
    → List PendingCheckGroup
    → CommandManager
    → CommandManager
unfolding update_guild_commands
check_groups serialize list accepted clock [] m = m
check_groups serialize list accepted clock (item ∷ items) m =
    let due = ltb (10 * 1000) (clock item.guild_id - item.started) in
    let processed : CommandManager =
      elim (update_guild_commands serialize list (accepted item.guild_id) item.guild_id m) [
        | some m' ↦ m'
        | none ↦ put_back item m
      ] in
    check_groups serialize list accepted clock items (if due then processed else put_back item m)

unfoldable pub handle_tick :
    (List TwilightCommand → String)
    → (ℕ → Option (List Script))
    → (ℕ → Bool)
    → (ℕ → ℕ)
    → CommandManager
    → CommandManager
unfolding check_groups
handle_tick serialize list accepted clock m =
    check_groups serialize list accepted clock m.pending_checks (record m { pending_checks = [] })
