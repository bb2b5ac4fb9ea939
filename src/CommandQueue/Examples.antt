-- ===== src/CommandQueue/Examples.antt =====
-- A guild with one script, whose commands Discord refuses at first or takes.
use botloader.Prelude.{
  ℕ, ◌≡◌, refl, true, false, Option, none, some, List, [], ◌∷◌, String, lookup, inl,
}
use botloader.Commands.{chat_input, TwilightCommand, Script}
use botloader.CommandQueue.{CommandManager, new, update_guild_commands}
use botloader.CommandQueue.Cache.{IsFaithful, update_guild_commands-again}

abbrev ping : TwilightCommand
ping = record {
  name = "ping";
  description = "pong";
  kind = chat_input;
  options = [];
  guild_id = none;
}

abbrev scripts : List Script
scripts = record { id = 1; commands = ping ∷ [] } ∷ []

abbrev list : ℕ → Option (List Script)
list guild_id = some scripts

abbrev serialize : List TwilightCommand → String
serialize [] = ""
serialize (c ∷ cs) = c.name

update_guild_commands-again_example :
    (m' : CommandManager) × (update_guild_commands serialize list false 7 new ≡ some m')
    × (update_guild_commands serialize list true 7 m' ≡ some m')
update_guild_commands-again_example =
    update_guild_commands-again serialize list 7 scripts false true new refl

new-IsFaithful : IsFaithful serialize list 7 scripts new
unfolding lookup
new-IsFaithful = inl refl
