-- ===== src/Commands/Examples.antt =====
-- Two scripts with a command of the same name, and one script with a group and a sub group.
use botloader.Prelude.{◌≡◌, none, some, List, [], ◌∷◌, ◌++◌, map, keep}
use botloader.Commands.{
  option, absent, sub_command, sub_command_group, chat_input, TwilightCommand, Script, Command,
  CommandGroup, to_twilight_commands, is_ungrouped,
}
use botloader.Commands.Names.{add_missing}
use botloader.Commands.Merge.{names, title, group_title, group_names, to_twilight_commands-names}

abbrev admin : TwilightCommand
admin = record {
  name = "admin";
  description = "no description";
  kind = chat_input;
  options = option "ban" "bans" sub_command none absent ∷ [];
  guild_id = some 7;
}

abbrev admin_again : TwilightCommand
admin_again = record {
  name = "admin";
  description = "for admins";
  kind = chat_input;
  options =
      option "ban" "bans too" sub_command none absent
      ∷ option "role" "roles" sub_command_group none absent
      ∷ [];
  guild_id = some 7;
}

abbrev two_scripts : List Script
two_scripts =
    record { id = 1; commands = admin ∷ [] } ∷ record { id = 2; commands = admin_again ∷ [] } ∷ []

abbrev ping : Command
ping = record {
  name = "ping";
  description = "pong";
  options = [];
  group = none;
  sub_group = none;
  kind = chat_input;
}

abbrev play : Command
play = record {
  name = "play";
  description = "plays";
  options = [];
  group = some "music";
  sub_group = some "queue";
  kind = chat_input;
}

abbrev music : CommandGroup
music = record { name = "music"; description = "music"; sub_groups = [] }

to_twilight_commands-names_example :
    names (to_twilight_commands 7 (play ∷ ping ∷ []) (music ∷ []))
    ≡ map title (keep is_ungrouped (play ∷ ping ∷ []))
      ++ add_missing (map group_title (music ∷ [])) (group_names (play ∷ ping ∷ []))
to_twilight_commands-names_example = to_twilight_commands-names 7 (play ∷ ping ∷ []) (music ∷ [])
