-- ===== src/Validation/Examples.antt =====
-- A command with two options.
use botloader.Prelude.{◌≡◌, ◌↔◌, true, false, none, [], ◌∷◌}
use botloader.Commands.{Command, CommandParameter, chat_input}
use botloader.Validation.{Unicode, validate, validate_command}
use botloader.Validation.Valid.{IsCommand, validate_command-IsCommand}

abbrev unicode : Unicode
unicode = record { is_name = λ text. true; is_file_name = λ text. true; lowercase = λ text. text }

abbrev target : CommandParameter
target = record { name = "target"; description = "who"; kind = 6; required = true }

abbrev reason : CommandParameter
reason = record { name = "reason"; description = "why"; kind = 3; required = false }

abbrev ban : Command
ban = record {
  name = "ban";
  description = "bans a member";
  options = target ∷ reason ∷ [];
  group = none;
  sub_group = none;
  kind = chat_input;
}

validate_command-IsCommand_example :
    (validate (validate_command unicode ban) ≡ []) ↔ IsCommand unicode ban
validate_command-IsCommand_example = validate_command-IsCommand unicode ban
