-- ===== src/Commands.antt =====
-- The pure part of cmd/scheduler/src/command_manager.rs: the Discord commands that the scripts of a
-- guild contribute, and how those of several scripts are merged. A parameter's bounds and channel
-- types, the localizations and the ids and flags that the code always leaves empty are left out.
pub mod Names
pub mod Merge
mod Examples
use text.Mathlib.Text.{◌==◌}
use botloader.Prelude.{
  ℕ, Bool, true, false, ◌&&◌, not, Option, none, some, List, [], ◌∷◌, ◌++◌, map, keep,
  if◌then◌else◌, String,
}

-- `CommandOptionType` of twilight; a parameter's kind is one number.
pub data OptionKind : Type 0 where
  sub_command sub_command_group : OptionKind
  parameter : ℕ → OptionKind

-- `CommandOption` of twilight: its name, its description, its kind, `required`, and its own options.
mutual
  pub data CommandOption : Type 0 where
    option : String → String → OptionKind → Option Bool → Options → CommandOption

  pub data Options : Type 0 where
    absent : Options
    present : OptionList → Options

  pub data OptionList : Type 0 where
    nil : OptionList
    cons : CommandOption → OptionList → OptionList

abbrev pub option_name : CommandOption → String
option_name (option name _ _ _ _) = name

abbrev pub option_kind : CommandOption → OptionKind
option_kind (option _ _ kind _ _) = kind

-- `Vec::push`.
unfoldable pub push : OptionList → CommandOption → OptionList
push nil o = cons o nil
push (cons x xs) o = cons x (push xs o)

unfoldable pub from_list : List CommandOption → OptionList
from_list [] = nil
from_list (x ∷ xs) = cons x (from_list xs)

unfoldable pub any_named : String → OptionList → Bool
any_named name nil = false
any_named name (cons x xs) = if option_name x == name then true else any_named name xs

pub data CommandKind : Type 0 where
  chat_input user message : CommandKind

pub record TwilightCommand : Type 0 where
  pub name : String
  pub description : String
  pub kind : CommandKind
  pub options : List CommandOption
  pub guild_id : Option ℕ

-- The contributions of a script.
pub record CommandParameter : Type 0 where
  pub name : String
  pub description : String
  pub kind : ℕ
  pub required : Bool

pub record Command : Type 0 where
  pub name : String
  pub description : String
  pub options : List CommandParameter
  pub group : Option String
  pub sub_group : Option String
  pub kind : CommandKind

pub record CommandSubGroup : Type 0 where
  pub name : String
  pub description : String

pub record CommandGroup : Type 0 where
  pub name : String
  pub description : String
  pub sub_groups : List CommandSubGroup

-- A script as the store keeps it, with the commands that it contributed.
pub record Script : Type 0 where
  pub id : ℕ
  pub commands : List TwilightCommand

abbrev pub group_desc_placeholder : String
group_desc_placeholder = "no description"

unfoldable pub from_parameter : CommandParameter → CommandOption
from_parameter p = option p.name p.description (parameter p.kind) (some p.required) absent

abbrev no_options : List CommandOption → Options
no_options [] = absent
no_options (x ∷ xs) = present (from_list (x ∷ xs))

-- `impl From<Command> for CommandOption`.
unfoldable pub from_command : Command → CommandOption
unfolding from_parameter from_list
from_command c =
    option c.name c.description sub_command none (no_options (map from_parameter c.options))

-- `iter_mut().find(test)` with a change to the entry that is found; none if there is no such entry.
unfoldable pub update_first {ℓ} : {A : Type ℓ} → (A → Bool) → (A → A) → List A → Option (List A)
update_first test f [] = none
update_first test f (x ∷ xs) =
    let rest : Option (List _) = elim (update_first test f xs) [
      | none ↦ none
      | some ys ↦ some (x ∷ ys)
    ] in
    if test x then some (f x ∷ xs) else rest

-- The same, with a new entry pushed where none is found.
unfoldable pub update_or_push {ℓ} : {A : Type ℓ} → (A → Bool) → (A → A) → A → List A → List A
unfolding update_first
update_or_push test f new xs = elim (update_first test f xs) [
  | some ys ↦ ys
  | none ↦ xs ++ new ∷ []
]

unfoldable pub make_unknown_group : ℕ → String → TwilightCommand
make_unknown_group guild_id name = record {
  name = name;
  description = group_desc_placeholder;
  kind = chat_input;
  options = [];
  guild_id = some guild_id;
}

unfoldable pub group_to_twilight_command : ℕ → CommandGroup → TwilightCommand
group_to_twilight_command guild_id group = record {
  name = group.name;
  description = group.description;
  kind = chat_input;
  options =
      map (λ sg. option sg.name sg.description sub_command_group none absent) group.sub_groups;
  guild_id = some guild_id;
}

-- A top-level command.
unfoldable pub top_level : Command → TwilightCommand
unfolding from_parameter
top_level c = record {
  name = c.name;
  description = elim c.kind [ chat_input ↦ c.description | _ ↦ "" ];
  kind = c.kind;
  options = map from_parameter c.options;
  guild_id = none;
}

unfoldable pub add_to_sub_group : Command → CommandOption → CommandOption
unfolding from_command push
add_to_sub_group c (option name desc kind req absent) =
    option name desc kind req (present (cons (from_command c) nil))
add_to_sub_group c (option name desc kind req (present os)) =
    option name desc kind req (present (push os (from_command c)))

unfoldable pub new_sub_group : Command → String → CommandOption
unfolding from_command
new_sub_group c name =
    option name group_desc_placeholder sub_command_group none (present (cons (from_command c) nil))

-- The command goes into its sub group, which is made where it is missing, or into the group itself.
unfoldable pub add_to_group : Command → TwilightCommand → TwilightCommand
unfolding from_command update_or_push add_to_sub_group new_sub_group
add_to_group c group = record group {
  options = elim c.sub_group [
    | some name ↦
        update_or_push (λ o. option_name o == name) (add_to_sub_group c) (new_sub_group c name)
          group.options
    | none ↦ group.options ++ from_command c ∷ []
  ];
}

-- One round of the loop over the commands.
unfoldable pub add_command : ℕ → Command → List TwilightCommand → List TwilightCommand
unfolding update_or_push add_to_group make_unknown_group
add_command guild_id c groups = elim c.group [
  | none ↦ groups
  | some name ↦
      update_or_push (λ g. g.name == name) (add_to_group c)
        (add_to_group c (make_unknown_group guild_id name)) groups
]

unfoldable pub add_commands : ℕ → List Command → List TwilightCommand → List TwilightCommand
unfolding add_command
add_commands guild_id [] groups = groups
add_commands guild_id (c ∷ cs) groups = add_commands guild_id cs (add_command guild_id c groups)

abbrev pub is_ungrouped : Command → Bool
is_ungrouped c = elim c.group [ none ↦ true | some g ↦ false ]

unfoldable pub to_twilight_commands : ℕ → List Command → List CommandGroup → List TwilightCommand
unfolding add_commands top_level group_to_twilight_command keep
to_twilight_commands guild_id commands groups =
    map top_level (keep is_ungrouped commands)
    ++ add_commands guild_id commands (map (group_to_twilight_command guild_id) groups)

abbrev pub is_sub : OptionKind → Bool
is_sub sub_command = true
is_sub sub_command_group = true
is_sub (parameter k) = false

-- A description takes the place of the placeholder.
unfoldable pub merge_description : String → String → String
merge_description dst src =
    if (dst == group_desc_placeholder) && not (src == group_desc_placeholder) then src else dst

-- The loop of `merge_subgroups` over the options of the source, which `whole` are.
unfoldable pub merge_sub_options : Options → OptionList → Options → Options
unfolding any_named push
merge_sub_options whole nil dst = dst
merge_sub_options whole (cons o os) absent = merge_sub_options whole os whole
merge_sub_options whole (cons o os) (present ds) =
    merge_sub_options whole os (present (if any_named (option_name o) ds then ds else push ds o))

unfoldable pub merge_subgroups : CommandOption → CommandOption → CommandOption
unfolding merge_description merge_sub_options
merge_subgroups (option name desc kind req dst) (option _ desc' _ _ absent) =
    option name (merge_description desc desc') kind req dst
merge_subgroups (option name desc kind req dst) (option _ desc' _ _ (present os)) =
    option name (merge_description desc desc') kind req (merge_sub_options (present os) os dst)

abbrev pub both_groups : OptionKind → OptionKind → Bool
both_groups sub_command_group sub_command_group = true
both_groups _ _ = false

-- An option of the same name: only two sub groups are merged.
unfoldable pub merge_same_name : CommandOption → CommandOption → CommandOption
unfolding merge_subgroups
merge_same_name src dst =
    if both_groups (option_kind dst) (option_kind src) then merge_subgroups dst src else dst

-- The loop of `merge_command` over the options of the source; it ends at the first parameter.
unfoldable pub merge_options : List CommandOption → List CommandOption → List CommandOption
unfolding update_or_push merge_same_name
merge_options [] dst = dst
merge_options (o ∷ os) dst =
    let rest =
      merge_options os
        (update_or_push (λ d. option_name d == option_name o) (merge_same_name o) o dst) in
    if is_sub (option_kind o) then rest else dst

unfoldable pub all_sub : List CommandOption → Bool
all_sub [] = true
all_sub (o ∷ os) = is_sub (option_kind o) && all_sub os

unfoldable pub merge_command : TwilightCommand → TwilightCommand → TwilightCommand
unfolding merge_description merge_options all_sub
merge_command dst src = record dst {
  description = merge_description dst.description src.description;
  options = if all_sub dst.options then merge_options src.options dst.options else dst.options;
}

unfoldable pub merge_commands : List TwilightCommand → List TwilightCommand → List TwilightCommand
unfolding update_or_push merge_command
merge_commands [] result = result
merge_commands (c ∷ cs) result =
    merge_commands cs (update_or_push (λ v. v.name == c.name) (λ v. merge_command v c) c result)

unfoldable pub merge_scripts : List Script → List TwilightCommand → List TwilightCommand
unfolding merge_commands
merge_scripts [] result = result
merge_scripts (s ∷ ss) result = merge_scripts ss (merge_commands s.commands result)

unfoldable pub merge_script_commands : List Script → List TwilightCommand
unfolding merge_scripts
merge_script_commands scripts = merge_scripts scripts []
