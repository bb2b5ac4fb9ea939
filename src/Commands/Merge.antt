-- ===== src/Commands/Merge.antt =====
-- The merge of the commands of a guild's scripts, `merge_script_commands` and `merge_command`, and
-- the commands of one script, `to_twilight_commands`, of cmd/scheduler/src/command_manager.rs.
use botloader.Prelude.{
  ℕ, ◌≡◌, refl, sym, ap, subst, ◌∙◌, none, some, List, [], ◌∷◌, ◌++◌, map, keep, String,
  if◌then◌else◌, Bool-cases, Option-cases, inl, inr,
}
use mathlib.Core.List.{map-append}
use botloader.Commands.{
  CommandOption, option, option_name, option_kind, absent, present, is_sub, both_groups, Command,
  CommandGroup, TwilightCommand, Script, merge_subgroups, merge_same_name, merge_options, all_sub,
  merge_command, merge_commands, merge_scripts, merge_script_commands, make_unknown_group,
  group_to_twilight_command, top_level, add_to_group, add_command, add_commands, is_ungrouped,
  to_twilight_commands,
}
use botloader.Commands.Names.{
  add_missing, add_missing-append, add_missing-Distinct, Distinct, update_or_push-names,
}

abbrev pub command_name : TwilightCommand → String
command_name c = c.name

abbrev pub names : List TwilightCommand → List String
names cs = map command_name cs

-- The names of the commands of all scripts, in the order of the scripts.
abbrev pub script_names : List Script → List String
script_names [] = []
script_names (s ∷ ss) = names s.commands ++ script_names ss

merge_command-name :
    (dst src : TwilightCommand) → command_name (merge_command dst src) ≡ command_name dst
unfolding merge_command
merge_command-name dst src = refl

merge_commands-names :
    (cs result : List TwilightCommand)
    → names (merge_commands cs result) ≡ add_missing (names result) (names cs)
unfolding merge_commands
merge_commands-names [] result = refl
merge_commands-names (c ∷ cs) result =
    merge_commands-names cs _
    ∙ ap (λ known. add_missing known (names cs))
        (update_or_push-names command_name (λ v. merge_command v c) (λ v. merge_command-name v c)
          c.name c result refl)

merge_scripts-names :
    (ss : List Script) (result : List TwilightCommand)
    → names (merge_scripts ss result) ≡ add_missing (names result) (script_names ss)
unfolding merge_scripts
merge_scripts-names [] result = refl
merge_scripts-names (s ∷ ss) result =
    merge_scripts-names ss _
    ∙ ap (λ known. add_missing known (script_names ss)) (merge_commands-names s.commands result)
    ∙ sym (add_missing-append (names result) (names s.commands) (script_names ss))

-- The commands registered for a guild carry each name that a command of one of its scripts has, once,
-- in the order of its first appearance over the scripts.
pub merge_script_commands-names :
    (scripts : List Script)
    → (names (merge_script_commands scripts) ≡ add_missing [] (script_names scripts))
      × Distinct (names (merge_script_commands scripts))
unfolding merge_script_commands
merge_script_commands-names scripts =
    let e : names (merge_script_commands scripts) ≡ add_missing [] (script_names scripts) =
      merge_scripts-names scripts [] in
    (e, subst Distinct (sym e) (add_missing-Distinct [] (script_names scripts) tt))

-- The sub options at the head of a list, up to the first parameter.
abbrev pub leading_subs : List CommandOption → List String
leading_subs [] = []
leading_subs (o ∷ os) = if is_sub (option_kind o) then option_name o ∷ leading_subs os else []

abbrev pub option_names : List CommandOption → List String
option_names os = map option_name os

merge_subgroups-name :
    (dst src : CommandOption) → option_name (merge_subgroups dst src) ≡ option_name dst
unfolding merge_subgroups
merge_subgroups-name (option _ _ _ _ _) (option _ _ _ _ absent) = refl
merge_subgroups-name (option _ _ _ _ _) (option _ _ _ _ (present os)) = refl

merge_same_name-name :
    (src dst : CommandOption) → option_name (merge_same_name src dst) ≡ option_name dst
unfolding merge_same_name
merge_same_name-name src dst = elim (Bool-cases (both_groups (option_kind dst) (option_kind src))) [
  | inl e ↦ rw e (merge_subgroups-name dst src)
  | inr e ↦ rw e
]

merge_options-names :
    (os dst : List CommandOption)
    → option_names (merge_options os dst) ≡ add_missing (option_names dst) (leading_subs os)
unfolding merge_options
merge_options-names [] dst = refl
merge_options-names (o ∷ os) dst = elim (Bool-cases (is_sub (option_kind o))) [
  | inl e ↦ rw e (
      merge_options-names os _
      ∙ ap (λ known. add_missing known (leading_subs os))
          (update_or_push-names option_name (merge_same_name o) (merge_same_name-name o)
            (option_name o) o dst refl))
  | inr e ↦ rw e
]

-- A command merged into one of the same name leaves its name and its kind; if all options of the
-- first are sub commands or groups, it gains the leading sub commands and groups of the second whose
-- name it has not yet, in their order and each once, and otherwise the names of its options stay.
pub merge_command-options :
    (dst src : TwilightCommand)
    → ((merge_command dst src).name ≡ dst.name)
      × ((merge_command dst src).kind ≡ dst.kind)
      × (option_names (merge_command dst src).options ≡ (
          if all_sub dst.options
          then add_missing (option_names dst.options) (leading_subs src.options)
          else option_names dst.options))
unfolding merge_command
merge_command-options dst src = (
  refl,
  refl,
  elim (Bool-cases (all_sub dst.options)) [
    | inl e ↦ rw e (merge_options-names src.options dst.options)
    | inr e ↦ rw e
  ],
)

-- The names of the groups that the commands name.
abbrev pub group_names : List Command → List String
group_names [] = []
group_names (c ∷ cs) = elim c.group [ none ↦ group_names cs | some g ↦ g ∷ group_names cs ]

abbrev pub title : Command → String
title c = c.name

abbrev pub group_title : CommandGroup → String
group_title g = g.name

add_to_group-name :
    (c : Command) (g : TwilightCommand) → command_name (add_to_group c g) ≡ command_name g
unfolding add_to_group
add_to_group-name c g = refl

make_unknown-name :
    (guild_id : ℕ) (c : Command) (name : String)
    → command_name (add_to_group c (make_unknown_group guild_id name)) ≡ name
unfolding add_to_group make_unknown_group
make_unknown-name guild_id c name = refl

add_commands-names :
    (guild_id : ℕ) (cs : List Command) (groups : List TwilightCommand)
    → names (add_commands guild_id cs groups) ≡ add_missing (names groups) (group_names cs)
unfolding add_commands add_command
add_commands-names guild_id [] groups = refl
add_commands-names guild_id (c ∷ cs) groups = elim (Option-cases c.group) [
  | inl e ↦ rw e (add_commands-names guild_id cs groups)
  | inr (name, e) ↦ rw e (
      add_commands-names guild_id cs _
      ∙ ap (λ known. add_missing known (group_names cs))
          (update_or_push-names command_name (add_to_group c) (add_to_group-name c) name
            (add_to_group c (make_unknown_group guild_id name)) groups
            (make_unknown-name guild_id c name)))
]

top_level-names : (cs : List Command) → names (map top_level cs) ≡ map title cs
unfolding top_level
top_level-names [] = refl
top_level-names (c ∷ cs) = rw (top_level-names cs)

groups-names :
    (guild_id : ℕ) (gs : List CommandGroup)
    → names (map (group_to_twilight_command guild_id) gs) ≡ map group_title gs
unfolding group_to_twilight_command
groups-names guild_id [] = refl
groups-names guild_id (g ∷ gs) = rw (groups-names guild_id gs)

-- A script contributes a command for each of its commands outside a group, in their order, then one
-- for each group that it declares, then one for each group that only a command names, once.
pub to_twilight_commands-names :
    (guild_id : ℕ) (commands : List Command) (groups : List CommandGroup)
    → names (to_twilight_commands guild_id commands groups)
      ≡ map title (keep is_ungrouped commands)
        ++ add_missing (map group_title groups) (group_names commands)
unfolding to_twilight_commands
to_twilight_commands-names guild_id commands groups =
    map-append command_name (map top_level (keep is_ungrouped commands))
      (add_commands guild_id commands (map (group_to_twilight_command guild_id) groups))
    ∙ rw (
      top_level-names (keep is_ungrouped commands),
      add_commands-names guild_id commands (map (group_to_twilight_command guild_id) groups),
      groups-names guild_id groups,
    )
