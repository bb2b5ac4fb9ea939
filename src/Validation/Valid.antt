-- ===== src/Validation/Valid.antt =====
-- components/validation/src/runtime.rs: which commands and groups are valid.

use text.Mathlib.Text.{◌==◌}
use botloader.Prelude.{
  ◌≤◌, ◌≡◌, ◌↔◌, refl, sym, ap, subst, Bool, true, false, not, ◌&&◌, Option, none, some, List, [],
  ◌∷◌, ◌++◌, All, String, length, ltb, if◌then◌else◌, arith, Bool-cases, inl, inr,
}
use botloader.Commands.{
  Command, CommandGroup, CommandParameter, CommandKind, chat_input, user, message,
}
use botloader.Validation.{
  new, Unicode, validate, error_if, validate_option, validate_group, validate_options,
  check_optional_name, check_command_description, validate_command,
}
use botloader.Validation.Checks.{
  Check, Checks, error_if-Checks, then-Checks, same-Checks, skip-Checks, field-Checks,
}
use botloader.Validation.Fields.{
  at_most, same_text, IsName, IsDescription, IsNamed, IsOption, IsSubGroup, IsName-Checks,
  IsDescription-Checks, IsOption-Checks, sub_groups-Checks,
}

and_true : (b : Bool) → ((b && true) ≡ false) ↔ (b ≡ false)
and_true b = ground arith

and_false : (b : Bool) → (b && false) ≡ false
and_false b = ground arith

if_same : (b : Bool) → (if b then true else true) ≡ true
if_same true = refl
if_same false = refl

module _ (u : Unicode) where
  -- The options of a command, given whether an optional one came before them.
  IsPart : Bool → List CommandParameter → Type 0
  IsPart found [] = Unit
  IsPart found (o ∷ os) =
      (IsOption u o × ((o.required && found) ≡ false))
      × IsPart (if o.required then found else true) os

  options-Checks :
      (found : Bool) (os : List CommandParameter)
      → Checks (validate_options u found os) (IsPart found os)
  unfolding validate_options IsPart
  options-Checks found [] = skip-Checks
  options-Checks found (o ∷ os) =
      then-Checks _ _ _ _
        (then-Checks _ _ _ _
          (field-Checks "options" (validate_option u o) (IsOption u o) (IsOption-Checks u o))
          (error_if-Checks (o.required && found) "options" "optional options has to be last"))
        (options-Checks (if o.required then found else true) os)

  abbrev pub IsRequired : CommandParameter → Type 0
  IsRequired o = o.required ≡ true

  abbrev pub IsOptional : CommandParameter → Type 0
  IsOptional o = o.required ≡ false

  -- First the options that are required, then those that are not.
  abbrev pub RequiredFirst : List CommandParameter → Type 0
  RequiredFirst os =
      (required optional : List CommandParameter) × (os ≡ required ++ optional)
      × All IsRequired required
      × All IsOptional optional

  found_iff :
      (os : List CommandParameter) → (IsPart true os ↔ (All (IsOption u) os × All IsOptional os))
  unfolding IsPart
  found_iff [] = ((λ h. (tt, tt)), λ h. tt)
  found_iff (o ∷ os) =
      let (to, from) = found_iff os in
      let (optional, from_optional) = and_true o.required in
      (
        (λ h.
            let (x, y) = to (subst (λ b. IsPart b os) (if_same o.required) h.1) in
            ((h.0.0, x), (optional h.0.1, y))),
        λ h. (
          (h.0.0, from_optional h.1.0),
          subst (λ b. IsPart b os) (sym (if_same o.required)) (from (h.0.1, h.1.1)),
        ),
      )

  required_tail :
      (o : CommandParameter) (os : List CommandParameter)
      → IsRequired o
      → RequiredFirst (o ∷ os)
      → RequiredFirst os
  required_tail o os r ([], [], e, a, b) = absurd (ground (arith, e))
  required_tail o os r ([], p ∷ optional, e, a, b) = absurd (ground (arith, e, r, b.0))
  required_tail o os r (p ∷ required, optional, e, a, b) =
      (required, optional, ground (arith, e), a.1, b)

  rest_are_not_required :
      (o : CommandParameter) (os : List CommandParameter)
      → IsOptional o
      → RequiredFirst (o ∷ os)
      → All IsOptional os
  rest_are_not_required o os r ([], [], e, a, b) = absurd (ground (arith, e))
  rest_are_not_required o os r ([], p ∷ optional, e, a, b) =
      subst (All IsOptional) (ground (arith, e)) b.1
  rest_are_not_required o os r (p ∷ required, optional, e, a, b) =
      absurd (ground (arith, e, r, a.0))

  none_found_iff :
      (os : List CommandParameter) → (IsPart false os ↔ (All (IsOption u) os × RequiredFirst os))
  unfolding IsPart
  none_found_iff [] = ((λ h. (tt, ([], [], refl, tt, tt))), λ h. tt)
  none_found_iff (o ∷ os) = elim (Bool-cases o.required) [
    | inl r ↦
        let (to, from) = none_found_iff os in
        let next : (if o.required then false else true) ≡ false = rw r refl in
        (
          (λ h.
              let (x, (required, optional, e, a, b)) = to (subst (λ b. IsPart b os) next h.1) in
              ((h.0.0, x), (o ∷ required, optional, ap (◌∷◌ o) e, (r, a), b))),
          λ h. (
            (h.0.0, and_false o.required),
            subst (λ b. IsPart b os) (sym next) (from (h.0.1, required_tail o os r h.1)),
          ),
        )
    | inr r ↦
        let (to, from) = found_iff os in
        let next : (if o.required then false else true) ≡ true = rw r refl in
        (
          (λ h.
              let (x, y) = to (subst (λ b. IsPart b os) next h.1) in
              ((h.0.0, x), ([], o ∷ os, refl, tt, (r, y)))),
          λ h. (
            (h.0.0, and_false o.required),
            subst (λ b. IsPart b os) (sym next) (from (h.0.1, rest_are_not_required o os r h.1)),
          ),
        )
  ]

  abbrev pub IsGroupName : Option String → Type 0
  IsGroupName none = Unit
  IsGroupName (some v) = IsName u v

  abbrev pub FitsKind : CommandKind → String → Type 0
  FitsKind chat_input v = IsDescription u v
  FitsKind _ v = v ≡ ""

  -- A command that Discord takes.
  abbrev pub IsCommand : Command → Type 0
  IsCommand c =
      IsName u c.name
      × FitsKind c.kind c.description
      × IsGroupName c.group
      × IsGroupName c.sub_group
      × (length c.options ≤ 25)
      × All (IsOption u) c.options
      × RequiredFirst c.options

  IsGroupName-Checks :
      (field : String) (v : Option String) → Checks (check_optional_name u field v) (IsGroupName v)
  unfolding check_optional_name
  IsGroupName-Checks field none = skip-Checks
  IsGroupName-Checks field (some v) = IsName-Checks u field v

  empty-Checks :
      (v : String)
      → Checks
          (error_if
            (not (v == ""))
            "description"
            "description has to be empty for user and message commands")
          (v ≡ "")
  empty-Checks v = same-Checks _ _ _ (same_text v "") (
      error_if-Checks (not (v == "")) "description"
        "description has to be empty for user and message commands")

  kind-Checks :
      (k : CommandKind) (v : String) → Checks (check_command_description k v) (FitsKind k v)
  unfolding check_command_description
  kind-Checks chat_input v = IsDescription-Checks u "description" v
  kind-Checks user v = empty-Checks v
  kind-Checks message v = empty-Checks v

  command-Checks : (c : Command) → Checks (validate_command u c) (IsCommand c)
  unfolding validate_command
  command-Checks c =
      let (few, from_few) = at_most 25 (length c.options) in
      let (options, from_options) = none_found_iff c.options in
      same-Checks _ _ _
        (
          (λ h.
              let (x, y) = options h.1 in
              (h.0.0.0.0.0, h.0.0.0.0.1, h.0.0.0.1, h.0.0.1, few h.0.1, x, y)),
          λ h. (((((h.0, h.1), h.2), h.3), from_few h.4), from_options (h.5, h.6)),
        )
        (then-Checks _ _ _ _
          (then-Checks _ _ _ _
            (then-Checks _ _ _ _
              (then-Checks _ _ _ _
                (then-Checks _ _ _ _ (IsName-Checks u "name" c.name)
                  (kind-Checks c.kind c.description))
                (IsGroupName-Checks "group" c.group))
              (IsGroupName-Checks "sub_group" c.sub_group))
            (error_if-Checks (ltb 25 (length c.options)) "options" "max 25 options"))
          (options-Checks false c.options))

  abbrev pub IsGroup : CommandGroup → Type 0
  IsGroup g = IsNamed u g.name g.description × All (IsSubGroup u) g.sub_groups

  IsGroup-Checks : (g : CommandGroup) → Checks (validate_group u g) (IsGroup g)
  unfolding validate_group
  IsGroup-Checks g =
      then-Checks _ _ _ _
        (then-Checks _ _ _ _ (IsName-Checks u "name" g.name)
          (IsDescription-Checks u "description" g.description))
        (sub_groups-Checks u g.sub_groups)

  validate-Checks : (f : Check) (P : Type 0) → Checks f P → ((validate f ≡ []) ↔ P)
  validate-Checks f P h = let (s, (to, from)) = h new in ((λ e. (to e).1), λ p. from (refl, p))

  -- A command passes the validation exactly if its name and those of its groups have 1 to 32
  -- characters, all of them word characters or dashes, and are lower-case, its description has 1 to
  -- 100 characters (none for a user or message command), it has at most 25 options, each with a good name
  -- and description, and those that are required come before all others.
  pub validate_command-IsCommand :
      (c : Command) → ((validate (validate_command u c) ≡ []) ↔ IsCommand c)
  validate_command-IsCommand c =
      validate-Checks (validate_command u c) (IsCommand c) (command-Checks c)

  -- A group passes the validation exactly if it and all its subgroups have good names and descriptions.
  pub validate_group-IsGroup :
      (g : CommandGroup) → ((validate (validate_group u g) ≡ []) ↔ IsGroup g)
  validate_group-IsGroup g = validate-Checks (validate_group u g) (IsGroup g) (IsGroup-Checks g)
