-- ===== src/Validation/Fields.antt =====
-- components/validation/src/runtime.rs: the checks on names, descriptions, options and subgroups.
use Prim.Native.String.{count}
use text.Mathlib.Text.{◌==◌}
use text.Mathlib.TextEquality.{eq_iff}
use botloader.Prelude.{
  ℕ, ◌≤◌, ◌≡◌, ◌↔◌, Bool, true, false, not, List, [], ◌∷◌, All, String, ltb, arith,
}
use botloader.Commands.{CommandSubGroup, CommandParameter}
use botloader.Validation.{
  Unicode, check_name_field, check_description_field, validate_option, validate_sub_group,
  validate_sub_groups,
}
use botloader.Validation.Checks.{
  Checks, error_if-Checks, then-Checks, same-Checks, skip-Checks, field-Checks,
}

pub negated_is_false : (b : Bool) → (not b ≡ false) ↔ (b ≡ true)
negated_is_false b = ground arith

pub at_least_one : (n : ℕ) → (ltb n 1 ≡ false) ↔ (1 ≤ n)
at_least_one n = ground arith

pub at_most : (m n : ℕ) → (ltb m n ≡ false) ↔ (n ≤ m)
at_most m n = ground arith

pub same_text : (s t : String) → (not (s == t) ≡ false) ↔ (s ≡ t)
same_text s t = (
  (λ h. (eq_iff s t).0 ((negated_is_false (s == t)).0 h)),
  λ p. (negated_is_false (s == t)).1 ((eq_iff s t).1 p),
)

module _ (u : Unicode) where
  abbrev pub IsName : String → Type 0
  IsName v = (1 ≤ count v) × (count v ≤ 32) × (u.is_name v ≡ true) × (u.lowercase v ≡ v)

  abbrev pub IsDescription : String → Type 0
  IsDescription v = (1 ≤ count v) × (count v ≤ 100)

  IsName-iff :
      (v : String)
      → (((((ltb (count v) 1 ≡ false) × (ltb 32 (count v) ≡ false)) × (not (u.is_name v) ≡ false))
            × (not (u.lowercase v == v) ≡ false))
          ↔ IsName v)
  IsName-iff v =
      let (least, from_least) = at_least_one (count v) in
      let (most, from_most) = at_most 32 (count v) in
      let (word, from_word) = negated_is_false (u.is_name v) in
      let (lower, from_lower) = same_text (u.lowercase v) v in
      (
        (λ h. (least h.0.0.0, most h.0.0.1, word h.0.1, lower h.1)),
        λ h. (((from_least h.0, from_most h.1), from_word h.2), from_lower h.3),
      )

  IsDescription-iff :
      (v : String) → (((ltb (count v) 1 ≡ false) × (ltb 100 (count v) ≡ false)) ↔ IsDescription v)
  IsDescription-iff v =
      let (least, from_least) = at_least_one (count v) in
      let (most, from_most) = at_most 100 (count v) in
      ((λ h. (least h.0, most h.1)), λ h. (from_least h.0, from_most h.1))

  pub IsName-Checks :
      (field value : String) → Checks (check_name_field u field value) (IsName value)
  unfolding check_name_field
  IsName-Checks field value = same-Checks _ _ _ (IsName-iff value) (
      then-Checks _ _ _ _
        (then-Checks _ _ _ _
          (then-Checks _ _ _ _
            (error_if-Checks (ltb (count value) 1) field "has to be atleast 1 character")
            (error_if-Checks (ltb 32 (count value)) field "can be max 32 characters long"))
          (error_if-Checks (not (u.is_name value)) field "can only contain 'word' characters"))
        (error_if-Checks (not (u.lowercase value == value)) field "has to be lower-case"))

  pub IsDescription-Checks :
      (field value : String) → Checks (check_description_field field value) (IsDescription value)
  unfolding check_description_field
  IsDescription-Checks field value = same-Checks _ _ _ (IsDescription-iff value) (
      then-Checks _ _ _ _
        (error_if-Checks (ltb (count value) 1) field "has to be atleast 1 character")
        (error_if-Checks (ltb 100 (count value)) field "can be max 100 characters long"))

  -- What an option, a subgroup and a group have to be.
  abbrev pub IsNamed : String → String → Type 0
  IsNamed name description = IsName name × IsDescription description

  abbrev pub IsOption : CommandParameter → Type 0
  IsOption o = IsNamed o.name o.description

  abbrev pub IsSubGroup : CommandSubGroup → Type 0
  IsSubGroup g = IsNamed g.name g.description

  pub IsOption-Checks : (o : CommandParameter) → Checks (validate_option u o) (IsOption o)
  unfolding validate_option
  IsOption-Checks o =
      then-Checks _ _ _ _ (IsName-Checks "name" o.name)
        (IsDescription-Checks "description" o.description)

  pub IsSubGroup-Checks : (g : CommandSubGroup) → Checks (validate_sub_group u g) (IsSubGroup g)
  unfolding validate_sub_group
  IsSubGroup-Checks g =
      then-Checks _ _ _ _ (IsName-Checks "name" g.name)
        (IsDescription-Checks "description" g.description)

  pub sub_groups-Checks :
      (gs : List CommandSubGroup) → Checks (validate_sub_groups u gs) (All IsSubGroup gs)
  unfolding validate_sub_groups
  sub_groups-Checks [] = skip-Checks
  sub_groups-Checks (g ∷ gs) =
      then-Checks _ _ _ _
        (field-Checks "sub_groups" (validate_sub_group u g) (IsSubGroup g) (IsSubGroup-Checks g))
        (sub_groups-Checks gs)
