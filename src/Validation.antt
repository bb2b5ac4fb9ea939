-- ===== src/Validation.antt =====
-- components/validation/src: the checks on what the scripts of a guild contribute (lib.rs, runtime.rs).
-- What the code takes from Unicode's tables is an argument: whether a text is one or more word
-- characters and dashes (`is_name`), whether it is any number of them (`is_file_name`), and its lower case.
-- A list of errors is the result of a validation, empty where the source returns `Ok`.
pub mod Web
pub mod Checks
pub mod Fields
pub mod Valid
mod Examples
use Prim.Native.String.{◌++◌ as ◌<>◌, count}
use text.Mathlib.Text.{◌==◌}
use botloader.Prelude.{
  ℕ, ◌<◌, Bool, true, false, not, ◌&&◌, Option, none, some, List, [], ◌∷◌, ◌++◌, String, length,
  ltb, if◌then◌else◌,
}
use botloader.Commands.{
  Command, CommandGroup, CommandSubGroup, CommandParameter, CommandKind, chat_input, user, message,
}

pub record ValidationError : Type 0 where
  pub field : String
  pub msg : String

pub record ValidationContext : Type 0 where
  pub errs : List ValidationError
  pub field_stack : List String

abbrev pub new : ValidationContext
new = record { errs = []; field_stack = [] }

pub record Unicode : Type 0 where
  pub is_name : String → Bool
  pub is_file_name : String → Bool
  pub lowercase : String → String

unfoldable pub join : String → List String → String
join separator [] = ""
join separator (x ∷ []) = x
join separator (x ∷ y ∷ ys) = x <> (separator <> join separator (y ∷ ys))

unfoldable pub prefix_of : List String → String
unfolding join
prefix_of stack = let prefix = join "." stack in if prefix == "" then prefix else prefix <> "."

unfoldable pub push_error : String → String → ValidationContext → ValidationContext
unfolding prefix_of
push_error field msg ctx = record ctx {
  errs = ctx.errs ++ record { field = field; msg = prefix_of ctx.field_stack <> msg } ∷ [];
}

unfoldable pub push_field : String → ValidationContext → ValidationContext
push_field field ctx = record ctx { field_stack = ctx.field_stack ++ field ∷ [] }

-- `Vec::pop`.
unfoldable pub pop {ℓ} : {A : Type ℓ} → List A → List A
pop [] = []
pop (x ∷ []) = []
pop (x ∷ y ∷ ys) = x ∷ pop (y ∷ ys)

unfoldable pub pop_field : ValidationContext → ValidationContext
unfolding pop
pop_field ctx = record ctx { field_stack = pop ctx.field_stack }

-- The errors of a validation.
abbrev pub validate : (ValidationContext → ValidationContext) → List ValidationError
validate validator = (validator new).errs

abbrev pub error_if : Bool → String → String → ValidationContext → ValidationContext
error_if test field msg ctx = if test then push_error field msg ctx else ctx

unfoldable pub check_name_field : Unicode → String → String → ValidationContext → ValidationContext
unfolding push_error
check_name_field u field value ctx =
    error_if (not (u.lowercase value == value)) field "has to be lower-case" (
      error_if (not (u.is_name value)) field "can only contain 'word' characters" (
        error_if (ltb 32 (count value)) field "can be max 32 characters long"
          (error_if (ltb (count value) 1) field "has to be atleast 1 character" ctx)))

unfoldable pub check_description_field : String → String → ValidationContext → ValidationContext
unfolding push_error
check_description_field field value ctx =
    error_if (ltb 100 (count value)) field "can be max 100 characters long"
      (error_if (ltb (count value) 1) field "has to be atleast 1 character" ctx)

unfoldable pub validate_option : Unicode → CommandParameter → ValidationContext → ValidationContext
unfolding check_name_field check_description_field
validate_option u o ctx =
    check_description_field "description" o.description (check_name_field u "name" o.name ctx)

unfoldable pub validate_sub_group :
    Unicode → CommandSubGroup → ValidationContext → ValidationContext
unfolding check_name_field check_description_field
validate_sub_group u g ctx =
    check_description_field "description" g.description (check_name_field u "name" g.name ctx)

unfoldable pub validate_sub_groups :
    Unicode → List CommandSubGroup → ValidationContext → ValidationContext
unfolding push_field validate_sub_group pop_field
validate_sub_groups u [] ctx = ctx
validate_sub_groups u (g ∷ gs) ctx =
    validate_sub_groups u gs (pop_field (validate_sub_group u g (push_field "sub_groups" ctx)))

unfoldable pub validate_group : Unicode → CommandGroup → ValidationContext → ValidationContext
unfolding check_name_field check_description_field validate_sub_groups
validate_group u g ctx =
    validate_sub_groups u g.sub_groups
      (check_description_field "description" g.description (check_name_field u "name" g.name ctx))

-- The loop over the options of a command; `found_optional` is its variable.
unfoldable pub validate_options :
    Unicode → Bool → List CommandParameter → ValidationContext → ValidationContext
unfolding push_field validate_option pop_field push_error
validate_options u found_optional [] ctx = ctx
validate_options u found_optional (o ∷ os) ctx =
    validate_options u (if o.required then found_optional else true) os (
      error_if (o.required && found_optional) "options" "optional options has to be last"
        (pop_field (validate_option u o (push_field "options" ctx))))

unfoldable pub check_optional_name :
    Unicode → String → Option String → ValidationContext → ValidationContext
unfolding check_name_field
check_optional_name u field none ctx = ctx
check_optional_name u field (some value) ctx = check_name_field u field value ctx

unfoldable pub check_command_description :
    CommandKind → String → ValidationContext → ValidationContext
unfolding check_description_field push_error
check_command_description chat_input description ctx =
    check_description_field "description" description ctx
check_command_description _ description ctx =
    error_if (not (description == "")) "description"
      "description has to be empty for user and message commands" ctx

unfoldable pub validate_command : Unicode → Command → ValidationContext → ValidationContext
unfolding check_name_field check_command_description check_optional_name validate_options push_error
validate_command u c ctx = validate_options u false c.options (
    error_if (ltb 25 (length c.options)) "options" "max 25 options" (
      check_optional_name u "sub_group" c.sub_group (
        check_optional_name u "group" c.group
          (check_command_description c.kind c.description (check_name_field u "name" c.name ctx)))))
