-- ===== src/Validation/Web.antt =====
-- components/validation/src/web.rs: the checks on the scripts and plugins that users save.
use Prim.Native.String.{count, len}
use botloader.Prelude.{not, Option, none, some, String, ltb}
use botloader.Validation.{ValidationContext, Unicode, push_error, error_if}

-- The parts of the types of components/stores/src/config.rs that are checked.
pub record CreateScript : Type 0 where
  pub name : String
  pub original_source : String

pub record UpdateScript : Type 0 where
  pub name : Option String
  pub original_source : Option String

pub record CreatePlugin : Type 0 where
  pub name : String
  pub short_description : String
  pub long_description : String

pub record UpdatePluginMeta : Type 0 where
  pub name : Option String
  pub short_description : Option String
  pub long_description : Option String

unfoldable pub check_script_name : Unicode → String → ValidationContext → ValidationContext
unfolding push_error
check_script_name u name ctx =
    error_if (not (u.is_file_name name)) "name" "name can only contain 'a-z', '-' and '_'"
      (error_if (ltb 32 (count name)) "name" "name can be max 32 characters long" ctx)

unfoldable pub check_plugin_name : Unicode → String → ValidationContext → ValidationContext
unfolding push_error
check_plugin_name u name ctx =
    error_if (not (u.is_file_name name)) "name" "name can only contain 'a-z', '-' and '_'"
      (error_if (ltb 32 (count name)) "name" "name can be max 32 characters long" ctx)

unfoldable pub check_script_source : String → String → ValidationContext → ValidationContext
unfolding push_error
check_script_source field_name source ctx =
    error_if (ltb 100000 (len source)) field_name "source can be max 100KiB" ctx

unfoldable pub check_plugin_short_description : String → ValidationContext → ValidationContext
unfolding push_error
check_plugin_short_description short_desc ctx =
    error_if (ltb 150 (count short_desc)) "short_description"
      "short description can be max 150 characters long" ctx

unfoldable pub check_plugin_long_description : String → ValidationContext → ValidationContext
unfolding push_error
check_plugin_long_description long_desc ctx =
    error_if (ltb 4000 (count long_desc)) "long_description"
      "long description can be max 4000 characters long" ctx

-- `if let Some(value)` around a check.
abbrev pub check_some :
    (String → ValidationContext → ValidationContext)
    → Option String
    → ValidationContext
    → ValidationContext
check_some check none ctx = ctx
check_some check (some value) ctx = check value ctx

unfoldable pub validate_create_script :
    Unicode → CreateScript → ValidationContext → ValidationContext
unfolding check_script_name check_script_source
validate_create_script u s ctx =
    check_script_source "original_source" s.original_source (check_script_name u s.name ctx)

unfoldable pub validate_update_script :
    Unicode → UpdateScript → ValidationContext → ValidationContext
unfolding check_script_name check_script_source
validate_update_script u s ctx =
    check_some (check_script_source "original_source") s.original_source
      (check_some (check_script_name u) s.name ctx)

unfoldable pub validate_create_plugin :
    Unicode → CreatePlugin → ValidationContext → ValidationContext
unfolding check_plugin_name check_plugin_short_description check_plugin_long_description
validate_create_plugin u p ctx =
    check_plugin_long_description p.long_description
      (check_plugin_short_description p.short_description (check_plugin_name u p.name ctx))

unfoldable pub validate_update_plugin :
    Unicode → UpdatePluginMeta → ValidationContext → ValidationContext
unfolding check_plugin_name check_plugin_short_description check_plugin_long_description
validate_update_plugin u p ctx = check_some check_plugin_long_description p.long_description (
    check_some check_plugin_short_description p.short_description
      (check_some (check_plugin_name u) p.name ctx))
