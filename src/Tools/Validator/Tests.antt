-- ===== src/Tools/Validator/Tests.antt =====
-- Checks of `ValidateCall` at a concrete call.
use animus_coder.Base.{◌≡◌, refl, ◌↔◌, true, none, some, [], ◌∷◌, is_some, codes, text_eq, lookup}
use animus_coder.Tools.Value.{boolean, string, Args}
use animus_coder.Tools.Schema.{ToolRegistry}
use animus_coder.Tools.Validator.{validate_call}
use animus_coder.Tools.Validator.Allowed.{Tool, apply_patch, name_of, Allowed}
use animus_coder.Tools.Validator.Complete.{validate_call_iff}
use animus_coder.Tools.Validator.Names.{validate_call-known}

-- A registry with nothing but a git tool for dry runs.
abbrev git_only : ToolRegistry
git_only = record {
  fs = none;
  terminal = none;
  git = some (record {
    working_dir = [];
    allow_exec = true;
    dry_run_only = true;
    backup_dir = [];
    stack = none;
  });
  semantic = none;
}

abbrev dry : Args
dry = (codes "patch", string (codes "x")) ∷ (codes "dry_run", boolean true) ∷ []

-- The same without the flag is refused.
abbrev wet : Args
wet = (codes "patch", string (codes "x")) ∷ []

dry_accepted : validate_call (some git_only) (name_of apply_patch) dry ≡ none
unfolding validate_call animus_coder.Tools.Validator.validate_schema
    animus_coder.Tools.Schema.schema animus_coder.Tools.Schema.schema_named
    animus_coder.Tools.Schema.schemas text_eq animus_coder.Tools.Validator.validate_fields
    animus_coder.Tools.Validator.check_field lookup animus_coder.Tools.Validator.fits_kind
    animus_coder.Tools.Validator.check_tool
dry_accepted = refl

wet_refused : is_some (validate_call (some git_only) (name_of apply_patch) wet) ≡ true
unfolding validate_call animus_coder.Tools.Validator.validate_schema
    animus_coder.Tools.Schema.schema animus_coder.Tools.Schema.schema_named
    animus_coder.Tools.Schema.schemas text_eq animus_coder.Tools.Validator.validate_fields
    animus_coder.Tools.Validator.check_field lookup animus_coder.Tools.Validator.fits_kind
    animus_coder.Tools.Validator.check_tool
wet_refused = refl

validate_call_iff_example :
    (validate_call (some git_only) (name_of apply_patch) dry ≡ none)
    ↔ Allowed apply_patch git_only dry
validate_call_iff_example = validate_call_iff apply_patch git_only dry

known_call : (tool : Tool) × (codes "git.apply_patch" ≡ name_of tool)
known_call = validate_call-known git_only (codes "git.apply_patch") dry dry_accepted
