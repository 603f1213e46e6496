-- ===== src/Tools/Validator/Complete.antt =====
-- `ValidateCall` on the calls that are allowed.
use animus_coder.Base.{◌≡◌, ◌↔◌, inl, inr, none, some, arith, Option-cases, text_eq}
use animus_coder.Tools.Value.{Args}
use animus_coder.Tools.Schema.{ToolRegistry, schema, schemas, schema_named}
use animus_coder.Tools.Validator.{
  fits_kind, check_field, validate_fields, validate_schema, check_tool, validate_call,
}
use animus_coder.Tools.Validator.Allowed.{
  Tool, read_file, write_file, search_text, execute, apply_patch, git_status, restore_backup,
  list_backups, preview_backup, search_meaning, name_of, Allowed,
}
use animus_coder.Tools.Validator.Sound.{validate_call-Allowed}

read_file_complete :
    (reg : ToolRegistry) (args : Args)
    → Allowed read_file reg args
    → validate_call (some reg) (name_of read_file) args ≡ none
unfolding validate_call check_tool schema schemas schema_named text_eq validate_schema
    validate_fields check_field fits_kind
read_file_complete reg args (s, e) = ground arith

write_file_complete :
    (reg : ToolRegistry) (args : Args)
    → Allowed write_file reg args
    → validate_call (some reg) (name_of write_file) args ≡ none
unfolding validate_call check_tool schema schemas schema_named text_eq validate_schema
    validate_fields check_field fits_kind
write_file_complete reg args ((s, e), (c, ec), d, (fs, ef, w)) = elim d [
  | inl d ↦ ground arith
  | inr d ↦ ground arith
]

search_text_complete :
    (reg : ToolRegistry) (args : Args)
    → Allowed search_text reg args
    → validate_call (some reg) (name_of search_text) args ≡ none
unfolding validate_call check_tool schema schemas schema_named text_eq validate_schema
    validate_fields check_field fits_kind
search_text_complete reg args (s, e) = elim (Option-cases reg.semantic) [
  | inl q ↦ ground arith
  | inr (x, q) ↦ ground arith
]

execute_complete :
    (reg : ToolRegistry) (args : Args)
    → Allowed execute reg args
    → validate_call (some reg) (name_of execute) args ≡ none
unfolding validate_call check_tool schema schemas schema_named text_eq validate_schema
    validate_fields check_field fits_kind
execute_complete reg args ((s, e), d, (t, et, a)) = elim d [
  | inl d ↦ ground arith
  | inr d ↦ ground arith
]

apply_patch_complete :
    (reg : ToolRegistry) (args : Args)
    → Allowed apply_patch reg args
    → validate_call (some reg) (name_of apply_patch) args ≡ none
unfolding validate_call check_tool schema schemas schema_named text_eq validate_schema
    validate_fields check_field fits_kind
apply_patch_complete reg args ((s, e), d, (g, eg, a, o)) = elim d [
  | inl d ↦ elim o [ inl q ↦ ground arith | inr q ↦ absurd (cc (d, q)) ]
  | inr d ↦ elim o [ inl q ↦ ground arith | inr q ↦ ground arith ]
]

git_status_complete :
    (reg : ToolRegistry) (args : Args)
    → Allowed git_status reg args
    → validate_call (some reg) (name_of git_status) args ≡ none
unfolding validate_call check_tool schema schemas schema_named text_eq validate_schema
    validate_fields check_field fits_kind
git_status_complete reg args (g, eg, a, o) = elim (Option-cases reg.semantic) [
  | inl q ↦ ground arith
  | inr (x, q) ↦ ground arith
]

restore_backup_complete :
    (reg : ToolRegistry) (args : Args)
    → Allowed restore_backup reg args
    → validate_call (some reg) (name_of restore_backup) args ≡ none
unfolding validate_call check_tool schema schemas schema_named text_eq validate_schema
    validate_fields check_field fits_kind
restore_backup_complete reg args (d, (g, eg, a, o)) = elim d [
  | inl d ↦ ground arith
  | inr d ↦ ground arith
]

list_backups_complete :
    (reg : ToolRegistry) (args : Args)
    → Allowed list_backups reg args
    → validate_call (some reg) (name_of list_backups) args ≡ none
unfolding validate_call check_tool schema schemas schema_named text_eq validate_schema
    validate_fields check_field fits_kind
list_backups_complete reg args (g, eg, a, o) = ground arith

preview_backup_complete :
    (reg : ToolRegistry) (args : Args)
    → Allowed preview_backup reg args
    → validate_call (some reg) (name_of preview_backup) args ≡ none
unfolding validate_call check_tool schema schemas schema_named text_eq validate_schema
    validate_fields check_field fits_kind
preview_backup_complete reg args (d, (g, eg, a, o)) = elim d [
  | inl d ↦ ground arith
  | inr d ↦ ground arith
]

search_meaning_complete :
    (reg : ToolRegistry) (args : Args)
    → Allowed search_meaning reg args
    → validate_call (some reg) (name_of search_meaning) args ≡ none
unfolding validate_call check_tool schema schemas schema_named text_eq validate_schema
    validate_fields check_field fits_kind
search_meaning_complete reg args ((s, e), d, (engine, en)) = elim d [
  | inl d ↦ ground arith
  | inr d ↦ ground arith
]

validate_call_complete :
    (tool : Tool) (reg : ToolRegistry) (args : Args)
    → Allowed tool reg args
    → validate_call (some reg) (name_of tool) args ≡ none
validate_call_complete read_file reg args h = read_file_complete reg args h
validate_call_complete write_file reg args h = write_file_complete reg args h
validate_call_complete search_text reg args h = search_text_complete reg args h
validate_call_complete execute reg args h = execute_complete reg args h
validate_call_complete apply_patch reg args h = apply_patch_complete reg args h
validate_call_complete git_status reg args h = git_status_complete reg args h
validate_call_complete restore_backup reg args h = restore_backup_complete reg args h
validate_call_complete list_backups reg args h = list_backups_complete reg args h
validate_call_complete preview_backup reg args h = preview_backup_complete reg args h
validate_call_complete search_meaning reg args h = search_meaning_complete reg args h

-- `validate_call` accepts a call of a tool exactly when the registry and the arguments allow it: the
-- keys that the tool needs hold texts, the optional ones are missing or of the right kind, a file is
-- written only where writing is allowed, a command is run only where execution is, git is used only
-- where it is allowed, and where only dry runs are, a patch is applied only as a dry run.
pub validate_call_iff :
    (tool : Tool) (reg : ToolRegistry) (args : Args)
    → (validate_call (some reg) (name_of tool) args ≡ none) ↔ Allowed tool reg args
validate_call_iff tool reg args =
    (validate_call-Allowed tool reg args, validate_call_complete tool reg args)
