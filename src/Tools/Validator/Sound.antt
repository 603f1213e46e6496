-- ===== src/Tools/Validator/Sound.antt =====
-- What `ValidateCall` accepts, tool by tool.
use animus_coder.Base.{
  ◌≡◌, refl, inl, inr, true, Option, none, some, arith, Bool-cases, Option-cases, is_some, Text,
  codes, text_eq, lookup,
}
use animus_coder.Tools.Value.{
  Value, null, boolean, number, string, array, object, Args, string_of, bool_of,
}
use animus_coder.Tools.Schema.{ToolRegistry, schema, schemas, schema_named}
use animus_coder.Tools.Validator.{
  fits_kind, check_field, validate_fields, validate_schema, check_tool, validate_call, is_true,
}
use animus_coder.Tools.Validator.Allowed.{
  Tool, read_file, write_file, search_text, execute, apply_patch, git_status, restore_backup,
  list_backups, preview_backup, search_meaning, name_of, Allowed,
}

string_of-some :
    (v : Option Value) → is_some (string_of v) ≡ true → (s : Text) × (v ≡ some (string s))
string_of-some none h = absurd (cc h)
string_of-some (some (string s)) h = (s, refl)
string_of-some (some null) h = absurd (cc h)
string_of-some (some (boolean b)) h = absurd (cc h)
string_of-some (some (number n)) h = absurd (cc h)
string_of-some (some (array vs)) h = absurd (cc h)
string_of-some (some (object ms)) h = absurd (cc h)

is_true-bool_of : (v : Option Value) → is_true (bool_of v) ≡ true → v ≡ some (boolean true)
is_true-bool_of none h = absurd (cc h)
is_true-bool_of (some (boolean b)) h = cc h
is_true-bool_of (some null) h = absurd (cc h)
is_true-bool_of (some (string s)) h = absurd (cc h)
is_true-bool_of (some (number n)) h = absurd (cc h)
is_true-bool_of (some (array vs)) h = absurd (cc h)
is_true-bool_of (some (object ms)) h = absurd (cc h)

read_file_sound :
    (reg : ToolRegistry) (args : Args)
    → validate_call (some reg) (name_of read_file) args ≡ none
    → Allowed read_file reg args
unfolding validate_call check_tool schema schemas schema_named text_eq validate_schema
    validate_fields check_field fits_kind
read_file_sound reg args h = string_of-some (lookup (codes "path") args) (ground arith)

write_file_sound :
    (reg : ToolRegistry) (args : Args)
    → validate_call (some reg) (name_of write_file) args ≡ none
    → Allowed write_file reg args
unfolding validate_call check_tool schema schemas schema_named text_eq validate_schema
    validate_fields check_field fits_kind
write_file_sound reg args h = (
  string_of-some (lookup (codes "path") args) (ground arith),
  string_of-some (lookup (codes "content") args) (ground arith),
  elim (Option-cases (lookup (codes "overwrite") args)) [
    | inl e ↦ inl e
    | inr (v, e) ↦ inr (ground arith)
  ],
  elim (Option-cases reg.fs) [ inl e ↦ absurd (ground arith) | inr (x, e) ↦ (x, e, ground arith) ],
)

search_text_sound :
    (reg : ToolRegistry) (args : Args)
    → validate_call (some reg) (name_of search_text) args ≡ none
    → Allowed search_text reg args
unfolding validate_call check_tool schema schemas schema_named text_eq validate_schema
    validate_fields check_field fits_kind
search_text_sound reg args h = string_of-some (lookup (codes "pattern") args) (ground arith)

execute_sound :
    (reg : ToolRegistry) (args : Args)
    → validate_call (some reg) (name_of execute) args ≡ none
    → Allowed execute reg args
unfolding validate_call check_tool schema schemas schema_named text_eq validate_schema
    validate_fields check_field fits_kind
execute_sound reg args h = (
  string_of-some (lookup (codes "command") args) (ground arith),
  elim (Option-cases (lookup (codes "args") args)) [
    | inl e ↦ inl e
    | inr (v, e) ↦ inr (ground arith)
  ],
  elim (Option-cases reg.terminal) [
    | inl e ↦ absurd (ground arith)
    | inr (x, e) ↦ (x, e, ground arith)
  ],
)

apply_patch_sound :
    (reg : ToolRegistry) (args : Args)
    → validate_call (some reg) (name_of apply_patch) args ≡ none
    → Allowed apply_patch reg args
unfolding validate_call check_tool schema schemas schema_named text_eq validate_schema
    validate_fields check_field fits_kind
apply_patch_sound reg args h = (
  string_of-some (lookup (codes "patch") args) (ground arith),
  elim (Option-cases (lookup (codes "dry_run") args)) [
    | inl e ↦ inl e
    | inr (v, e) ↦ inr (ground arith)
  ],
  elim (Option-cases reg.git) [
    | inl e ↦ absurd (ground arith)
    | inr (g, e) ↦ (
      g,
      e,
      ground arith,
      elim (Bool-cases g.dry_run_only) [
        | inl d ↦ inr (is_true-bool_of (lookup (codes "dry_run") args) (ground arith))
        | inr d ↦ inl d
      ],
    )
  ],
)

git_status_sound :
    (reg : ToolRegistry) (args : Args)
    → validate_call (some reg) (name_of git_status) args ≡ none
    → Allowed git_status reg args
unfolding validate_call check_tool schema schemas schema_named text_eq validate_schema
    validate_fields check_field fits_kind
git_status_sound reg args h = elim (Option-cases reg.git) [
  | inl e ↦ absurd (ground arith)
  | inr (x, e) ↦ (x, e, ground arith, tt)
]

restore_backup_sound :
    (reg : ToolRegistry) (args : Args)
    → validate_call (some reg) (name_of restore_backup) args ≡ none
    → Allowed restore_backup reg args
unfolding validate_call check_tool schema schemas schema_named text_eq validate_schema
    validate_fields check_field fits_kind
restore_backup_sound reg args h = (
  elim (Option-cases (lookup (codes "name") args)) [
    | inl e ↦ inl e
    | inr (v, e) ↦ inr (ground arith)
  ],
  elim (Option-cases reg.git) [
    | inl e ↦ absurd (ground arith)
    | inr (x, e) ↦ (x, e, ground arith, tt)
  ],
)

list_backups_sound :
    (reg : ToolRegistry) (args : Args)
    → validate_call (some reg) (name_of list_backups) args ≡ none
    → Allowed list_backups reg args
unfolding validate_call check_tool schema schemas schema_named text_eq validate_schema
    validate_fields check_field fits_kind
list_backups_sound reg args h = elim (Option-cases reg.git) [
  | inl e ↦ absurd (ground arith)
  | inr (x, e) ↦ (x, e, ground arith, tt)
]

preview_backup_sound :
    (reg : ToolRegistry) (args : Args)
    → validate_call (some reg) (name_of preview_backup) args ≡ none
    → Allowed preview_backup reg args
unfolding validate_call check_tool schema schemas schema_named text_eq validate_schema
    validate_fields check_field fits_kind
preview_backup_sound reg args h = (
  elim (Option-cases (lookup (codes "name") args)) [
    | inl e ↦ inl e
    | inr (v, e) ↦ inr (ground arith)
  ],
  elim (Option-cases reg.git) [
    | inl e ↦ absurd (ground arith)
    | inr (x, e) ↦ (x, e, ground arith, tt)
  ],
)

search_meaning_sound :
    (reg : ToolRegistry) (args : Args)
    → validate_call (some reg) (name_of search_meaning) args ≡ none
    → Allowed search_meaning reg args
unfolding validate_call check_tool schema schemas schema_named text_eq validate_schema
    validate_fields check_field fits_kind
search_meaning_sound reg args h = elim (Option-cases reg.semantic) [
  | inl e ↦ absurd (ground arith)
  | inr (engine, e) ↦ (
    string_of-some (lookup (codes "query") args) (ground arith),
    elim (Option-cases (lookup (codes "limit") args)) [
      | inl e ↦ inl e
      | inr (v, e) ↦ inr (ground arith)
    ],
    (engine, e),
  )
]

pub validate_call-Allowed :
    (tool : Tool) (reg : ToolRegistry) (args : Args)
    → validate_call (some reg) (name_of tool) args ≡ none
    → Allowed tool reg args
validate_call-Allowed read_file reg args h = read_file_sound reg args h
validate_call-Allowed write_file reg args h = write_file_sound reg args h
validate_call-Allowed search_text reg args h = search_text_sound reg args h
validate_call-Allowed execute reg args h = execute_sound reg args h
validate_call-Allowed apply_patch reg args h = apply_patch_sound reg args h
validate_call-Allowed git_status reg args h = git_status_sound reg args h
validate_call-Allowed restore_backup reg args h = restore_backup_sound reg args h
validate_call-Allowed list_backups reg args h = list_backups_sound reg args h
validate_call-Allowed preview_backup reg args h = preview_backup_sound reg args h
validate_call-Allowed search_meaning reg args h = search_meaning_sound reg args h
