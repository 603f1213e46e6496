-- ===== src/Tools/Validator.antt =====
-- internal/tools/validator.go: the tests of a tool call before it is executed.
pub mod Allowed
pub mod Sound
pub mod Names
pub mod NotNil
pub mod Complete
mod Tests
use animus_coder.Base.{
  String, Bool, true, false, ◌&&◌, not, Option, none, some, List, [], ◌∷◌, if◌then◌else◌, is_some,
  All, Text, codes, text_eq, fields, elem, lookup, ok,
}
use animus_coder.Tools.Value.{
  Value, boolean, number, string, array, Args, string_of, bool_of, number_of, array_of,
}
use animus_coder.Tools.Git.{GitTool}
use animus_coder.Tools.Schema.{ToolRegistry, Schema, SchemaField, schema}

-- Why a call is refused; `nil_filesystem` is the panic of a registry without a file system.
pub data CallError : Type 0 where
  no_registry : CallError
  missing : Text → CallError
  not_of_kind : Text → Text → CallError
  not_allowed_value : Text → List Text → CallError
  write_disabled exec_disabled git_disabled dry_run_required no_semantic : CallError
  unknown_tool : Text → CallError
  nil_filesystem : CallError

infixr 20 ◌then_check◌
abbrev pub ◌then_check◌ : Option CallError → Option CallError → Option CallError
none then_check next = next
(some e) then_check next = some e

abbrev pub fail_if : Bool → CallError → Option CallError
fail_if test e = if test then some e else none

-- `_, ok := args[name].(string)`.
abbrev pub need_string : Text → Args → Option CallError
need_string name args =
    fail_if (not (is_some (string_of (lookup name args)))) (not_of_kind name (codes "string"))

-- The `switch` over the type of a field; another type of field takes any value.
unfoldable pub fits_kind : Text → Value → Bool
fits_kind kind val =
    if text_eq kind (codes "string")
    then is_some (string_of (some val))
    else if text_eq kind (codes "boolean")
    then is_some (bool_of (some val))
    else if text_eq kind (codes "array")
    then is_some (array_of (some val))
    else if text_eq kind (codes "integer")
    then is_some (number_of (some val))
    else true

-- A value that is no text is compared as the empty text.
abbrev pub text_or_empty : Value → Text
text_or_empty (string s) = s
text_or_empty _ = []

abbrev pub fits_enum : List Text → Value → Bool
fits_enum [] val = true
fits_enum (e ∷ es) val = elem (text_or_empty val) (e ∷ es)

unfoldable pub check_field : SchemaField → Option Value → Option CallError
check_field f none = fail_if f.required (missing f.name)
check_field f (some val) =
    fail_if (not (fits_kind f.kind val)) (not_of_kind f.name f.kind)
    then_check fail_if (not (fits_enum f.enum val)) (not_allowed_value f.name f.enum)

unfoldable pub validate_fields : List SchemaField → Args → Option CallError
validate_fields [] args = none
validate_fields (f ∷ fs) args =
    check_field f (lookup f.name args) then_check validate_fields fs args

unfoldable pub validate_schema : Option Schema → Args → Option CallError
validate_schema none args = none
validate_schema (some s) args = validate_fields s.parameters args

abbrev pub git_test : ToolRegistry → (GitTool → Option CallError) → Option CallError
git_test reg next = elim reg.git [
  | none ↦ some git_disabled
  | some g ↦ fail_if (not g.allow_exec) git_disabled then_check next g
]

abbrev pub write_test : ToolRegistry → Option CallError
write_test reg = elim reg.fs [
  | none ↦ some nil_filesystem
  | some fs ↦ fail_if (not fs.allow_write) write_disabled
]

abbrev pub exec_test : ToolRegistry → Option CallError
exec_test reg = elim reg.terminal [
  | none ↦ some exec_disabled
  | some t ↦ fail_if (not t.allow_execution) exec_disabled
]

-- `dry, _ := args["dry_run"].(bool)`.
abbrev pub is_true : Option Bool → Bool
is_true (some b) = b
is_true none = false

abbrev pub dry_run_test : Args → GitTool → Option CallError
dry_run_test args g =
    fail_if (g.dry_run_only && not (is_true (bool_of (lookup (codes "dry_run") args))))
      dry_run_required

-- `if val, ok := args[name]; ok`: a key that is there wants the given kind of value.
abbrev pub if_there : Text → String → (Option Value → Bool) → Args → Option CallError
if_there name kind fits args = elim (lookup name args) [
  | none ↦ none
  | some val ↦ fail_if (not (fits (some val))) (not_of_kind name (codes kind))
]

-- The `switch` over the name of the tool.
unfoldable pub check_tool : ToolRegistry → Text → Args → Option CallError
check_tool reg name args =
    if text_eq name (codes "fs.read_file")
    then need_string (codes "path") args
    else if text_eq name (codes "fs.write_file")
    then need_string (codes "path") args
      then_check need_string (codes "content") args
      then_check write_test reg
    else if text_eq name (codes "fs.search")
    then need_string (codes "pattern") args
    else if text_eq name (codes "terminal.exec")
    then exec_test reg then_check need_string (codes "command") args
    else if text_eq name (codes "git.apply_patch")
    then git_test reg (λ g. need_string (codes "patch") args then_check dry_run_test args g)
    else if text_eq name (codes "git.status")
    then git_test reg (λ g. none)
    else if text_eq name (codes "git.restore_backup")
    then git_test reg (λ g. if_there (codes "name") "string" (λ v. is_some (string_of v)) args)
    else if text_eq name (codes "git.list_backups")
    then git_test reg (λ g. none)
    else if text_eq name (codes "git.preview_backup")
    then git_test reg (λ g. none)
    else if text_eq name (codes "semantic.search")
    then elim reg.semantic [
      | none ↦ some no_semantic
      | some engine ↦
          need_string (codes "query") args
          then_check if_there (codes "limit") "number" (λ v. is_some (number_of v)) args
    ]
    else some (unknown_tool name)

unfoldable pub validate_call : Option ToolRegistry → Text → Args → Option CallError
validate_call none name args = some no_registry
validate_call (some reg) name args =
    validate_schema (schema reg name) args then_check check_tool reg name args
