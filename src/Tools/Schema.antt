-- ===== src/Tools/Schema.antt =====
-- internal/tools/registry.go and internal/tools/schema.go: the tools, and what each takes.
use animus_coder.Base.{
  String, Bool, true, false, Option, none, some, List, [], ◌∷◌, ◌++◌, if◌then◌else◌, Text, codes,
  text_eq,
}
use animus_coder.Semantic.{Engine}
use animus_coder.Tools.Filesystem.{Filesystem}
use animus_coder.Tools.Terminal.{Terminal}
use animus_coder.Tools.Git.{GitTool}

pub record ToolRegistry : Type 0 where
  pub fs : Option Filesystem
  pub terminal : Option Terminal
  pub git : Option GitTool
  pub semantic : Option Engine

pub record SchemaField : Type 0 where
  pub name : Text
  pub kind : Text
  pub description : Text
  pub required : Bool
  pub enum : List Text

pub record Schema : Type 0 where
  pub name : Text
  pub description : Text
  pub parameters : List SchemaField

abbrev pub field_of : String → String → String → Bool → SchemaField
field_of name kind description required = record {
  name = codes name;
  kind = codes kind;
  description = codes description;
  required = required;
  enum = [];
}

abbrev pub schema_of : String → String → List SchemaField → Schema
schema_of name description parameters = record {
  name = codes name;
  description = codes description;
  parameters = parameters;
}

abbrev pub base_schemas : List Schema
base_schemas =
    schema_of "fs.read_file" "Read a file relative to workspace"
      (field_of "path" "string" "Relative file path" true ∷ [])
    ∷ schema_of "fs.write_file" "Write content to a file" (
        field_of "path" "string" "" true
        ∷ field_of "content" "string" "" true
        ∷ field_of "overwrite" "boolean" "" false
        ∷ [])
    ∷ schema_of "terminal.exec" "Execute a command"
        (field_of "command" "string" "" true ∷ field_of "args" "array" "Arguments" false ∷ [])
    ∷ schema_of "git.apply_patch" "Apply a git patch; use dry_run true to validate without applying"
        (field_of "patch" "string" "" true ∷ field_of "dry_run" "boolean" "" false ∷ [])
    ∷ schema_of "git.restore_backup"
        "Restore the latest saved patch backup (or specific id/name if provided)"
        (field_of "name" "string" "" false ∷ [])
    ∷ schema_of "git.list_backups" "List saved patch backups" []
    ∷ schema_of "git.preview_backup" "Preview a backup by name (or latest if not provided)"
        (field_of "name" "string" "" false ∷ [])
    ∷ []

abbrev pub semantic_schema : Schema
semantic_schema =
    schema_of "semantic.search"
      "Find relevant files by semantic overlap (lightweight tokenizer-based search)"
      (field_of "query" "string" "" true ∷ field_of "limit" "integer" "" false ∷ [])

unfoldable pub schemas : ToolRegistry → List Schema
schemas r = elim r.semantic [
  | none ↦ base_schemas
  | some engine ↦ base_schemas ++ semantic_schema ∷ []
]

unfoldable pub schema_named : Text → List Schema → Option Schema
schema_named name [] = none
schema_named name (s ∷ ss) = if text_eq s.name name then some s else schema_named name ss

unfoldable pub schema : ToolRegistry → Text → Option Schema
schema r name = schema_named name (schemas r)
