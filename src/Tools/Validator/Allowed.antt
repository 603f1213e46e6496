-- ===== src/Tools/Validator/Allowed.antt =====
-- The tools by name, and what a call of each needs of the registry and of the arguments.
use animus_coder.Base.{
  String, ◌≡◌, ◌⊎◌, Bool, true, false, Option, none, some, is_some, Text, codes, lookup,
}
use animus_coder.Semantic.{Engine}
use animus_coder.Tools.Filesystem.{Filesystem}
use animus_coder.Tools.Terminal.{Terminal}
use animus_coder.Tools.Value.{Value, boolean, string, Args, string_of, bool_of, number_of, array_of}
use animus_coder.Tools.Git.{GitTool}
use animus_coder.Tools.Schema.{ToolRegistry}

pub data Tool : Type 0 where
  read_file write_file search_text execute apply_patch git_status : Tool
  restore_backup list_backups preview_backup search_meaning : Tool

abbrev pub name_of : Tool → Text
name_of read_file = codes "fs.read_file"
name_of write_file = codes "fs.write_file"
name_of search_text = codes "fs.search"
name_of execute = codes "terminal.exec"
name_of apply_patch = codes "git.apply_patch"
name_of git_status = codes "git.status"
name_of restore_backup = codes "git.restore_backup"
name_of list_backups = codes "git.list_backups"
name_of preview_backup = codes "git.preview_backup"
name_of search_meaning = codes "semantic.search"

abbrev pub HasString : String → Args → Type 0
HasString key args = (s : Text) × (lookup (codes key) args ≡ some (string s))

-- The key is missing or holds a value that `fits` takes.
abbrev pub MayHave : String → (Option Value → Bool) → Args → Type 0
MayHave key fits args = (lookup (codes key) args ≡ none) ⊎ (fits (lookup (codes key) args) ≡ true)

abbrev pub GitAllowed : ToolRegistry → (GitTool → Type 0) → Type 0
GitAllowed reg P = (g : GitTool) × (reg.git ≡ some g) × (g.allow_exec ≡ true) × P g

-- What the tool needs of the registry and of the arguments.
abbrev pub Allowed : Tool → ToolRegistry → Args → Type 0
Allowed read_file reg args = HasString "path" args
Allowed write_file reg args =
    HasString "path" args
    × HasString "content" args
    × MayHave "overwrite" (λ v. is_some (bool_of v)) args
    × ((fs : Filesystem) × (reg.fs ≡ some fs) × (fs.allow_write ≡ true))
Allowed search_text reg args = HasString "pattern" args
Allowed execute reg args =
    HasString "command" args
    × MayHave "args" (λ v. is_some (array_of v)) args
    × ((t : Terminal) × (reg.terminal ≡ some t) × (t.allow_execution ≡ true))
Allowed apply_patch reg args =
    HasString "patch" args
    × MayHave "dry_run" (λ v. is_some (bool_of v)) args
    × GitAllowed reg
        (λ g. (g.dry_run_only ≡ false) ⊎ (lookup (codes "dry_run") args ≡ some (boolean true)))
Allowed git_status reg args = GitAllowed reg (λ g. Unit)
Allowed restore_backup reg args =
    MayHave "name" (λ v. is_some (string_of v)) args × GitAllowed reg (λ g. Unit)
Allowed list_backups reg args = GitAllowed reg (λ g. Unit)
Allowed preview_backup reg args =
    MayHave "name" (λ v. is_some (string_of v)) args × GitAllowed reg (λ g. Unit)
Allowed search_meaning reg args =
    HasString "query" args
    × MayHave "limit" (λ v. is_some (number_of v)) args
    × ((engine : Engine) × (reg.semantic ≡ some engine))
