-- ===== src/Tools/PatchStack.antt =====
-- internal/tools/patch_stack.go: the stack of backups and its file. The JSON form of the stack is an
-- argument. The errors are those of the git tool, which works on the stack.
use animus_coder.Base.{
  ℕ, Bool, true, false, Option, none, some, List, [], ◌∷◌, if◌then◌else◌, Text, codes, Result, ok,
  err,
}
use animus_coder.Tools.Terminal.{ProcessError}
use animus_coder.Tools.Disk.{Node, file, folder, find_entry, find, write, mkdir_all, parent}

pub record PatchEntry : Type 0 where
  pub id : Text
  pub parent_id : Text
  pub file_name : Text
  pub created_at : ℕ

abbrev pub PatchStack : Type 0
PatchStack = List PatchEntry

pub data GitError : Type 0 where
  git_disabled dry_run_only not_in_dry_run_mode no_backups : GitError
  no_folder no_patch_file no_stack_file stack_unreadable stack_malformed backup_unreadable :
      GitError
  backup_not_found : Text → GitError
  create_backup_failed : GitError → GitError
  process_failed : ProcessError → GitError

-- The encoding/json package on a stack.
pub record StackFormat : Type 0 where
  pub marshal : PatchStack → Text
  pub unmarshal : Text → Option PatchStack

unfoldable pub latest : PatchStack → Option PatchEntry
latest [] = none
latest (e ∷ []) = some e
latest (e ∷ f ∷ es) = latest (f ∷ es)

abbrev pub stack_json : Text
stack_json = codes "stack.json"

-- An error of os.ReadFile that os.IsNotExist does not take: a file stands on the way.
unfoldable pub blocked : List Text → Node → Bool
blocked [] node = false
blocked (p ∷ ps) (file content) = true
blocked (p ∷ ps) (folder es) = elim (find_entry p es) [ none ↦ false | some node ↦ blocked ps node ]

unfoldable pub decoded : Option PatchStack → Result GitError PatchStack
decoded none = err stack_malformed
decoded (some stack) = ok stack

-- `save`: the error, if any, and the disk.
unfoldable pub save_made : Text → List Text → Node → Option Node → Option GitError × Node
save_made content path disk none = (some no_folder, disk)
save_made content path disk (some made) = elim (write path content made) [
  | none ↦ (some no_stack_file, made)
  | some new ↦ (none, new)
]

module _ (format : StackFormat) where
  unfoldable pub load_patch_stack : List Text → Node → Result GitError PatchStack
  unfolding decoded
  load_patch_stack path disk = elim (find path disk) [
    | none ↦ if blocked path disk then err stack_unreadable else ok []
    | some (folder es) ↦ err stack_unreadable
    | some (file content) ↦ decoded (format.unmarshal content)
  ]

  unfoldable pub save : PatchStack → List Text → Node → Option GitError × Node
  unfolding save_made
  save stack path disk = save_made (format.marshal stack) path disk (mkdir_all (parent path) disk)
