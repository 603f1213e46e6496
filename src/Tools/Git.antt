-- ===== src/Tools/Git.antt =====
-- internal/tools/git.go: git commands and the backups of patches. The git process is an argument. A
-- path is taken from the root of the disk, as for an absolute working directory. The times that the
-- clock shows are arguments.
pub mod Lineage
pub mod Places
pub mod Restore
pub mod Listing
pub mod DryRun
mod Tests
use animus_coder.Base.{
  ℕ, Bool, true, false, ◌&&◌, ◌||◌, not, Option, none, some, List, [], ◌∷◌, ◌++◌, if◌then◌else◌,
  Text, codes, text_eq, show_nat, Result, ok, err,
}
use mathlib.Core.List
use animus_coder.Tools.Path.{slash}
use animus_coder.Tools.Terminal.{Finished}
use animus_coder.Tools.Disk.{Node, file, folder, parts_of, read, write, mkdir_all, parent}
use animus_coder.Tools.PatchStack.{
  PatchEntry, PatchStack, StackFormat, latest, GitError, git_disabled, dry_run_only,
  not_in_dry_run_mode, no_backups, no_folder, no_patch_file, backup_unreadable, backup_not_found,
  create_backup_failed, process_failed, stack_json, load_patch_stack, save,
}

pub record GitTool : Type 0 where
  pub working_dir : Text
  pub allow_exec : Bool
  pub dry_run_only : Bool
  pub backup_dir : Text
  pub stack : Option PatchStack

-- A git command: its arguments, working directory and input, and the disk it works on.
abbrev pub GitProcess : Type 0
GitProcess = List Text → Text → Text → Node → Finished × Node

unfoldable pub folder_name : Text → Text
folder_name dir = if text_eq dir [] then codes ".mycodex/patch-backups" else dir

-- filepath.Join of the working directory, the folder of the backups and more.
unfoldable pub backup_folder : GitTool → Text → List Text
backup_folder g dir = parts_of (g.working_dir ++ slash ∷ dir)

unfoldable pub backup_path : GitTool → Text → Text → List Text
backup_path g dir name = parts_of ((g.working_dir ++ slash ∷ dir) ++ slash ∷ name)

run_result : Finished × Node → (Text × Option GitError) × Node
run_result (f, disk) = elim f.error [
  | some e ↦ ((f.stderr, some (process_failed e)), disk)
  | none ↦ ((f.stdout, none), disk)
]

abbrev pub with_stack : GitTool → PatchStack → GitTool
with_stack g stack = record g { stack = some stack }

abbrev pub parent_of : Option PatchEntry → Text
parent_of none = []
parent_of (some e) = e.id

unfoldable pub entry_id : ℕ → Text
entry_id now = codes "backup-" ++ show_nat now

abbrev pub new_entry : PatchStack → ℕ → ℕ → PatchEntry
new_entry stack now later = record {
  id = entry_id now;
  parent_id = parent_of (latest stack);
  file_name = entry_id now ++ codes ".patch";
  created_at = later;
}

abbrev pub apply_args : Bool → List Text
apply_args true = codes "apply" ∷ codes "--check" ∷ codes "-" ∷ []
apply_args false = codes "apply" ∷ codes "-" ∷ []

-- The loop over the entries: the file name of the first that matches, or the empty text.
unfoldable pub target_named : Text → PatchStack → Text
target_named name [] = []
target_named name (e ∷ es) =
    if text_eq e.id name || text_eq e.file_name name then e.file_name else target_named name es

unfoldable pub target_file : Text → PatchStack → Result GitError Text
target_file name stack = elim (latest stack) [
  | none ↦ err no_backups
  | some last ↦
      let found = target_named name stack in
      if text_eq name []
      then ok last.file_name
      else if text_eq found []
      then err (backup_not_found name)
      else ok found
]

read_target : GitTool → Text → Node → Result GitError Text → Result GitError Text
read_target g dir disk (err e) = err e
read_target g dir disk (ok target) = elim (read (backup_path g dir target) disk) [
  | none ↦ err backup_unreadable
  | some patch ↦ ok patch
]

module _ (git : GitProcess) where
  unfoldable pub run_with_input :
      GitTool → List Text → Text → Node → (Text × Option GitError) × Node
  unfolding run_result
  run_with_input g args input disk = run_result (git args g.working_dir input disk)

  unfoldable pub status : GitTool → Node → (Text × Option GitError) × Node
  status g disk =
      if not g.allow_exec
      then (([], some git_disabled), disk)
      else run_with_input g (codes "status" ∷ codes "--short" ∷ []) [] disk

module _ (format : StackFormat) where
  -- `if g.stack == nil { g.stack = … }`.
  unfoldable pub load_or_init_stack : GitTool → Text → Node → Result GitError PatchStack
  load_or_init_stack g dir disk = elim g.stack [
    | some stack ↦ ok stack
    | none ↦ load_patch_stack format (backup_path g dir stack_json) disk
  ]

  -- The part of `createBackup` behind the loaded stack, on the disk with the folder made.
  push_backup :
      GitTool → Text → PatchStack → Text → ℕ → ℕ → Node → Option GitError × (GitTool × Node)
  push_backup g dir stack patch now later made =
      elim (write (backup_path g dir (entry_id now ++ codes ".patch")) patch made) [
        | none ↦ (some no_patch_file, (with_stack g stack, made))
        | some new ↦
            let pushed = stack ++ new_entry stack now later ∷ [] in
            let (e, disk) = save format pushed (backup_path g dir stack_json) new in
            (e, (with_stack g pushed, disk))
      ]

  backup_in :
      GitTool
      → Text
      → Text
      → ℕ
      → ℕ
      → Node
      → Result GitError PatchStack
      → Option GitError × (GitTool × Node)
  backup_in g dir patch now later made (err e) = (some e, (g, made))
  backup_in g dir patch now later made (ok stack) = push_backup g dir stack patch now later made

  unfoldable pub create_backup : GitTool → Text → ℕ → ℕ → Node → Option GitError × (GitTool × Node)
  unfolding backup_in push_backup
  create_backup g patch now later disk =
      let dir = folder_name g.backup_dir in
      elim (mkdir_all (backup_folder g dir) disk) [
        | none ↦ (some no_folder, (g, disk))
        | some made ↦ backup_in g dir patch now later made (load_or_init_stack g dir made)
      ]

  unfoldable pub list_backups : GitTool → Node → Result GitError (List Text) × GitTool
  list_backups g disk = elim (load_or_init_stack g (folder_name g.backup_dir) disk) [
    | err e ↦ (err e, g)
    | ok stack ↦ (ok (List.map (λ (e : PatchEntry). e.id) stack), with_stack g stack)
  ]

  unfoldable pub read_backup : GitTool → Text → Text → Node → Result GitError Text × GitTool
  unfolding read_target
  read_backup g dir name disk = elim (load_or_init_stack g (folder_name dir) disk) [
    | err e ↦ (err e, g)
    | ok stack ↦ (read_target g (folder_name dir) disk (target_file name stack), with_stack g stack)
  ]

  unfoldable pub preview_backup : GitTool → Text → Node → Result GitError Text × GitTool
  preview_backup g name disk = read_backup g g.backup_dir name disk

module _ (git : GitProcess) (format : StackFormat) where
  -- git on the tool and the disk that the backup left.
  apply_after :
      Text → Option GitError × (GitTool × Node) → (Text × Option GitError) × (GitTool × Node)
  apply_after patch (some e, (g, disk)) = (([], some (create_backup_failed e)), (g, disk))
  apply_after patch (none, (g, disk)) =
      let (out, disk') = run_with_input git g (apply_args false) patch disk in (out, (g, disk'))

  unfoldable pub apply_patch :
      GitTool → Text → Bool → ℕ → ℕ → Node → (Text × Option GitError) × (GitTool × Node)
  unfolding apply_after
  apply_patch g patch dry_run now later disk =
      if not g.allow_exec
      then (([], some git_disabled), (g, disk))
      else if g.dry_run_only && not dry_run
      then (([], some dry_run_only), (g, disk))
      else if not dry_run
      then apply_after patch (create_backup format g patch now later disk)
      else let (out, disk') = run_with_input git g (apply_args true) patch disk in (out, (g, disk'))

  -- `git apply -R` on what was read.
  restore_data : Node → Result GitError Text × GitTool → (Text × Option GitError) × (GitTool × Node)
  restore_data disk (err e, g) = (([], some e), (g, disk))
  restore_data disk (ok patch, g) =
      let (out, disk') = run_with_input git g (codes "apply" ∷ codes "-R" ∷ []) patch disk in
      (out, (g, disk'))

  unfoldable pub restore_backup :
      GitTool → Text → Node → (Text × Option GitError) × (GitTool × Node)
  unfolding restore_data
  restore_backup g name disk =
      if not g.allow_exec
      then (([], some git_disabled), (g, disk))
      else if g.dry_run_only
      then (([], some not_in_dry_run_mode), (g, disk))
      else restore_data disk (read_backup format g (folder_name g.backup_dir) name disk)
