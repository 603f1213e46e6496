-- ===== src/Tools/Git/Listing.antt =====
-- `ListBackups` after `createBackup`.
use animus_coder.Base.{
  ℕ, ◌≡◌, refl, ap, inl, inr, none, some, List, [], ◌∷◌, ◌++◌, arith, Option-cases, Text, codes, ok,
}
use mathlib.Core.List
use animus_coder.Tools.Disk.{Node, write, mkdir_all}
use animus_coder.Tools.PatchStack.{PatchEntry, PatchStack, StackFormat}
use animus_coder.Tools.Git.{
  GitTool, folder_name, backup_folder, backup_path, with_stack, entry_id, new_entry,
  load_or_init_stack, push_backup, backup_in, create_backup, list_backups,
}

abbrev pub ids_of : PatchStack → List Text
ids_of stack = List.map (λ (e : PatchEntry). e.id) stack

ids_of-push :
    (stack : PatchStack) (e : PatchEntry) → ids_of (stack ++ e ∷ []) ≡ ids_of stack ++ e.id ∷ []
ids_of-push [] e = refl
ids_of-push (x ∷ stack) e = ap (λ ids. x.id ∷ ids) (ids_of-push stack e)

module _ (format : StackFormat) where
  push_backup-tool :
      (g : GitTool) (dir : Text) (stack : PatchStack) (patch : Text) (now later : ℕ) (made : Node)
      → (push_backup format g dir stack patch now later made).0 ≡ none
      → (push_backup format g dir stack patch now later made).1.0
        ≡ with_stack g (stack ++ new_entry stack now later ∷ [])
  unfolding push_backup
  push_backup-tool g dir stack patch now later made h =
      elim (Option-cases (write (backup_path g dir (entry_id now ++ codes ".patch")) patch made)) [
        | inl e ↦ absurd (ground arith)
        | inr (new, e) ↦ rw (push_backup, e) refl
      ]

  create_backup-tool :
      (g : GitTool) (stack : PatchStack) (patch : Text) (now later : ℕ) (disk : Node)
      → g.stack ≡ some stack
      → (create_backup format g patch now later disk).0 ≡ none
      → (create_backup format g patch now later disk).1.0
        ≡ with_stack g (stack ++ new_entry stack now later ∷ [])
  unfolding create_backup backup_in load_or_init_stack
  create_backup-tool g stack patch now later disk s h =
      let dir = folder_name g.backup_dir in
      elim (Option-cases (mkdir_all (backup_folder g dir) disk)) [
        | inl e ↦ absurd (ground arith)
        | inr (made, e) ↦
            let pushed = push_backup-tool g dir stack patch now later made in ground arith
      ]

  -- A tool that holds a stack saves a backup: the listing shows the ids from before and then the new
  -- one, whatever is on the disk by then.
  pub list_backups-create_backup :
      (g : GitTool) (stack : PatchStack) (patch : Text) (now later : ℕ) (disk after : Node)
      → g.stack ≡ some stack
      → (create_backup format g patch now later disk).0 ≡ none
      → (list_backups format (create_backup format g patch now later disk).1.0 after).0
        ≡ ok (ids_of stack ++ entry_id now ∷ [])
  unfolding list_backups load_or_init_stack
  list_backups-create_backup g stack patch now later disk after s h =
      rw (create_backup-tool g stack patch now later disk s h)
        (ap ok (ids_of-push stack (new_entry stack now later)))
