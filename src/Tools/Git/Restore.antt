-- ===== src/Tools/Git/Restore.antt =====
-- `RestoreBackup` after `ApplyPatch`.
use animus_coder.Base.{
  ℕ, ◌≡◌, refl, sym, ap, ◌∙◌, subst, inl, inr, true, false, Option, none, some, List, [], ◌∷◌, ◌++◌,
  arith, Option-cases, Text, codes, text_eq, ok, Result-cases,
}
use animus_coder.Tools.Disk.{Node, read, write, mkdir_all, parent, content_of}
use animus_coder.Tools.Disk.Laws.{Diverges, read-write, find-write, read-mkdir_all}
use animus_coder.Tools.PatchStack.{
  PatchEntry, PatchStack, StackFormat, latest, stack_json, save_made, save,
}
use animus_coder.Tools.Git.{
  GitTool, GitProcess, folder_name, backup_folder, backup_path, with_stack, entry_id, new_entry,
  run_result, target_file, read_target, apply_args, run_with_input, load_or_init_stack, push_backup,
  backup_in, create_backup, read_backup, apply_after, apply_patch, restore_data, restore_backup,
}
use animus_coder.Tools.Git.Places.{stack_json-Diverges}

latest-push : (stack : PatchStack) (e : PatchEntry) → latest (stack ++ e ∷ []) ≡ some e
unfolding latest
latest-push [] e = refl
latest-push (x ∷ []) e = refl
latest-push (x ∷ y ∷ stack) e = latest-push (y ∷ stack) e

-- A save that succeeds keeps every file that parts from stack.json.
save_made-keeps :
    (content : Text) (path qs : List Text) (disk : Node) (made : Option Node)
    → mkdir_all (parent path) disk ≡ made
    → Diverges path qs
    → read qs (save_made content path disk made).1 ≡ read qs disk
unfolding save_made
save_made-keeps content path qs disk none h d = refl
save_made-keeps content path qs disk (some m) h d = elim (Option-cases (write path content m)) [
  | inl e ↦ ground (arith, read-mkdir_all (parent path) qs disk m h)
  | inr (new, e) ↦
      let kept : read qs new ≡ read qs m =
        unfold read in ap content_of (find-write path qs content m new e d) in
      ground (arith, read-mkdir_all (parent path) qs disk m h, kept)
]

folder_name-folder_name : (dir : Text) → folder_name (folder_name dir) ≡ folder_name dir
unfolding folder_name text_eq
folder_name-folder_name [] = refl
folder_name-folder_name (c ∷ dir) = refl

module _ (format : StackFormat) where
  -- What a backup that succeeds leaves behind.
  record Saved (g : GitTool) (patch : Text) (now : ℕ) (g' : GitTool) (disk' : Node) : Type 0 where
    stack : PatchStack
    entry : PatchEntry
    named : entry.file_name ≡ entry_id now ++ codes ".patch"
    tool : g' ≡ with_stack g (stack ++ entry ∷ [])
    kept :
        read (backup_path g (folder_name g.backup_dir) (entry_id now ++ codes ".patch")) disk'
        ≡ some patch

  push_backup-Saved :
      (g : GitTool) (stack : PatchStack) (patch : Text) (now later : ℕ) (made : Node)
      → let after = push_backup format g (folder_name g.backup_dir) stack patch now later made in
        after.0 ≡ none → Saved g patch now after.1.0 after.1.1
  unfolding push_backup save
  push_backup-Saved g stack patch now later made h =
      let dir = folder_name g.backup_dir in
      let path = backup_path g dir (entry_id now ++ codes ".patch") in
      let json = backup_path g dir stack_json in
      let pushed = stack ++ new_entry stack now later ∷ [] in
      elim (Option-cases (write path patch made)) [
        | inl e ↦ absurd (ground arith)
        | inr (new, e) ↦
            rw (push_backup, e)
              (record {
                stack = stack;
                entry = new_entry stack now later;
                named = refl;
                tool = refl;
                kept =
                    save_made-keeps (format.marshal pushed) json path new
                      (mkdir_all (parent json) new) refl (stack_json-Diverges g dir now)
                    ∙ read-write path patch made new e;
              })
      ]

  create_backup-Saved :
      (g : GitTool) (patch : Text) (now later : ℕ) (disk : Node)
      → let after = create_backup format g patch now later disk in
        after.0 ≡ none → Saved g patch now after.1.0 after.1.1
  unfolding create_backup backup_in
  create_backup-Saved g patch now later disk h =
      let dir = folder_name g.backup_dir in
      elim (Option-cases (mkdir_all (backup_folder g dir) disk)) [
        | inl e ↦ absurd (ground arith)
        | inr (made, e) ↦ elim (Result-cases (load_or_init_stack format g dir made)) [
          | inr (z, q) ↦ absurd (ground arith)
          | inl (stack, q) ↦
              rw (create_backup, e, q)
                (push_backup-Saved g stack patch now later made (ground arith))
        ]
      ]

  -- The latest backup is the patch, as long as its file is left alone.
  read_backup-Saved :
      (g : GitTool) (patch : Text) (now : ℕ) (g' : GitTool) (disk' disk : Node)
      → Saved g patch now g' disk'
      → read (backup_path g (folder_name g.backup_dir) (entry_id now ++ codes ".patch")) disk
        ≡ read (backup_path g (folder_name g.backup_dir) (entry_id now ++ codes ".patch")) disk'
      → read_backup format g' (folder_name g.backup_dir) [] disk ≡ (ok patch, g')
  unfolding read_backup load_or_init_stack target_file read_target text_eq backup_path
  read_backup-Saved g patch now g' disk' disk s same = rw s.tool (
      ground
        (arith, latest-push s.stack s.entry, folder_name-folder_name g.backup_dir, s.named, s.kept))

module _ (git : GitProcess) where
  pub run_with_input-disk :
      (g : GitTool) (args : List Text) (input : Text) (disk : Node)
      → (run_with_input git g args input disk).1 ≡ (git args g.working_dir input disk).1
  unfolding run_with_input run_result
  run_with_input-disk g args input disk =
      let (f, d) = git args g.working_dir input disk in
      elim (Option-cases f.error) [ inl e ↦ ground arith | inr (x, e) ↦ ground arith ]

module _ (git : GitProcess) (format : StackFormat) where
  restore_backup-read :
      (g : GitTool) (patch : Text) (disk : Node)
      → g.allow_exec ≡ true
      → g.dry_run_only ≡ false
      → read_backup format g (folder_name g.backup_dir) [] disk ≡ (ok patch, g)
      → let (out, disk') = run_with_input git g (codes "apply" ∷ codes "-R" ∷ []) patch disk in
        restore_backup git format g [] disk ≡ (out, (g, disk'))
  unfolding restore_backup restore_data
  restore_backup-read g patch disk a d r = ground arith

  apply_patch-backed :
      (g : GitTool) (patch : Text) (now later : ℕ) (disk : Node)
      → g.allow_exec ≡ true
      → g.dry_run_only ≡ false
      → let (e, (tool, saved)) = create_backup format g patch now later disk in
        e ≡ none
        → (apply_patch git format g patch false now later disk).1
          ≡ (tool, (run_with_input git tool (apply_args false) patch saved).1)
  unfolding apply_patch apply_after
  apply_patch-backed g patch now later disk a d made = ground arith

  -- `git apply -R` runs on the patch, and the tool stays.
  abbrev Restored : Text → GitTool × Node → Type 0
  Restored patch (tool, disk) =
      let (out, disk') = run_with_input git tool (codes "apply" ∷ codes "-R" ∷ []) patch disk in
      restore_backup git format tool [] disk ≡ (out, (tool, disk'))

  Saved-Restored :
      (g : GitTool) (patch : Text) (now : ℕ) (tool : GitTool) (saved after : Node)
      → g.allow_exec ≡ true
      → g.dry_run_only ≡ false
      → Saved format g patch now tool saved
      → read (backup_path g (folder_name g.backup_dir) (entry_id now ++ codes ".patch")) after
        ≡ read (backup_path g (folder_name g.backup_dir) (entry_id now ++ codes ".patch")) saved
      → Restored patch (tool, after)
  Saved-Restored g patch now tool saved after a d s same =
      let same_folder : folder_name tool.backup_dir ≡ folder_name g.backup_dir = rw s.tool refl in
      let back : read_backup format tool (folder_name tool.backup_dir) [] after ≡ (ok patch, tool) =
        rw same_folder (read_backup-Saved format g patch now tool saved after s same) in
      restore_backup-read tool patch after (rw s.tool a) (rw s.tool d) back

  -- A patch is applied, and its backup could be made. If this `git apply` leaves the backup's file as
  -- it is, the next restoring without a name runs `git apply -R` on the same patch.
  pub restore_backup-apply_patch :
      (g : GitTool) (patch : Text) (now later : ℕ) (disk : Node)
      → g.allow_exec ≡ true
      → g.dry_run_only ≡ false
      → (create_backup format g patch now later disk).0 ≡ none
      → let path = backup_path g (folder_name g.backup_dir) (entry_id now ++ codes ".patch") in
        let saved = (create_backup format g patch now later disk).1.1 in
        read path (git (apply_args false) g.working_dir patch saved).1 ≡ read path saved
        → let (tool, after) = (apply_patch git format g patch false now later disk).1 in
          let (out, disk') =
            run_with_input git tool (codes "apply" ∷ codes "-R" ∷ []) patch after in
          restore_backup git format tool [] after ≡ (out, (tool, disk'))
  restore_backup-apply_patch g patch now later disk a d made alone =
      let (tool, saved) = (create_backup format g patch now later disk).1 in
      let s = create_backup-Saved format g patch now later disk made in
      let after = (run_with_input git tool (apply_args false) patch saved).1 in
      let place : tool.working_dir ≡ g.working_dir = rw (s.tool) refl in
      let untouched =
        ap (read (backup_path g (folder_name g.backup_dir) (entry_id now ++ codes ".patch"))) (
          run_with_input-disk git tool (apply_args false) patch saved
          ∙ ap (λ w. (git (apply_args false) w patch saved).1) place)
        ∙ alone in
      subst (Restored patch) (sym (apply_patch-backed g patch now later disk a d made))
        (Saved-Restored g patch now tool saved after a d s untouched)
