-- ===== src/Tools/Git/DryRun.antt =====
-- A tool for dry runs only.
use animus_coder.Base.{
  ℕ, ◌≡◌, refl, ◌∙◌, ap, inl, inr, Bool, true, false, arith, Bool-cases, List, [], ◌∷◌, Text, codes,
}
use animus_coder.Tools.Disk.{Node, read}
use animus_coder.Tools.PatchStack.{StackFormat}
use animus_coder.Tools.Git.{
  GitTool, GitProcess, apply_args, run_with_input, status, apply_patch, restore_backup,
}
use animus_coder.Tools.Git.Restore.{run_with_input-disk}

-- The two commands of git that only look at its work tree leave the file at `path` alone.
pub record OnlyReads (git : GitProcess) (path : List Text) : Type 0 where
  pub on_status :
      (dir input : Text) (disk : Node)
      → read path (git (codes "status" ∷ codes "--short" ∷ []) dir input disk).1 ≡ read path disk
  pub on_check :
      (dir input : Text) (disk : Node)
      → read path (git (apply_args true) dir input disk).1 ≡ read path disk

module _ (git : GitProcess) (format : StackFormat) (path : List Text) where
  pub restore_backup-dry :
      (g : GitTool) (name : Text) (disk : Node)
      → g.dry_run_only ≡ true
      → let (tool, after) = (restore_backup git format g name disk).1 in
        (tool ≡ g) × (read path after ≡ read path disk)
  unfolding restore_backup
  restore_backup-dry g name disk h = elim (Bool-cases g.allow_exec) [
    | inl a ↦ rw (a, h) (refl, refl)
    | inr a ↦ rw a (refl, refl)
  ]

  -- Every call that is not for a dry run is refused before a backup is made.
  pub apply_patch-dry :
      OnlyReads git path
      → (g : GitTool) (patch : Text) (dry_run : Bool) (now later : ℕ) (disk : Node)
      → g.dry_run_only ≡ true
      → let (tool, after) = (apply_patch git format g patch dry_run now later disk).1 in
        (tool ≡ g) × (read path after ≡ read path disk)
  unfolding apply_patch
  apply_patch-dry only g patch false now later disk h = elim (Bool-cases g.allow_exec) [
    | inl a ↦ rw (a, h) (refl, refl)
    | inr a ↦ rw a (refl, refl)
  ]
  apply_patch-dry only g patch true now later disk h =
      let kept : read path (run_with_input git g (apply_args true) patch disk).1 ≡ read path disk =
        ap (read path) (run_with_input-disk git g (apply_args true) patch disk)
        ∙ only.on_check g.working_dir patch disk in
      elim (Bool-cases g.allow_exec) [
        | inl a ↦ (ground arith, ground (arith, kept))
        | inr a ↦ (ground arith, ground arith)
      ]

module _ (git : GitProcess) (path : List Text) (only : OnlyReads git path) where
  pub status-keeps : (g : GitTool) (disk : Node) → read path (status git g disk).1 ≡ read path disk
  unfolding status
  status-keeps g disk =
      let args = codes "status" ∷ codes "--short" ∷ [] in
      let kept : read path (run_with_input git g args [] disk).1 ≡ read path disk =
        ap (read path) (run_with_input-disk git g args [] disk)
        ∙ only.on_status g.working_dir [] disk in
      elim (Bool-cases g.allow_exec) [ inl a ↦ ground (arith, kept) | inr a ↦ ground arith ]
