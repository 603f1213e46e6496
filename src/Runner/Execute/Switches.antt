-- ===== src/Runner/Execute/Switches.antt =====
-- internal/rpc/agent/runner.go: tools that are switched off, or for dry runs only, and that they then
-- change nothing.
use animus_coder.Base.{
  true, ap, ◌∙◌, ℕ, ◌≡◌, refl, inl, inr, Bool, false, Option, none, some, List, arith, Text,
  Result-cases,
}
use animus_coder.Tools.Disk.{Node, read}
use animus_coder.Tools.Filesystem.{Filesystem, write_file}
use animus_coder.Tools.Terminal.{Terminal, Context, refusal, exec, Process}
use animus_coder.Tools.Git.{
  with_stack, GitTool, status, apply_patch, restore_backup, list_backups, preview_backup,
  load_or_init_stack, folder_name, read_backup, GitProcess,
}
use animus_coder.Tools.Schema.{ToolRegistry}
use animus_coder.Runner.Execute.{ToolState}
use animus_coder.Tools.PatchStack.{PatchStack, StackFormat}
use animus_coder.Tools.Git.DryRun.{OnlyReads, apply_patch-dry, restore_backup-dry, status-keeps}

-- A tool that is missing or has its switch off.
abbrev pub NoWrites : Option Filesystem → Type 0
NoWrites none = Unit {0}
NoWrites (some fs) = fs.allow_write ≡ false

abbrev pub NoCommands : Option Terminal → Type 0
NoCommands none = Unit {0}
NoCommands (some t) = t.allow_execution ≡ false

-- A git tool that is missing or of the kind that is asked for: switched off, or for dry runs only.
abbrev pub GitIs : (GitTool → Type 0) → Option GitTool → Type 0
GitIs P none = Unit {0}
GitIs P (some g) = P g

abbrev pub SwitchedOff : GitTool → Type 0
SwitchedOff g = g.allow_exec ≡ false

abbrev pub DryRunsOnly : GitTool → Type 0
DryRunsOnly g = g.dry_run_only ≡ true

pub record IsReadOnly (P : GitTool → Type 0) (reg : ToolRegistry) : Type 0 where
  pub no_writes : NoWrites reg.fs
  pub no_commands : NoCommands reg.terminal
  pub no_git : GitIs P reg.git

pub write_file-unchanged :
    (fs : Filesystem) (path content : Text) (disk : Node)
    → fs.allow_write ≡ false
    → (write_file fs path content disk).1 ≡ disk
unfolding write_file
write_file-unchanged fs path content disk h = ground arith

abbrev pub SafeWith : (GitTool → Type 0) → Option ToolRegistry → Type 0
SafeWith P none = Unit {0}
SafeWith P (some reg) = IsReadOnly P reg

-- Tools that cannot change the disk.
abbrev pub SafeRegistry : Option ToolRegistry → Type 0
SafeRegistry = SafeWith SwitchedOff

-- What is seen of the disk stays as it is, with tools that cannot change it.
pub record IsFrozen {X : Type 0} (view : Node → X) (P : GitTool → Type 0) (disk : Node)
    (t : ToolState) : Type 0 where
  pub same : view t.disk ≡ view disk
  pub safe : SafeWith P t.registry

-- The calls of a git tool of some kind change nothing that is seen, and leave it of its kind.
pub record IsHarmless {X : Type 0} (git : GitProcess) (format : StackFormat) (view : Node → X)
    (P : GitTool → Type 0) : Type 0 where
  pub applies :
      (g : GitTool) (patch : Text) (dry_run : Bool) (now later : ℕ) (disk : Node)
      → P g
      → let (tool, after) = (apply_patch git format g patch dry_run now later disk).1 in
        (tool ≡ g) × (view after ≡ view disk)
  pub restores :
      (g : GitTool) (name : Text) (disk : Node)
      → P g
      → let (tool, after) = (restore_backup git format g name disk).1 in
        (tool ≡ g) × (view after ≡ view disk)
  pub reports : (g : GitTool) (disk : Node) → P g → view (status git g disk).1 ≡ view disk
  pub lists : (g : GitTool) (disk : Node) → P g → P (list_backups format g disk).1
  pub previews :
      (g : GitTool) (name : Text) (disk : Node) → P g → P (preview_backup format g name disk).1

pub exec-unchanged :
    {W : Type 0} (run : Process W) (ctx : Context) (t : Terminal) (command : Text)
    (args : List Text) (w : W)
    → t.allow_execution ≡ false
    → (exec run ctx t command args w).1 ≡ w
unfolding exec refusal
exec-unchanged run ctx t command args w h = rw h refl

-- What the git tool returns when it may not run.
status-unchanged :
    (git : GitProcess) (g : GitTool) (disk : Node)
    → g.allow_exec ≡ false
    → (status git g disk).1 ≡ disk
unfolding status
status-unchanged git g disk h = rw h refl

apply_patch-unchanged :
    (git : GitProcess) (format : StackFormat) (g : GitTool) (patch : Text) (dry_run : Bool)
    (now later : ℕ) (disk : Node)
    → g.allow_exec ≡ false
    → (apply_patch git format g patch dry_run now later disk).1 ≡ (g, disk)
unfolding apply_patch
apply_patch-unchanged git format g patch dry_run now later disk h = rw h refl

restore_backup-unchanged :
    (git : GitProcess) (format : StackFormat) (g : GitTool) (name : Text) (disk : Node)
    → g.allow_exec ≡ false
    → (restore_backup git format g name disk).1 ≡ (g, disk)
unfolding restore_backup
restore_backup-unchanged git format g name disk h = rw h refl

-- Loading the stack of backups changes no switch.
list_backups-switch :
    (switch : GitTool → Bool) (format : StackFormat) (g : GitTool) (disk : Node)
    → ((stack : PatchStack) → switch (with_stack g stack) ≡ switch g)
    → switch (list_backups format g disk).1 ≡ switch g
unfolding list_backups
list_backups-switch switch format g disk h =
    elim (Result-cases (load_or_init_stack format g (folder_name g.backup_dir) disk)) [
      | inl (stack, e) ↦ rw (e, list_backups) (h stack)
      | inr (x, e) ↦ rw (e, list_backups) refl
    ]

preview_backup-switch :
    (switch : GitTool → Bool) (format : StackFormat) (g : GitTool) (name : Text) (disk : Node)
    → ((stack : PatchStack) → switch (with_stack g stack) ≡ switch g)
    → switch (preview_backup format g name disk).1 ≡ switch g
unfolding preview_backup read_backup
preview_backup-switch switch format g name disk h =
    elim (Result-cases (load_or_init_stack format g (folder_name g.backup_dir) disk)) [
      | inl (stack, e) ↦ rw (preview_backup, read_backup, e) (h stack)
      | inr (x, e) ↦ rw (preview_backup, read_backup, e) refl
    ]

pub SwitchedOff-IsHarmless :
    (git : GitProcess) (format : StackFormat) → IsHarmless git format (λ disk. disk) SwitchedOff
SwitchedOff-IsHarmless git format = record {
  applies = λ g patch dry_run now later disk h.
      let e = apply_patch-unchanged git format g patch dry_run now later disk h in
      (ap (λ p. p.0) e, ap (λ p. p.1) e);
  restores = λ g name disk h.
      let e = restore_backup-unchanged git format g name disk h in
      (ap (λ p. p.0) e, ap (λ p. p.1) e);
  reports = status-unchanged git;
  lists = λ g disk h. list_backups-switch (λ t. t.allow_exec) format g disk (λ stack. refl) ∙ h;
  previews = λ g name disk h.
      preview_backup-switch (λ t. t.allow_exec) format g name disk (λ stack. refl) ∙ h;
}

pub DryRunsOnly-IsHarmless :
    (git : GitProcess) (format : StackFormat) (path : List Text)
    → OnlyReads git path
    → IsHarmless git format (read path) DryRunsOnly
DryRunsOnly-IsHarmless git format path only = record {
  applies = λ g patch dry_run now later disk h.
      apply_patch-dry git format path only g patch dry_run now later disk h;
  restores = λ g name disk h. restore_backup-dry git format path g name disk h;
  reports = λ g disk h. status-keeps git path only g disk;
  lists = λ g disk h. list_backups-switch (λ t. t.dry_run_only) format g disk (λ stack. refl) ∙ h;
  previews = λ g name disk h.
      preview_backup-switch (λ t. t.dry_run_only) format g name disk (λ stack. refl) ∙ h;
}
