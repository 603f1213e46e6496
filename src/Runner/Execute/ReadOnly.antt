-- ===== src/Runner/Execute/ReadOnly.antt =====
-- internal/rpc/agent/runner.go: the calls of tools that may not change anything.
use animus_coder.Base.{
  ℕ, ◌+◌, ◌≡◌, refl, sym, ap, ◌∙◌, subst, inl, inr, Bool, Option, none, some, Bool-cases,
  Option-cases, Text, codes, text_eq, lookup, [],
}
use animus_coder.Tools.Disk.{Node}
use animus_coder.Tools.Filesystem.{Filesystem, write_file}
use animus_coder.Tools.Terminal.{Terminal, Context, exec}
use animus_coder.Tools.Git.{
  GitTool, status, apply_patch, restore_backup, list_backups, preview_backup,
}
use animus_coder.Tools.Value.{Args, array_of, bool_of}
use animus_coder.Tools.Schema.{ToolRegistry}
use animus_coder.Tools.Validator.{CallError, validate_call}
use animus_coder.Runner.Events.{ToolCall}
use animus_coder.Runner.Outcome.{ToolOutcome}
use animus_coder.Runner.Execute.{
  ToolState, Outside, Tool, fs_read_file, fs_write_file, fs_search, terminal_exec, git_apply_patch,
  git_status, git_restore_backup, git_list_backups, git_preview_backup, semantic_query, tool_named,
  perform, with_git, with_disk, read_with, write_with, exec_with, apply_with, status_with,
  list_with, restore_with, preview_with, query_with, search_with, dispatch, checked, execute_tool,
  execute_in, text_arg, dry_run_of, strings_of, on_git,
}
use animus_coder.Runner.Execute.Switches.{
  IsFrozen, IsHarmless, IsReadOnly, NoCommands, GitIs, NoWrites, SafeWith, exec-unchanged,
  write_file-unchanged,
}

module _ {X : Type 0} (o : Outside) (ctx : Context) (args : Args) (reg : ToolRegistry)
    (view : Node → X) (P : GitTool → Type 0) (harmless : IsHarmless o.git o.format view P)
    (disk : Node) (read_only : IsReadOnly P reg) where
  -- The state of a frozen disk, with the registry that stands here.
  abbrev Held : ToolState → Type 0
  Held t = (view t.disk ≡ view disk) × (t.registry ≡ some reg)

  held : (t : ToolState) → Held t → IsFrozen view P disk t
  held t h = record { same = h.0; safe = subst (SafeWith P) (sym h.1) read_only }

  -- The registry once its git tool has loaded its stack.
  registry-IsReadOnly : (g : GitTool) → P g → IsReadOnly P (record reg { git = some g })
  registry-IsReadOnly g h = record {
    no_writes = read_only.no_writes;
    no_commands = read_only.no_commands;
    no_git = h;
  }

  write_with-IsFrozen :
      (fs : Option Filesystem) (t : ToolState)
      → NoWrites fs
      → Held t
      → IsFrozen view P disk (write_with o ctx args reg fs t).1
  unfolding write_with
  write_with-IsFrozen none t n h = held t h
  write_with-IsFrozen (some fs) t n h =
      let path = text_arg "path" args in
      let content = text_arg "content" args in
      held (with_disk t (write_file fs path content t.disk).1)
        (ap view (write_file-unchanged fs path content t.disk n) ∙ h.0, h.1)

  exec_with-IsFrozen :
      (term : Option Terminal) (t : ToolState)
      → NoCommands term
      → Held t
      → IsFrozen view P disk (exec_with o ctx args reg term t).1
  unfolding exec_with
  exec_with-IsFrozen none t n h = held t h
  exec_with-IsFrozen (some term) t n h =
      let words = strings_of (array_of (lookup (codes "args") args)) in
      let command = text_arg "command" args in
      held (with_disk t (exec o.run ctx term command words t.disk).1)
        (ap view (exec-unchanged o.run ctx term command words t.disk n) ∙ h.0, h.1)

  -- A call of the git tool that changes neither the tool nor what is seen of the disk.
  git-IsFrozen :
      (g : GitTool) (t : ToolState) (r : GitTool × Node) (n : ℕ)
      → P g
      → Held t
      → (r.0 ≡ g) × (view r.1 ≡ view t.disk)
      → IsFrozen view P disk (record (with_git reg t r.0 r.1) { readings = n })
  git-IsFrozen g t r n p h e = record {
    same = e.1 ∙ h.0;
    safe = registry-IsReadOnly r.0 (subst P (sym e.0) p);
  }

  apply_with-IsFrozen :
      (g : GitTool) (t : ToolState)
      → P g
      → Held t
      → IsFrozen view P disk (apply_with o ctx args reg g t).1
  unfolding apply_with
  apply_with-IsFrozen g t off h =
      let dry_run = dry_run_of (bool_of (lookup (codes "dry_run") args)) g in
      let patch = text_arg "patch" args in
      let first = o.now t.readings in
      let second = o.now (t.readings + 1) in
      git-IsFrozen g t (apply_patch o.git o.format g patch dry_run first second t.disk).1
        (t.readings + 2) off h (harmless.applies g patch dry_run first second t.disk off)

  restore_with-IsFrozen :
      (g : GitTool) (t : ToolState)
      → P g
      → Held t
      → IsFrozen view P disk (restore_with o ctx args reg g t).1
  unfolding restore_with
  restore_with-IsFrozen g t off h =
      let name = text_arg "name" args in
      git-IsFrozen g t (restore_backup o.git o.format g name t.disk).1 t.readings off h
        (harmless.restores g name t.disk off)

  status_with-IsFrozen :
      (g : GitTool) (t : ToolState)
      → P g
      → Held t
      → IsFrozen view P disk (status_with o ctx args reg g t).1
  unfolding status_with
  status_with-IsFrozen g t off h =
      held (with_disk t (status o.git g t.disk).1) (harmless.reports g t.disk off ∙ h.0, h.1)

  list_with-IsFrozen :
      (g : GitTool) (t : ToolState)
      → P g
      → Held t
      → IsFrozen view P disk (list_with o ctx args reg g t).1
  unfolding list_with
  list_with-IsFrozen g t off h = record {
    same = h.0;
    safe = registry-IsReadOnly (list_backups o.format g t.disk).1 (harmless.lists g t.disk off);
  }

  preview_with-IsFrozen :
      (g : GitTool) (t : ToolState)
      → P g
      → Held t
      → IsFrozen view P disk (preview_with o ctx args reg g t).1
  unfolding preview_with
  preview_with-IsFrozen g t off h =
      let name = text_arg "name" args in
      record {
        same = h.0;
        safe =
            registry-IsReadOnly (preview_backup o.format g name t.disk).1
              (harmless.previews g name t.disk off);
      }

  on_git-IsFrozen :
      (call : GitTool → ToolState → ToolOutcome × ToolState) (g : Option GitTool) (t : ToolState)
      → ((g' : GitTool) → P g' → IsFrozen view P disk (call g' t).1)
      → GitIs P g
      → Held t
      → IsFrozen view P disk (on_git o ctx args reg call g t).1
  on_git-IsFrozen call none t f n h = held t h
  on_git-IsFrozen call (some g) t f n h = f g n

  read_with-IsFrozen :
      (fs : Option Filesystem) (t : ToolState)
      → Held t
      → IsFrozen view P disk (read_with o ctx args reg fs t).1
  unfolding read_with
  read_with-IsFrozen none t h = held t h
  read_with-IsFrozen (some fs) t h = held t h

  search_with-IsFrozen :
      (fs : Option Filesystem) (t : ToolState)
      → Held t
      → IsFrozen view P disk (search_with o ctx args reg fs t).1
  unfolding search_with
  search_with-IsFrozen none t h = elim (Bool-cases (text_eq (text_arg "pattern" args) [])) [
    | inl e ↦ rw e (held t h)
    | inr e ↦ rw e (held t h)
  ]
  search_with-IsFrozen (some fs) t h = held t h

  query_with-IsFrozen :
      (t : ToolState) → Held t → IsFrozen view P disk (query_with o ctx args reg t).1
  unfolding query_with
  query_with-IsFrozen t h = elim (Option-cases reg.semantic) [
    | inl e ↦ rw e (held t h)
    | inr (x, e) ↦ rw e (held t h)
  ]

  perform-IsFrozen :
      (tool : Tool) (t : ToolState)
      → Held t
      → IsFrozen view P disk (perform o ctx args reg tool t).1
  unfolding perform
  perform-IsFrozen fs_read_file t h = read_with-IsFrozen reg.fs t h
  perform-IsFrozen fs_write_file t h = write_with-IsFrozen reg.fs t read_only.no_writes h
  perform-IsFrozen fs_search t h = search_with-IsFrozen reg.fs t h
  perform-IsFrozen terminal_exec t h = exec_with-IsFrozen reg.terminal t read_only.no_commands h
  perform-IsFrozen git_apply_patch t h =
      on_git-IsFrozen (apply_with o ctx args reg) reg.git t (λ g n. apply_with-IsFrozen g t n h)
        read_only.no_git h
  perform-IsFrozen git_status t h =
      on_git-IsFrozen (status_with o ctx args reg) reg.git t (λ g n. status_with-IsFrozen g t n h)
        read_only.no_git h
  perform-IsFrozen git_restore_backup t h =
      on_git-IsFrozen (restore_with o ctx args reg) reg.git t (λ g n. restore_with-IsFrozen g t n h)
        read_only.no_git h
  perform-IsFrozen git_list_backups t h =
      on_git-IsFrozen (list_with o ctx args reg) reg.git t (λ g n. list_with-IsFrozen g t n h)
        read_only.no_git h
  perform-IsFrozen git_preview_backup t h =
      on_git-IsFrozen (preview_with o ctx args reg) reg.git t (λ g n. preview_with-IsFrozen g t n h)
        read_only.no_git h
  perform-IsFrozen semantic_query t h = query_with-IsFrozen t h

  dispatch-IsFrozen :
      (name : Text) (tool : Option Tool) (t : ToolState)
      → Held t
      → IsFrozen view P disk (dispatch o ctx args reg name tool t).1
  dispatch-IsFrozen name none t h = held t h
  dispatch-IsFrozen name (some tool) t h = perform-IsFrozen tool t h

  checked-IsFrozen :
      (name : Text) (e : Option CallError) (t : ToolState)
      → Held t
      → IsFrozen view P disk (checked o ctx args reg name e t).1
  checked-IsFrozen name (some e) t h = held t h
  checked-IsFrozen name none t h = dispatch-IsFrozen name (tool_named name) t h

module _ {X : Type 0} (o : Outside) (ctx : Context) (cancelled : Bool) (tc : ToolCall)
    (view : Node → X) (P : GitTool → Type 0) (harmless : IsHarmless o.git o.format view P)
    (disk : Node) where
  execute_in-IsFrozen :
      (reg : Option ToolRegistry) (t : ToolState)
      → t.registry ≡ reg
      → IsFrozen view P disk t
      → IsFrozen view P disk (execute_in o ctx cancelled tc t reg).1
  execute_in-IsFrozen none t e f = f
  execute_in-IsFrozen (some reg) t e f = elim (Bool-cases cancelled) [
    | inl c ↦ rw c f
    | inr c ↦ rw c (
        checked-IsFrozen o ctx tc.args reg view P harmless disk (subst (SafeWith P) e f.safe)
          tc.name (validate_call (some reg) tc.name tc.args) t (f.same, e))
  ]

  -- With writing and commands switched off or missing, and calls of git that change nothing that is
  -- seen, a call of any tool with any arguments leaves the view of the disk and these switches.
  pub execute_tool-IsFrozen :
      (t : ToolState)
      → IsFrozen view P disk t
      → IsFrozen view P disk (execute_tool o ctx cancelled tc t).1
  unfolding execute_tool
  execute_tool-IsFrozen t f = execute_in-IsFrozen t.registry t refl f
