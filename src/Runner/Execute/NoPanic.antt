-- ===== src/Runner/Execute/NoPanic.antt =====
-- A call of a tool does not follow a nil pointer where the registry holds the file and terminal tools.
use animus_coder.Base.{
  ◌+◌, ◌≡◌, refl, sym, subst, inl, inr, Bool, true, Option, none, some, arith, Bool-cases,
  Option-cases, is_some, length, Text, codes, lookup, pos,
}
use animus_coder.Tools.Filesystem.{Filesystem, read_file, write_file}
use animus_coder.Tools.Filesystem.Search.{search_files}
use animus_coder.Semantic.Search.{semantic_search}
use animus_coder.Semantic.Tokens.{tokenize}
use animus_coder.Tools.Terminal.{Terminal, Context, exec}
use animus_coder.Tools.Git.{
  GitTool, status, apply_patch, restore_backup, list_backups, preview_backup,
}
use animus_coder.Tools.Value.{Args, bool_of, array_of, number_of}
use animus_coder.Tools.Schema.{ToolRegistry}
use animus_coder.Tools.Validator.{CallError, validate_call}
use animus_coder.Tools.Validator.NotNil.{NotNil, validate_call-NotNil}
use animus_coder.Runner.Events.{ToolCall}
use animus_coder.Runner.Outcome.{ToolOutcome}
use animus_coder.Runner.Execute.{
  ToolState, Outside, Tool, fs_read_file, fs_write_file, fs_search, terminal_exec, git_apply_patch,
  git_status, git_restore_backup, git_list_backups, git_preview_backup, semantic_query, tool_named,
  read_with, write_with, search_with, exec_with, apply_with, status_with, restore_with, list_with,
  preview_with, on_git, query_with, text_arg, strings_of, dry_run_of, limit_of, perform, dispatch,
  checked, execute_in, execute_tool,
}
use animus_coder.Runner.Outcome.NoPanic.{
  NoPanic, fs_outcome-NoPanic, written-NoPanic, results_outcome-NoPanic, exec_outcome-NoPanic,
  git_outcome-NoPanic, backup_outcome-NoPanic, list_outcome-NoPanic, hits_outcome-NoPanic,
  invalid_outcome-NoPanic,
}

-- A registry, if there is one, has a filesystem and a terminal tool.
abbrev pub HasTools : Option ToolRegistry → Type 0
HasTools none = Unit {0}
HasTools (some reg) = (is_some reg.fs ≡ true) × (is_some reg.terminal ≡ true)

-- A call that has not followed a nil pointer, and the registry behind it.
abbrev Safe : ToolOutcome × ToolState → Type 0
Safe r = NoPanic r.0 × HasTools r.1.registry

module _ (o : Outside) (ctx : Context) (args : Args) (reg : ToolRegistry)
    (there : HasTools (some reg)) where
  read_with-Safe :
      (fs : Option Filesystem) (t : ToolState)
      → is_some fs ≡ true
      → HasTools t.registry
      → Safe (read_with o ctx args reg fs t)
  unfolding read_with
  read_with-Safe none t h i = absurd (ground arith)
  read_with-Safe (some fs) t h i =
      (fs_outcome-NoPanic (read_file fs (text_arg "path" args) t.disk), i)

  write_with-Safe :
      (fs : Option Filesystem) (t : ToolState)
      → is_some fs ≡ true
      → HasTools t.registry
      → Safe (write_with o ctx args reg fs t)
  unfolding write_with
  write_with-Safe none t h i = absurd (ground arith)
  write_with-Safe (some fs) t h i =
      (written-NoPanic (write_file fs (text_arg "path" args) (text_arg "content" args) t.disk).0, i)

  search_with-Safe :
      (fs : Option Filesystem) (t : ToolState)
      → is_some fs ≡ true
      → HasTools t.registry
      → Safe (search_with o ctx args reg fs t)
  unfolding search_with
  search_with-Safe none t h i = absurd (ground arith)
  search_with-Safe (some fs) t h i = (
    results_outcome-NoPanic
        (search_files fs (text_arg "root" args) (text_arg "pattern" args) (pos 10) t.disk),
    i,
  )

  exec_with-Safe :
      (term : Option Terminal) (t : ToolState)
      → is_some term ≡ true
      → HasTools t.registry
      → Safe (exec_with o ctx args reg term t)
  unfolding exec_with
  exec_with-Safe none t h i = absurd (ground arith)
  exec_with-Safe (some term) t h i =
      let words = strings_of (array_of (lookup (codes "args") args)) in
      (exec_outcome-NoPanic (exec o.run ctx term (text_arg "command" args) words t.disk).0, i)

  on_git-Safe :
      (call : GitTool → ToolState → ToolOutcome × ToolState) (g : Option GitTool) (t : ToolState)
      → ((g' : GitTool) → Safe (call g' t))
      → HasTools t.registry
      → Safe (on_git o ctx args reg call g t)
  on_git-Safe call none t f i = (tt, i)
  on_git-Safe call (some g) t f i = f g

  apply_with-Safe : (t : ToolState) (g : GitTool) → Safe (apply_with o ctx args reg g t)
  unfolding apply_with
  apply_with-Safe t g =
      let dry_run = dry_run_of (bool_of (lookup (codes "dry_run") args)) g in
      let first = o.now t.readings in
      let second = o.now (t.readings + 1) in
      (
        git_outcome-NoPanic
            (apply_patch o.git o.format g (text_arg "patch" args) dry_run first second t.disk).0,
        there,
      )

  restore_with-Safe : (t : ToolState) (g : GitTool) → Safe (restore_with o ctx args reg g t)
  unfolding restore_with
  restore_with-Safe t g =
      (git_outcome-NoPanic (restore_backup o.git o.format g (text_arg "name" args) t.disk).0, there)

  list_with-Safe : (t : ToolState) (g : GitTool) → Safe (list_with o ctx args reg g t)
  unfolding list_with
  list_with-Safe t g = (list_outcome-NoPanic (list_backups o.format g t.disk).0, there)

  preview_with-Safe : (t : ToolState) (g : GitTool) → Safe (preview_with o ctx args reg g t)
  unfolding preview_with
  preview_with-Safe t g =
      (backup_outcome-NoPanic (preview_backup o.format g (text_arg "name" args) t.disk).0, there)

  status_with-Safe :
      (t : ToolState) → HasTools t.registry → (g : GitTool) → Safe (status_with o ctx args reg g t)
  unfolding status_with
  status_with-Safe t i g = (git_outcome-NoPanic (status o.git g t.disk).0, i)

  query_with-Safe : (t : ToolState) → HasTools t.registry → Safe (query_with o ctx args reg t)
  unfolding query_with
  query_with-Safe t i = elim (Option-cases reg.semantic) [
    | inl e ↦ rw e (tt, i)
    | inr (x, e) ↦
        let query = text_arg "query" args in
        let limit = limit_of (number_of (lookup (codes "limit") args)) in
        rw e (
          hits_outcome-NoPanic o.two_digits (length (tokenize query))
              (semantic_search (some x) query limit t.disk),
          i,
        )
  ]

  perform-Safe :
      (tool : Tool) (t : ToolState) → HasTools t.registry → Safe (perform o ctx args reg tool t)
  unfolding perform
  perform-Safe fs_read_file t i = read_with-Safe reg.fs t there.0 i
  perform-Safe fs_write_file t i = write_with-Safe reg.fs t there.0 i
  perform-Safe fs_search t i = search_with-Safe reg.fs t there.0 i
  perform-Safe terminal_exec t i = exec_with-Safe reg.terminal t there.1 i
  perform-Safe git_apply_patch t i =
      on_git-Safe (apply_with o ctx args reg) reg.git t (apply_with-Safe t) i
  perform-Safe git_status t i =
      on_git-Safe (status_with o ctx args reg) reg.git t (status_with-Safe t i) i
  perform-Safe git_restore_backup t i =
      on_git-Safe (restore_with o ctx args reg) reg.git t (restore_with-Safe t) i
  perform-Safe git_list_backups t i =
      on_git-Safe (list_with o ctx args reg) reg.git t (list_with-Safe t) i
  perform-Safe git_preview_backup t i =
      on_git-Safe (preview_with o ctx args reg) reg.git t (preview_with-Safe t) i
  perform-Safe semantic_query t i = query_with-Safe t i

  dispatch-Safe :
      (name : Text) (tool : Option Tool) (t : ToolState)
      → HasTools t.registry
      → Safe (dispatch o ctx args reg name tool t)
  dispatch-Safe name none t i = (tt, i)
  dispatch-Safe name (some tool) t i = perform-Safe tool t i

  checked-Safe :
      (name : Text) (e : Option CallError) (t : ToolState)
      → NotNil e
      → HasTools t.registry
      → Safe (checked o ctx args reg name e t)
  checked-Safe name (some e) t n i = (invalid_outcome-NoPanic e n, i)
  checked-Safe name none t n i = dispatch-Safe name (tool_named name) t i

module _ (o : Outside) (ctx : Context) (cancelled : Bool) (tc : ToolCall) where
  execute_in-Safe :
      (reg : Option ToolRegistry) (t : ToolState)
      → t.registry ≡ reg
      → HasTools reg
      → Safe (execute_in o ctx cancelled tc t reg)
  execute_in-Safe none t e i = (tt, subst HasTools (sym e) i)
  execute_in-Safe (some reg) t e i = elim (Bool-cases cancelled) [
    | inl c ↦ rw c (tt, subst HasTools (sym e) i)
    | inr c ↦ rw c (
        checked-Safe o ctx tc.args reg i tc.name (validate_call (some reg) tc.name tc.args) t
          (validate_call-NotNil reg i.0 tc.name tc.args) (subst HasTools (sym e) i))
  ]

  pub execute_tool-Safe :
      (t : ToolState)
      → HasTools t.registry
      → NoPanic (execute_tool o ctx cancelled tc t).0
        × HasTools (execute_tool o ctx cancelled tc t).1.registry
  unfolding execute_tool
  execute_tool-Safe t i = execute_in-Safe t.registry t refl i
