-- ===== src/Runner/Execute.antt =====
-- internal/rpc/agent/runner.go: `executeTool`, the call of one tool. The processes work on the disk
-- of the file tools. What is not under the repository is an argument.
pub mod Switches
pub mod ReadOnly
pub mod NoPanic
mod Tests
use animus_coder.Base.{
  ℕ, ◌+◌, String, Bool, Option, none, some, List, [], ◌∷◌, if◌then◌else◌, length, Text, codes,
  text_eq, lookup, ℤ, pos, ok,
}
use animus_coder.Semantic.Tokens.{tokenize}
use animus_coder.Semantic.Search.{semantic_search}
use animus_coder.Tools.Disk.{Node}
use animus_coder.Tools.Filesystem.{Filesystem, pattern_required, read_file, write_file}
use animus_coder.Tools.Filesystem.Search.{search_files}
use animus_coder.Tools.Terminal.{Terminal, Process, Context, exec}
use animus_coder.Tools.PatchStack.{StackFormat}
use animus_coder.Tools.Git.{
  GitTool, GitProcess, status, apply_patch, restore_backup, list_backups, preview_backup,
}
use animus_coder.Tools.Value.{
  Value, Values, no_values, item, string, Args, string_of, bool_of, number_of, array_of,
}
use animus_coder.Tools.Schema.{ToolRegistry}
use animus_coder.Tools.Validator.{CallError, validate_call}
use animus_coder.Runner.Events.{ToolCall}
use animus_coder.Runner.Outcome.{
  no_tools, context_done, fs_failed, invalid_outcome, git_unavailable, semantic_unavailable,
  unknown_tool, ToolOutcome, refused, panics, fs_outcome, written, results_outcome, exec_outcome,
  git_outcome, backup_outcome, list_outcome, hits_outcome,
}

-- What the tools of a run share: the registry (it may be nil) with its git tool, the disk, and how often the git
-- tool has read the clock.
pub record ToolState : Type 0 where
  pub registry : Option ToolRegistry
  pub disk : Node
  pub readings : ℕ

-- Processes, JSON of the patch stack, the clock by the number of its reading, and "%.2f" of a quotient.
pub record Outside : Type 0 where
  pub run : Process Node
  pub git : GitProcess
  pub format : StackFormat
  pub now : ℕ → ℕ
  pub two_digits : ℕ → ℕ → Text

abbrev pub text_arg : String → Args → Text
text_arg name args = elim (string_of (lookup (codes name) args)) [ none ↦ [] | some s ↦ s ]

-- The strings among the values.
unfoldable pub strings_in : Values → List Text
strings_in no_values = []
strings_in (item (string s) vs) = s ∷ strings_in vs
strings_in (item v vs) = strings_in vs

abbrev pub strings_of : Option Values → List Text
strings_of none = []
strings_of (some vs) = strings_in vs

-- The cases of the `switch` over the name.
pub data Tool : Type 0 where
  fs_read_file fs_write_file fs_search terminal_exec git_apply_patch git_status git_restore_backup
        git_list_backups git_preview_backup semantic_query :
      Tool

unfoldable pub tool_named : Text → Option Tool
tool_named name =
    if text_eq name (codes "fs.read_file")
    then some fs_read_file
    else if text_eq name (codes "fs.write_file")
    then some fs_write_file
    else if text_eq name (codes "fs.search")
    then some fs_search
    else if text_eq name (codes "terminal.exec")
    then some terminal_exec
    else if text_eq name (codes "git.apply_patch")
    then some git_apply_patch
    else if text_eq name (codes "git.status")
    then some git_status
    else if text_eq name (codes "git.restore_backup")
    then some git_restore_backup
    else if text_eq name (codes "git.list_backups")
    then some git_list_backups
    else if text_eq name (codes "git.preview_backup")
    then some git_preview_backup
    else if text_eq name (codes "semantic.search")
    then some semantic_query
    else none

abbrev pub with_disk : ToolState → Node → ToolState
with_disk t disk = record t { disk = disk }

-- The registry points at its git tool, which keeps the stack that it has loaded.
abbrev pub with_git : ToolRegistry → ToolState → GitTool → Node → ToolState
with_git reg t g disk = record t { registry = some (record reg { git = some g }); disk = disk }

-- `dry_run`, or dry runs only where the argument is no Boolean.
abbrev pub dry_run_of : Option Bool → GitTool → Bool
dry_run_of (some b) g = b
dry_run_of none g = g.dry_run_only

abbrev pub limit_of : Option ℤ → ℤ
limit_of none = pos 0
limit_of (some n) = n

module _ (o : Outside) (ctx : Context) (args : Args) (reg : ToolRegistry) where
  -- The calls of the filesystem tool, which may be nil.
  unfoldable pub read_with : Option Filesystem → ToolState → ToolOutcome × ToolState
  read_with none t = (panics, t)
  read_with (some fs) t = (fs_outcome (read_file fs (text_arg "path" args) t.disk), t)

  unfoldable pub write_with : Option Filesystem → ToolState → ToolOutcome × ToolState
  write_with none t = (panics, t)
  write_with (some fs) t =
      let (r, disk) = write_file fs (text_arg "path" args) (text_arg "content" args) t.disk in
      (written r, with_disk t disk)

  unfoldable pub search_with : Option Filesystem → ToolState → ToolOutcome × ToolState
  search_with none t =
      if text_eq (text_arg "pattern" args) []
      then (refused [] (fs_failed pattern_required), t)
      else (panics, t)
  search_with (some fs) t = (
    results_outcome
        (search_files fs (text_arg "root" args) (text_arg "pattern" args) (pos 10) t.disk),
    t,
  )

  unfoldable pub exec_with : Option Terminal → ToolState → ToolOutcome × ToolState
  unfolding strings_in
  exec_with none t = (panics, t)
  exec_with (some term) t =
      let words = strings_of (array_of (lookup (codes "args") args)) in
      let (r, disk) = exec o.run ctx term (text_arg "command" args) words t.disk in
      (exec_outcome r, with_disk t disk)

  unfoldable pub apply_with : GitTool → ToolState → ToolOutcome × ToolState
  apply_with g t =
      let dry_run = dry_run_of (bool_of (lookup (codes "dry_run") args)) g in
      let n = t.readings in
      let (out, (g', disk)) =
        apply_patch o.git o.format g (text_arg "patch" args) dry_run (o.now n) (o.now (n + 1))
          t.disk in
      (git_outcome out, record (with_git reg t g' disk) { readings = n + 2 })

  unfoldable pub status_with : GitTool → ToolState → ToolOutcome × ToolState
  status_with g t = let (out, disk) = status o.git g t.disk in (git_outcome out, with_disk t disk)

  unfoldable pub restore_with : GitTool → ToolState → ToolOutcome × ToolState
  restore_with g t =
      let (out, (g', disk)) = restore_backup o.git o.format g (text_arg "name" args) t.disk in
      (git_outcome out, with_git reg t g' disk)

  unfoldable pub list_with : GitTool → ToolState → ToolOutcome × ToolState
  list_with g t =
      let (r, g') = list_backups o.format g t.disk in (list_outcome r, with_git reg t g' t.disk)

  unfoldable pub preview_with : GitTool → ToolState → ToolOutcome × ToolState
  preview_with g t =
      let (r, g') = preview_backup o.format g (text_arg "name" args) t.disk in
      (backup_outcome r, with_git reg t g' t.disk)

  abbrev pub on_git :
      (GitTool → ToolState → ToolOutcome × ToolState)
      → Option GitTool
      → ToolState
      → ToolOutcome × ToolState
  on_git call none t = (refused [] git_unavailable, t)
  on_git call (some g) t = call g t

  unfoldable pub query_with : ToolState → ToolOutcome × ToolState
  query_with t = elim reg.semantic [
    | none ↦ (refused [] semantic_unavailable, t)
    | some e ↦
        let query = text_arg "query" args in
        let limit = limit_of (number_of (lookup (codes "limit") args)) in
        (
          hits_outcome o.two_digits (length (tokenize query))
              (semantic_search (some e) query limit t.disk),
          t,
        )
  ]

  unfoldable pub perform : Tool → ToolState → ToolOutcome × ToolState
  unfolding read_with write_with search_with exec_with apply_with status_with restore_with list_with
      preview_with query_with
  perform fs_read_file t = read_with reg.fs t
  perform fs_write_file t = write_with reg.fs t
  perform fs_search t = search_with reg.fs t
  perform terminal_exec t = exec_with reg.terminal t
  perform git_apply_patch t = on_git apply_with reg.git t
  perform git_status t = on_git status_with reg.git t
  perform git_restore_backup t = on_git restore_with reg.git t
  perform git_list_backups t = on_git list_with reg.git t
  perform git_preview_backup t = on_git preview_with reg.git t
  perform semantic_query t = query_with t

  abbrev pub dispatch : Text → Option Tool → ToolState → ToolOutcome × ToolState
  dispatch name none t = (refused [] (unknown_tool name), t)
  dispatch name (some tool) t = perform tool t

  abbrev pub checked : Text → Option CallError → ToolState → ToolOutcome × ToolState
  checked name (some e) t = (invalid_outcome e, t)
  checked name none t = dispatch name (tool_named name) t

abbrev pub execute_in :
    Outside → Context → Bool → ToolCall → ToolState → Option ToolRegistry → ToolOutcome × ToolState
execute_in o ctx cancelled tc t none = (refused [] no_tools, t)
execute_in o ctx cancelled tc t (some reg) =
    if cancelled
    then (refused [] context_done, t)
    else checked o ctx tc.args reg tc.name (validate_call (some reg) tc.name tc.args) t

-- `ctx.Err()` is read once; a cancelled context refuses the call.
unfoldable pub execute_tool :
    Outside → Context → Bool → ToolCall → ToolState → ToolOutcome × ToolState
execute_tool o ctx cancelled tc t = execute_in o ctx cancelled tc t t.registry
