-- ===== src/Runner/Outcome.antt =====
-- internal/rpc/agent/runner.go: how a call of `executeTool` ends, and the texts that it returns.
pub mod NoPanic
use animus_coder.Base.{
  ℕ, Option, none, some, List, [], ◌∷◌, ◌++◌, Text, codes, trim_space, show_nat, join, Result, ok,
  err,
}
use animus_coder.Semantic.Rank.{Hit}
use animus_coder.Semantic.Search.{SearchError}
use animus_coder.Tools.Filesystem.{FsError}
use animus_coder.Tools.Filesystem.Search.{SearchResult}
use animus_coder.Tools.Terminal.{ExecResult, ExecError}
use animus_coder.Tools.PatchStack.{GitError}
use animus_coder.Tools.Validator.{CallError, nil_filesystem}

pub data ToolError : Type 0 where
  no_tools : ToolError
  context_done : ToolError
  invalid : CallError → ToolError
  fs_failed : FsError → ToolError
  exec_failed : ExecError → ToolError
  git_unavailable semantic_unavailable : ToolError
  git_failed : GitError → ToolError
  search_failed : SearchError → ToolError
  unknown_tool : Text → ToolError

-- How a call ends: with an output, with an output and an error, or by following a nil pointer.
pub data ToolOutcome : Type 0 where
  returned : Text → ToolOutcome
  refused : Text → ToolError → ToolOutcome
  panics : ToolOutcome

-- The outcome of a call that the validator refuses, or in which it follows the nil pointer itself.
abbrev pub invalid_outcome : CallError → ToolOutcome
invalid_outcome nil_filesystem = panics
invalid_outcome e = refused [] (invalid e)

unfoldable pub show_results : List SearchResult → Text
show_results [] = []
show_results (r ∷ rs) =
    r.path
    ++ (codes ":" ++ (show_nat r.line ++ (codes " " ++ (r.snippet ++ (10 ∷ show_results rs)))))

unfoldable pub show_hits : (ℕ → ℕ → Text) → ℕ → List Hit → Text
show_hits two_digits total [] = []
show_hits two_digits total (h ∷ hs) =
    h.path
    ++ (codes " (score: "
        ++ (two_digits h.score total
            ++ (codes ")" ++ (10 ∷ (h.snippet ++ (10 ∷ 10 ∷ show_hits two_digits total hs))))))

abbrev pub fs_outcome : Result FsError Text → ToolOutcome
fs_outcome (ok out) = returned out
fs_outcome (err e) = refused [] (fs_failed e)

abbrev pub written : Result FsError (Unit {0}) → ToolOutcome
written (ok u) = returned (codes "ok")
written (err e) = refused [] (fs_failed e)

abbrev pub results_outcome : Result FsError (List SearchResult) → ToolOutcome
results_outcome (ok rs) = returned (show_results rs)
results_outcome (err e) = refused [] (fs_failed e)

abbrev pub exec_outcome : ExecResult × Option ExecError → ToolOutcome
exec_outcome (res, none) = returned res.stdout
exec_outcome (res, some e) = refused res.stderr (exec_failed e)

abbrev pub git_outcome : Text × Option GitError → ToolOutcome
git_outcome (out, none) = returned out
git_outcome (out, some e) = refused out (git_failed e)

abbrev pub backup_outcome : Result GitError Text → ToolOutcome
backup_outcome (ok out) = returned out
backup_outcome (err e) = refused [] (git_failed e)

abbrev pub list_outcome : Result GitError (List Text) → ToolOutcome
list_outcome (ok names) = returned (join names (10 ∷ []))
list_outcome (err e) = refused [] (git_failed e)

abbrev pub hits_outcome : (ℕ → ℕ → Text) → ℕ → Result SearchError (List Hit) → ToolOutcome
hits_outcome two_digits total (ok hits) = returned (trim_space (show_hits two_digits total hits))
hits_outcome two_digits total (err e) = refused [] (search_failed e)
