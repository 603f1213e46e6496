-- ===== src/Runner/Outcome/NoPanic.antt =====
-- Outcomes in which no nil pointer was followed.
use animus_coder.Base.{ℕ, Option, none, some, List, Text, Result, ok, err}
use animus_coder.Tools.Filesystem.{FsError}
use animus_coder.Tools.Filesystem.Search.{SearchResult}
use animus_coder.Semantic.Rank.{Hit}
use animus_coder.Semantic.Search.{SearchError}
use animus_coder.Tools.PatchStack.{GitError}
use animus_coder.Tools.Terminal.{ExecResult, ExecError}
use animus_coder.Tools.Validator.{
  CallError, no_registry, missing, not_of_kind, not_allowed_value, write_disabled, exec_disabled,
  git_disabled, dry_run_required, no_semantic, unknown_tool, nil_filesystem,
}
use animus_coder.Tools.Validator.NotNil.{NotNil}
use animus_coder.Runner.Outcome.{
  ToolOutcome, returned, refused, panics, invalid_outcome, fs_outcome, written, results_outcome,
  exec_outcome, git_outcome, backup_outcome, list_outcome, hits_outcome,
}

abbrev pub NoPanic : ToolOutcome → Type 0
NoPanic (returned out) = Unit {0}
NoPanic (refused out e) = Unit {0}
NoPanic panics = ⊥

pub fs_outcome-NoPanic : (r : Result FsError Text) → NoPanic (fs_outcome r)
fs_outcome-NoPanic (ok out) = tt
fs_outcome-NoPanic (err e) = tt

pub written-NoPanic : (r : Result FsError (Unit {0})) → NoPanic (written r)
written-NoPanic (ok u) = tt
written-NoPanic (err e) = tt

pub results_outcome-NoPanic : (r : Result FsError (List SearchResult)) → NoPanic (results_outcome r)
results_outcome-NoPanic (ok rs) = tt
results_outcome-NoPanic (err e) = tt

pub exec_outcome-NoPanic : (r : ExecResult × Option ExecError) → NoPanic (exec_outcome r)
exec_outcome-NoPanic (res, none) = tt
exec_outcome-NoPanic (res, some e) = tt

pub git_outcome-NoPanic : (r : Text × Option GitError) → NoPanic (git_outcome r)
git_outcome-NoPanic (out, none) = tt
git_outcome-NoPanic (out, some e) = tt

pub backup_outcome-NoPanic : (r : Result GitError Text) → NoPanic (backup_outcome r)
backup_outcome-NoPanic (ok out) = tt
backup_outcome-NoPanic (err e) = tt

pub list_outcome-NoPanic : (r : Result GitError (List Text)) → NoPanic (list_outcome r)
list_outcome-NoPanic (ok names) = tt
list_outcome-NoPanic (err e) = tt

pub hits_outcome-NoPanic :
    (two_digits : ℕ → ℕ → Text) (total : ℕ) (r : Result SearchError (List Hit))
    → NoPanic (hits_outcome two_digits total r)
hits_outcome-NoPanic two_digits total (ok hits) = tt
hits_outcome-NoPanic two_digits total (err e) = tt

pub invalid_outcome-NoPanic : (e : CallError) → NotNil (some e) → NoPanic (invalid_outcome e)
invalid_outcome-NoPanic nil_filesystem h = h
invalid_outcome-NoPanic no_registry h = tt
invalid_outcome-NoPanic (missing k) h = tt
invalid_outcome-NoPanic (not_of_kind k l) h = tt
invalid_outcome-NoPanic (not_allowed_value k ls) h = tt
invalid_outcome-NoPanic write_disabled h = tt
invalid_outcome-NoPanic exec_disabled h = tt
invalid_outcome-NoPanic git_disabled h = tt
invalid_outcome-NoPanic dry_run_required h = tt
invalid_outcome-NoPanic no_semantic h = tt
invalid_outcome-NoPanic (unknown_tool name) h = tt
