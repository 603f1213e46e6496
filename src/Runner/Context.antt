-- ===== src/Runner/Context.antt =====
-- internal/rpc/agent/runner.go: `appendWithBudget`, which adds a file to the context of a run.
pub mod Budget
pub mod Mentions
pub mod Files
mod Tests
use animus_coder.Base.{
  ℕ, ◌+◌, ◌-◌, Bool, true, ◌&&◌, List, [], ◌∷◌, ◌++◌, ltb, leb, if◌then◌else◌, length, take, Text,
  codes,
}
use animus_coder.Agent.Types.{ContextFile}

-- The variables of the loop over the files: what was added, and the bytes counted.
pub record Gathered : Type 0 where
  pub files : List ContextFile
  pub total : ℕ

abbrev pub marker : Text
marker = codes "\n[truncated]"

-- `limit > 0 && len(cf.Content) > limit`
unfoldable pub cut_to : ℕ → Text → Text
cut_to limit content =
    if ltb 0 limit && ltb limit (length content) then take limit content ++ marker else content

-- The file goes in under a limit; the flag says that the budget is used up.
unfoldable pub append_under : ℕ → ℕ → Gathered → ContextFile → Bool × Gathered
append_under limit max_bytes g cf =
    let content = cut_to limit cf.content in
    let total = g.total + length content in
    (
      ltb 0 max_bytes && leb max_bytes total,
      record { files = g.files ++ record cf { content = content } ∷ []; total = total },
    )

-- `maxBytes` is never negative, and 0 stands for no budget.
unfoldable pub append_with_budget : Gathered → ContextFile → ℕ → ℕ → Bool × Gathered
append_with_budget g cf max_bytes per_file_cap =
    let remaining = max_bytes - g.total in
    if ltb 0 max_bytes
    then if leb max_bytes g.total
      then (true, g)
      else append_under (if ltb remaining per_file_cap then remaining else per_file_cap) max_bytes g
          cf
    else append_under per_file_cap max_bytes g cf
