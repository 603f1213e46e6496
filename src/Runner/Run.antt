-- ===== src/Runner/Run.antt =====
-- internal/rpc/agent/runner.go: `AgentRunner.Run`, the loop of a run with its limit of steps. The
-- events are those of the channel; what blocks on it is not modelled.
pub mod Protocol
pub mod Rules
pub mod Calls
pub mod Opening
pub mod Steps
pub mod Refines
pub mod Keeps
pub mod Whole
pub mod Unchanged
pub mod Closes
pub mod Last
mod Tests
use animus_coder.Base.{
  ℕ, zero, suc, Bool, Option, none, some, List, [], ◌++◌, if◌then◌else◌, length, codes, fields,
  Result, ok, err,
}
use animus_coder.Agent.Types.{Request, ContextFile, ToolObservation}
use animus_coder.Agent.Turn.{Agent, max_steps, max_context_bytes, reflect}
use animus_coder.Runner.Events.{RunTaskRequest}
use animus_coder.Runner.Critique.{is_response_done}
use animus_coder.Runner.ToolCalls.{extract_tool_calls}
use animus_coder.Runner.Context.Files.{ContextError, build_context_files}
use animus_coder.Runner.Stage.{
  Runtime, Stage, ◌>>=◌, ◌>>◌, done_with, end_with, with_correlation, error_event, poll, finish,
}
use animus_coder.Runner.Actions.{
  call_tool, call_tools, call_tools_of, planning, send_tokens, count_tokens, testing, reflecting,
  conclude, respond,
}

module _ {P W : Type 0} (rt : Runtime P W) (req : RunTaskRequest) where
  unfoldable pub one_step :
      Agent P → List ContextFile → ℕ → List ToolObservation → Stage W (Unit {0})
  unfolding respond call_tools_of testing reflecting conclude count_tokens send_tokens
  one_step a files step earlier = do
    resp ← respond rt req a files step
    send_tokens rt req step 0 (fields resp.message.content)
    count_tokens rt req (length (fields resp.message.content))
    later ← call_tools_of rt req (extract_tool_calls rt.decoder resp.message.content)
    test ← testing rt req a.cfg step (is_response_done resp)
    forced ← reflecting rt req a step resp (earlier ++ later) test
    conclude rt req step resp.finish_reason (is_response_done resp) forced

  unfoldable pub halt_if : Bool → Stage W (Unit {0})
  halt_if c = if c then end_with (error_event req (codes "cancelled")) else done_with tt

  -- The loop with `rounds` rounds left. Only the first step sees the tools called before.
  unfoldable pub steps : Agent P → List ContextFile → ℕ → ℕ → List ToolObservation → Stage W ⊥
  unfolding halt_if
  steps a files zero step earlier = finish rt req (codes "max_steps") (max_steps a.cfg)
  steps a files (suc rounds) step earlier = do
    c ← poll rt
    halt_if c
    one_step a files step earlier
    steps a files rounds (suc step) []

  unfoldable pub contexts : ℕ → Stage W (Result ContextError (List ContextFile))
  contexts max_bytes s = (
    ok (build_context_files s.tools.registry req.prompt req.context_paths max_bytes s.tools.disk),
    s,
  )

  unfoldable pub or_error : Result ContextError (List ContextFile) → Stage W (List ContextFile)
  or_error (ok files) = done_with files
  or_error (err e) = end_with (error_event req (rt.context_text e))

  unfoldable pub run_with : Agent P → Stage W ⊥
  unfolding contexts or_error call_tools_of planning steps
  run_with a = do
    built ← contexts (max_context_bytes a.cfg)
    files ← or_error built
    earlier ← call_tools_of rt req req.tools
    planning rt req a files
    steps a files (max_steps a.cfg) 1 earlier

  unfoldable pub with_agent : Option (Agent P) → Stage W ⊥
  unfolding run_with
  with_agent none = end_with (error_event req (codes "agent unavailable"))
  with_agent (some a) = run_with a

-- The goroutine of a run.
unfoldable pub run_agent : {P W : Type 0} → Runtime P W → RunTaskRequest → Stage W ⊥
unfolding with_agent
run_agent rt req = with_agent rt (with_correlation req) rt.agent
