-- ===== src/Runner/Actions.antt =====
-- internal/rpc/agent/runner.go: what a run does within a step, in `AgentRunner.Run`: its events, the
-- calls of tools, the plan, the response, the tests, the reflection and the end of a step.
use animus_coder.Base.{
  ℕ, suc, ◌+◌, ◌*◌, Bool, false, ◌&&◌, Option, none, some, List, [], ◌∷◌, if◌then◌else◌, Text,
  codes, is_blank, ok,
}
use animus_coder.Config.{AgentConfig}
use animus_coder.Agent.Types.{
  Request, Response, ContextFile, ToolObservation, TestObservation, ReflectionContext,
}
use animus_coder.Agent.Strategy.{first_non_empty}
use animus_coder.Agent.Turn.{
  Agent, reflection_policy, test_run_enabled, test_retries, test_timeout_seconds, make_plan,
  run_turn, reflect,
}
use animus_coder.Tools.Value.{Args}
use animus_coder.Tools.Terminal.{Terminal}
use animus_coder.Tools.Schema.{ToolRegistry}
use animus_coder.Runner.Events.{ToolCall, RunTaskRequest, RunTaskEvent, event_of}
use animus_coder.Runner.Critique.{
  parse_critique, critique_blocks_apply, should_block_on_critique, compute_self_diff,
}
use animus_coder.Runner.TestRun.{TestError, TestRun, run_tests}
use animus_coder.Runner.TestOutput.{parse_test_output}
use animus_coder.Runner.Outcome.{ToolOutcome, returned, refused, panics}
use animus_coder.Runner.Execute.{execute_tool}
use animus_coder.Runner.Stage.{
  Runtime, Stage, crash, ◌>>=◌, ◌>>◌, done_with, emit, end_with, error_event, poll, consult,
  ask_model, finish,
}

abbrev pub message_event : RunTaskRequest → Text → ℕ → RunTaskEvent
message_event req text step = record (event_of "message" req) { message = text; step = step }

abbrev pub token_event : RunTaskRequest → Text → ℕ → RunTaskEvent
token_event req word step = record (event_of "token" req) { token = word; step = step }

abbrev pub plan_event : RunTaskRequest → Text → RunTaskEvent
plan_event req plan = record (event_of "plan" req) { message = plan }

abbrev pub tool_event : RunTaskRequest → Text → Text → Text → RunTaskEvent
tool_event req name output error = record (event_of "tool" req) {
  tool_name = name;
  tool_output = output;
  error = error;
}

abbrev pub reflect_event : RunTaskRequest → Text → Option Args → ℕ → RunTaskEvent
reflect_event req reflection critique step = record (event_of "reflect" req) {
  message = reflection;
  critique = critique;
  step = step;
}

abbrev pub test_event : RunTaskRequest → ℕ → Text → Text → TestRun → RunTaskEvent
test_event req step summary error t = record (event_of "test" req) {
  message = t.output;
  step = step;
  exit_code = t.exit_code;
  test_summary = summary;
  test_attempts = t.attempts;
  failing_tests = (parse_test_output t.output).1;
  error = error;
}

abbrev pub terminal_of : Option ToolRegistry → Option Terminal
terminal_of none = none
terminal_of (some reg) = reg.terminal

module _ {P W : Type 0} (rt : Runtime P W) (req : RunTaskRequest) where
  -- What an outcome sends: the call's error ends the run.
  unfoldable pub observe : Text → ToolOutcome → Stage W ToolObservation
  observe name (returned out) = do
    emit (tool_event req name out [])
    done_with (record { name = name; output = out; error = [] })
  observe name (refused out e) = end_with (tool_event req name (rt.tool_text e) (rt.tool_text e))
  observe name panics = crash

  unfoldable pub execute : Bool → ToolCall → Stage W ToolOutcome
  execute cancelled tc s =
      let (out, t) = execute_tool rt.outside rt.ctx cancelled tc s.tools in
      (ok out, record s { tools = t })

  unfoldable pub call_tool : ToolCall → Stage W ToolObservation
  unfolding observe execute
  call_tool tc = do c ← poll rt; out ← execute c tc; observe tc.name out

  -- The loop over the calls, and the observations in their order.
  unfoldable pub call_tools : List ToolCall → Stage W (List ToolObservation)
  call_tools [] = done_with []
  call_tools (tc ∷ tcs) = do obs ← call_tool tc; rest ← call_tools tcs; done_with (obs ∷ rest)

  -- No call is made without tools.
  unfoldable pub with_tools : Option ToolRegistry → List ToolCall → Stage W (List ToolObservation)
  unfolding call_tools
  with_tools none tcs = done_with []
  with_tools (some reg) tcs = call_tools tcs

  unfoldable pub call_tools_of : List ToolCall → Stage W (List ToolObservation)
  unfolding with_tools
  call_tools_of tcs s = with_tools s.tools.registry tcs s

  abbrev pub agent_request : Text → List ContextFile → Request
  agent_request model files = record {
    session_id = req.session_id;
    model = model;
    prompt = req.prompt;
    context = files;
  }

  unfoldable pub send_plan : Text → Stage W (Unit {0})
  send_plan plan = if is_blank plan then done_with tt else emit (plan_event req plan)

  unfoldable pub planning : Agent P → List ContextFile → Stage W (Unit {0})
  unfolding send_plan
  planning a files =
      if a.cfg.enable_plan
      then (do
        plan ←
            ask_model rt req (codes "planner")
              (first_non_empty (req.planner_model ∷ req.model ∷ []))
              (λ m. consult rt (make_plan rt.chat rt.stamp a (agent_request m files)))
        send_plan plan)
      else done_with tt

  -- The loop over the words of a response; each word is sent unless the context is cancelled.
  unfoldable pub send_tokens : ℕ → ℕ → List Text → Stage W (Unit {0})
  send_tokens step i [] = done_with tt
  send_tokens step i (word ∷ words) = do
    c ← poll rt
    if c
        then end_with (error_event req (codes "cancelled"))
        else (emit (token_event req word (step * 1000 + i)) >> send_tokens step (suc i) words)

  unfoldable pub count_tokens : ℕ → Stage W (Unit {0})
  count_tokens n s = (ok tt, record s { token_count = s.token_count + n })

  unfoldable pub error_text : Option TestError → Text
  error_text none = []
  error_text (some e) = rt.test_text e

  unfoldable pub test_run : AgentConfig → Stage W TestRun
  test_run cfg s =
      let (t, disk) =
        run_tests rt.outside.run rt.ctx (terminal_of s.tools.registry) cfg.test_command
          (test_retries cfg) (test_timeout_seconds cfg) s.tools.disk in
      (ok t, record s { tools = record s.tools { disk = disk } })

  unfoldable pub report_test : AgentConfig → ℕ → TestRun → Stage W (Option TestObservation)
  unfolding error_text
  report_test cfg step t = do
    emit (test_event req step (parse_test_output t.output).0 (error_text t.error) t)
    done_with (
        some (record {
          command = cfg.test_command;
          output = t.output;
          exit_code = t.exit_code;
          error = error_text t.error;
          summary = (parse_test_output t.output).0;
          failing = (parse_test_output t.output).1;
          attempts = t.attempts;
        }))

  unfoldable pub testing : AgentConfig → ℕ → Bool → Stage W (Option TestObservation)
  unfolding test_run report_test
  testing cfg step done =
      if done && test_run_enabled cfg
      then (test_run cfg >>= report_test cfg step)
      else done_with none

  -- Whether the critique of a reflection stops the run.
  unfoldable pub judge : AgentConfig → ℕ → Text → Stage W Bool
  judge cfg step reflection =
      let critique = parse_critique rt.unmarshal reflection in
      if is_blank reflection
      then done_with false
      else (emit (reflect_event req reflection critique step)
          >> done_with
              (critique_blocks_apply critique && should_block_on_critique (reflection_policy cfg)))

  unfoldable pub reflecting :
      Agent P → ℕ → Response → List ToolObservation → Option TestObservation → Stage W Bool
  unfolding judge
  reflecting a step resp tools test =
      let diff =
        if a.cfg.enable_self_diff
        then compute_self_diff resp.previous_assistant resp.message.content
        else [] in
      let info : ReflectionContext = record { tools = tools; test = test; self_diff = diff } in
      if a.cfg.enable_reflect
      then (do
        reflection ←
            ask_model rt req (codes "critic") (first_non_empty (req.critic_model ∷ req.model ∷ []))
              (λ m. consult rt (reflect rt.chat rt.stamp a (agent_request m []) resp info))
        judge a.cfg step reflection)
      else done_with false

  -- The end of a step: the run goes on unless the response is done or the reflection stops it.
  unfoldable pub conclude : ℕ → Text → Bool → Bool → Stage W (Unit {0})
  conclude step reason done forced =
      if forced
      then (do
        emit (message_event req (codes "Run halted by reflection policy (blocked_by_reflect)") step)
        finish rt req (codes "blocked_by_reflect") step)
      else if done
      then finish rt req reason step
      else done_with tt

  unfoldable pub respond : Agent P → List ContextFile → ℕ → Stage W Response
  respond a files step = do
    resp ←
        ask_model rt req (codes "coder") (first_non_empty (req.model ∷ []))
          (λ m. consult rt (run_turn rt.chat rt.stamp a (agent_request m files)))
    emit (message_event req resp.message.content step)
    done_with resp
