-- ===== src/Runner/Run/Whole.antt =====
-- A condition on the tools that their calls keep is kept by every step of a run, and by the run.
use animus_coder.Base.{
  fields, ℕ, suc, ◌+◌, ◌*◌, ◌≡◌, refl, Bool, true, false, ◌&&◌, Option, none, some, List, [], ◌∷◌,
  ◌++◌, if◌then◌else◌, Text, codes, is_blank, Result, ok, err, arith,
}
use animus_coder.Config.{AgentConfig}
use animus_coder.Agent.Types.{
  Response, ContextFile, ToolObservation, TestObservation, ReflectionContext,
}
use animus_coder.Agent.Strategy.{first_non_empty}
use animus_coder.Agent.Turn.{
  Agent, max_steps, test_run_enabled, test_retries, test_timeout_seconds, reflection_policy,
  make_plan, run_turn, reflect,
}
use animus_coder.Runner.Events.{RunTaskRequest}
use animus_coder.Runner.Critique.{
  parse_critique, critique_blocks_apply, should_block_on_critique, compute_self_diff,
}
use animus_coder.Runner.Context.Files.{ContextError}
use animus_coder.Runner.Execute.{ToolState}
use animus_coder.Runner.Stage.{
  Ending, RunState, Runtime, ◌>>=◌, ◌>>◌, done_with, emit, end_with, error_event, with_correlation,
  poll, consult, finish, ask_model,
}
use animus_coder.Runner.Actions.{
  message_event, plan_event, token_event, reflect_event, agent_request, send_plan, planning,
  send_tokens, test_run, report_test, testing, judge, reflecting, conclude, respond,
}
use animus_coder.Runner.Run.{one_step, halt_if, steps, or_error, with_agent, run_agent}
use animus_coder.Runner.Run.Keeps.{
  IsStable, Allows, Kept, bound-Kept, if-Kept, ask_model-Kept, call_tools_of-Kept,
}
use animus_coder.Runner.Stage.Rules.{Post}
use animus_coder.Runner.Run.Rules.{Never, one_step-Post, steps-Post, run_with-Post}

module _ {P W : Type 0} (rt : Runtime P W) (req : RunTaskRequest) (I : ToolState → Type 0)
    (Good : Ending → Type 0) (stable : IsStable rt I) (allows : Allows rt I Good) where
  send_plan-Kept :
      (text : Text) (s : RunState W) → I s.tools → Kept I Good (send_plan rt req text s)
  unfolding send_plan emit
  send_plan-Kept text s i =
      if-Kept I Good (is_blank text) (done_with tt) (emit (plan_event req text)) s i i

  planning-Kept :
      (a : Agent P) (files : List ContextFile) (s : RunState W)
      → I s.tools
      → Kept I Good (planning rt req a files s)
  unfolding planning
  planning-Kept a files s i =
      let role = codes "planner" in
      let override = first_non_empty (req.planner_model ∷ req.model ∷ []) in
      let call = λ (m : Text). make_plan rt.chat rt.stamp a (agent_request rt req m files) in
      let asked = ask_model rt req role override (λ m. consult rt (call m)) in
      if-Kept I Good a.cfg.enable_plan (asked >>= send_plan rt req) (done_with tt) s
        (bound-Kept I Good (asked s) (send_plan rt req)
          (ask_model-Kept rt req I Good stable allows role call override s i) send_plan-Kept)
        i

  respond-Kept :
      (a : Agent P) (files : List ContextFile) (n : ℕ) (s : RunState W)
      → I s.tools
      → Kept I Good (respond rt req a files n s)
  unfolding respond emit
  respond-Kept a files n s i =
      let role = codes "coder" in
      let override = first_non_empty (req.model ∷ []) in
      let call = λ (m : Text). run_turn rt.chat rt.stamp a (agent_request rt req m files) in
      bound-Kept I Good (ask_model rt req role override (λ m. consult rt (call m)) s)
        (λ resp. emit (message_event req resp.message.content n) >> done_with resp)
        (ask_model-Kept rt req I Good stable allows role call override s i) (λ resp u h. h)

  send_tokens-Kept :
      (n k : ℕ) (words : List Text) (s : RunState W)
      → I s.tools
      → Kept I Good (send_tokens rt req n k words s)
  unfolding send_tokens poll emit end_with
  send_tokens-Kept n k [] s i = i
  send_tokens-Kept n k (word ∷ words) s i =
      let e = token_event req word (n * 1000 + k) in
      if-Kept I Good (rt.cancelled s.polls) (end_with (error_event req (codes "cancelled")))
        (emit e >> send_tokens rt req n (suc k) words) (record s { polls = s.polls + 1 })
        (allows.closing, i)
        (send_tokens-Kept n (suc k) words
          (record s { polls = s.polls + 1; sent = s.sent ++ e ∷ [] }) i)

  testing-Kept :
      (cfg : AgentConfig) (n : ℕ) (done : Bool) (s : RunState W)
      → I s.tools
      → Kept I Good (testing rt req cfg n done s)
  unfolding testing test_run report_test emit
  testing-Kept cfg n done s i =
      if-Kept I Good (done && test_run_enabled cfg)
        (test_run rt req cfg >>= report_test rt req cfg n) (done_with none) s
        (stable.tests cfg.test_command (test_retries cfg) (test_timeout_seconds cfg) s.tools i) i

  judge-Kept :
      (cfg : AgentConfig) (n : ℕ) (text : Text) (s : RunState W)
      → I s.tools
      → Kept I Good (judge rt req cfg n text s)
  unfolding judge emit
  judge-Kept cfg n text s i =
      let critique = parse_critique rt.unmarshal text in
      let forced =
        critique_blocks_apply critique && should_block_on_critique (reflection_policy cfg) in
      if-Kept I Good (is_blank text) (done_with false)
        (emit (reflect_event req text critique n) >> done_with forced) s i i

  reflecting-Kept :
      (a : Agent P) (n : ℕ) (resp : Response) (obs : List ToolObservation)
      (o : Option TestObservation) (s : RunState W)
      → I s.tools
      → Kept I Good (reflecting rt req a n resp obs o s)
  unfolding reflecting
  reflecting-Kept a n resp obs o s i =
      let role = codes "critic" in
      let override = first_non_empty (req.critic_model ∷ req.model ∷ []) in
      let diff =
        if a.cfg.enable_self_diff
        then compute_self_diff resp.previous_assistant resp.message.content
        else [] in
      let info : ReflectionContext = record { tools = obs; test = o; self_diff = diff } in
      let call = λ (m : Text). reflect rt.chat rt.stamp a (agent_request rt req m []) resp info in
      let asked = ask_model rt req role override (λ m. consult rt (call m)) in
      if-Kept I Good a.cfg.enable_reflect (asked >>= judge rt req a.cfg n) (done_with false) s
        (bound-Kept I Good (asked s) (judge rt req a.cfg n)
          (ask_model-Kept rt req I Good stable allows role call override s i) (judge-Kept a.cfg n))
        i

  conclude-Kept :
      (n : ℕ) (reason : Text) (done forced : Bool) (s : RunState W)
      → I s.tools
      → Kept I Good (conclude rt req n reason done forced s)
  unfolding conclude emit finish
  conclude-Kept n reason done true s i = (allows.closing, i)
  conclude-Kept n reason true false s i = (allows.closing, i)
  conclude-Kept n reason false false s i = i

  -- The condition on the tools, of a state, and what holds of an ending.
  abbrev Held : RunState W → Type 0
  Held s = I s.tools

  abbrev Closing : Ending → RunState W → Type 0
  Closing e s = Good e × I s.tools

  one_step-Kept :
      (a : Agent P) (files : List ContextFile) (k : ℕ) (earlier : List ToolObservation)
      (s : RunState W)
      → I s.tools
      → Kept I Good (one_step rt req a files k earlier s)
  one_step-Kept a files k earlier s i =
      one_step-Post rt req Closing a files k (λ r. Held) Held Held Held (λ forced. Held) Held
        earlier s (respond-Kept a files k s i)
        (λ r. send_tokens-Kept k 0 (fields r.message.content)) (λ c u h. h)
        (call_tools_of-Kept rt req I Good stable allows) (testing-Kept a.cfg k)
        (reflecting-Kept a k) (conclude-Kept k)

  halt_if-Kept : (c : Bool) (s : RunState W) → I s.tools → Kept I Good (halt_if rt req c s)
  unfolding halt_if end_with
  halt_if-Kept false s i = i
  halt_if-Kept true s i = (allows.closing, i)

  finish-Kept :
      (reason : Text) (n : ℕ) (s : RunState W)
      → I s.tools
      → Post Never Closing (finish rt {A = ⊥} req reason n s)
  unfolding finish
  finish-Kept reason n s i = (allows.closing, i)

  steps-Kept :
      (a : Agent P) (files : List ContextFile) (earlier : List ToolObservation) (s : RunState W)
      → I s.tools
      → Post Never Closing (steps rt req a files (max_steps a.cfg) 1 earlier s)
  steps-Kept a files earlier s =
      steps-Post rt req Closing a files (λ n. Held) (λ n k u h. h) (λ c n. halt_if-Kept c)
        (λ n obs u l. one_step-Kept a files (suc n) obs u)
        (finish-Kept (codes "max_steps") (max_steps a.cfg)) (max_steps a.cfg) 0 earlier s
        (omega arith)

  or_error-Kept :
      (r : Result ContextError (List ContextFile)) (s : RunState W)
      → I s.tools
      → Kept I Good (or_error rt req r s)
  unfolding or_error end_with
  or_error-Kept (ok files) s i = i
  or_error-Kept (err x) s i = (allows.closing, i)

  with_agent-Kept :
      (o : Option (Agent P)) (s : RunState W)
      → I s.tools
      → Post Never Closing (with_agent rt req o s)
  unfolding with_agent end_with
  with_agent-Kept none s i = (allows.closing, i)
  with_agent-Kept (some a) s i =
      run_with-Post rt req Closing a Held Held s (λ r. or_error-Kept r s i)
        (call_tools_of-Kept rt req I Good stable allows) (planning-Kept a) (steps-Kept a)

module _ {P W : Type 0} (rt : Runtime P W) (I : ToolState → Type 0) (Good : Ending → Type 0)
    (stable : IsStable rt I) (allows : Allows rt I Good) where
  -- The ending of a run, and its tools.
  abbrev pub EndsIn : Result Ending ⊥ × RunState W → Type 0
  EndsIn r = (e : Ending) × (r.0 ≡ err e) × Good e × I r.1.tools

  Kept-EndsIn :
      (r : Result Ending ⊥ × RunState W) → Post Never (λ e s. Good e × I s.tools) r → EndsIn r
  Kept-EndsIn (ok a, s) h = absurd a
  Kept-EndsIn (err e, s) h = (e, refl, h.0, h.1)

  pub run_agent-EndsIn :
      (req : RunTaskRequest) (s : RunState W) → I s.tools → EndsIn (run_agent rt req s)
  unfolding run_agent
  run_agent-EndsIn req s i =
      Kept-EndsIn (run_agent rt req s)
        (with_agent-Kept rt (with_correlation req) I Good stable allows rt.agent s i)
