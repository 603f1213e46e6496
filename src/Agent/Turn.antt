-- ===== src/Agent/Turn.antt =====
-- internal/agent/agent.go: `Run`, `Plan` and `Reflect`, the calls of a model for a session, and the
-- readings of the settings. `chat` is the provider's Chat in a world of any kind.
pub mod Plan
pub mod Run
pub mod Reflect
mod Tests
use animus_coder.Base.{
  ℕ, Bool, false, ◌&&◌, not, List, [], ◌∷◌, ◌++◌, if◌then◌else◌, Text, codes, text_eq, trim_space,
  is_blank, to_lower, ℤ, pos, pos_part, is_negative, is_positive, Result, ok, err,
}
use animus_coder.Config.{AgentConfig}
use animus_coder.Llm.Registry.{ModelRoute, ResolveError, Registry, resolve}
use animus_coder.Agent.Types.{
  ChatMessage, ChatRequest, ChatResponse, Request, Response, ReflectionContext, system, user,
  assistant,
}
use animus_coder.Agent.Prompt.{
  system_prompt, plan_system_prompt, reflect_system_prompt, build_user_prompt,
  build_plan_user_prompt, build_reflect_user_prompt,
}
use animus_coder.Agent.Session.{
  Session, AgentState, session_at, ensure_session, append_history, set_plan, set_reflection,
  append_reflection, last_assistant_content,
}

pub data AgentError : Type 0 where
  prompt_required : AgentError
  last_message_required : AgentError
  not_resolved : ResolveError → AgentError
  chat_failed : Text → AgentError

-- A provider's Chat.
abbrev pub Chat : Type 0 → Type 0 → Type 0
Chat P W = P → ChatRequest → W → Result Text ChatResponse × W

-- The agent: its registry and its settings, which do not change.
pub record Agent (P : Type 0) : Type 0 where
  pub registry : Registry P
  pub cfg : AgentConfig

unfoldable pub pick_temperature : ℤ → ℤ → ℤ
pick_temperature agent_temp route_temp =
    if is_positive agent_temp
    then agent_temp
    else if is_positive route_temp
    then route_temp
    else pos 200

unfoldable pub pick_max_tokens : ℤ → ℤ → ℤ
pick_max_tokens agent_max route_max =
    if is_positive agent_max then agent_max else if is_positive route_max then route_max else pos 0

unfoldable pub max_steps : AgentConfig → ℕ
max_steps cfg = if is_positive cfg.max_steps then pos_part cfg.max_steps else 1

unfoldable pub reflection_policy : AgentConfig → Text
reflection_policy cfg =
    if is_blank cfg.reflection_policy
    then codes "block_on_critical"
    else to_lower (trim_space cfg.reflection_policy)

unfoldable pub test_run_enabled : AgentConfig → Bool
test_run_enabled cfg = cfg.enable_test_run && not (is_blank cfg.test_command)

unfoldable pub test_retries : AgentConfig → ℤ
test_retries cfg = if is_negative cfg.test_retries then pos 0 else cfg.test_retries

unfoldable pub test_timeout_seconds : AgentConfig → ℤ
test_timeout_seconds cfg =
    if is_negative cfg.test_timeout_seconds then pos 0 else cfg.test_timeout_seconds

unfoldable pub max_context_bytes : AgentConfig → ℕ
max_context_bytes cfg = pos_part cfg.max_context_bytes

-- The request that all three calls build from their messages.
unfoldable pub chat_request : AgentConfig → ModelRoute → List ChatMessage → ChatRequest
unfolding pick_max_tokens pick_temperature
chat_request cfg route messages = record {
  model = route.model;
  messages = messages;
  max_tokens = pick_max_tokens cfg.max_tokens route.max_tokens;
  temperature = pick_temperature cfg.temperature route.temperature;
  stream = false;
}

-- A message that is only sent if its text is not empty.
optional_message : Text → Text → List ChatMessage
optional_message heading text =
    if text_eq text [] then [] else record { role = assistant; content = heading ++ text } ∷ []

-- The messages of `Run`, the user's own one last.
unfoldable pub run_messages : Session → ChatMessage → List ChatMessage
unfolding optional_message
run_messages s user_msg =
    record { role = system; content = system_prompt }
    ∷ (optional_message (codes "Planned steps:\n") s.plan
        ++ (optional_message (codes "Previous reflection:\n") s.last_reflection
            ++ (s.history ++ user_msg ∷ [])))

module _ {P W : Type 0} (chat : Chat P W) (stamp : ℕ → Text) (a : Agent P) where
  -- `provider.Chat(ctx, chatReq)` with the world of the state.
  unfoldable pub call_chat :
      P → ChatRequest → AgentState W → Result Text ChatResponse × AgentState W
  call_chat p req st = let (r, w) = chat p req st.world in (r, record st { world = w })

  planned : Text → Result Text ChatResponse × AgentState W → Result AgentError Text × AgentState W
  planned id (err e, st) = (err (chat_failed e), st)
  planned id (ok resp, st) =
      let plan = trim_space resp.message.content in (ok plan, set_plan id plan st)

  unfoldable pub plan_request : Request → ModelRoute → ChatRequest
  unfolding chat_request
  plan_request req route = chat_request a.cfg route (
      record { role = system; content = plan_system_prompt }
      ∷ record { role = user; content = build_plan_user_prompt req.prompt }
      ∷ [])

  -- `Plan` from the resolving of the model on.
  ask_plan : Request → Text → AgentState W → Result AgentError Text × AgentState W
  unfolding planned
  ask_plan req id st = elim (resolve a.registry req.model) [
    | err e ↦ (err (not_resolved e), st)
    | ok (p, route) ↦ planned id (call_chat p (plan_request req route) st)
  ]

  unfoldable pub make_plan : Request → AgentState W → Result AgentError Text × AgentState W
  unfolding ask_plan
  make_plan req st =
      let (id, st') = ensure_session stamp req.session_id st in
      let plan = (session_at id st').plan in
      if not a.cfg.enable_plan
      then (ok [], st)
      else if is_blank req.prompt
      then (err prompt_required, st)
      else if text_eq plan []
      then ask_plan req id st'
      else (ok plan, st')

  answered :
      Text
      → ModelRoute
      → ChatMessage
      → Text
      → Result Text ChatResponse × AgentState W
      → Result AgentError Response × AgentState W
  answered id route user_msg previous (err e, st) = (err (chat_failed e), st)
  answered id route user_msg previous (ok resp, st) = (
    ok (record {
      message = resp.message;
      route = route;
      finish_reason = resp.finish_reason;
      previous_assistant = previous;
    }),
    append_history id user_msg resp.message st,
  )

  -- `Run` behind its planning step.
  unfoldable pub converse :
      P → ModelRoute → Request → AgentState W → Result AgentError Response × AgentState W
  unfolding answered
  converse p route req st =
      let (id, st') = ensure_session stamp req.session_id st in
      let s = session_at id st' in
      let user_msg : ChatMessage = record {
        role = user;
        content = build_user_prompt req.prompt req.context;
      } in
      answered id route user_msg (last_assistant_content s)
        (call_chat p (chat_request a.cfg route (run_messages s user_msg)) st')

  after_plan :
      P
      → ModelRoute
      → Request
      → Result AgentError Text × AgentState W
      → Result AgentError Response × AgentState W
  after_plan p route req (err e, st) = (err e, st)
  after_plan p route req (ok plan, st) = converse p route req st

  unfoldable pub run_turn : Request → AgentState W → Result AgentError Response × AgentState W
  unfolding after_plan
  run_turn req st =
      if text_eq req.prompt []
      then (err prompt_required, st)
      else elim (resolve a.registry req.model) [
        | err e ↦ (err (not_resolved e), st)
        | ok (p, route) ↦
            if a.cfg.enable_plan
            then after_plan p route req (make_plan req st)
            else converse p route req st
      ]

  reflected : Text → Result Text ChatResponse × AgentState W → Result AgentError Text × AgentState W
  reflected id (err e, st) = (err (chat_failed e), st)
  reflected id (ok resp, st) =
      let reflection = trim_space resp.message.content in
      (ok reflection, append_reflection id reflection (set_reflection id reflection st))

  unfoldable pub reflect_request :
      Request → Response → ReflectionContext → Text → ModelRoute → ChatRequest
  unfolding chat_request
  reflect_request req last info plan route =
      let content = build_reflect_user_prompt req.prompt last.message.content plan info in
      chat_request a.cfg route (
        record { role = system; content = reflect_system_prompt }
        ∷ record { role = user; content = content }
        ∷ [])

  ask_reflection :
      Request
      → Response
      → ReflectionContext
      → Text
      → AgentState W
      → Result AgentError Text × AgentState W
  unfolding reflected
  ask_reflection req last info id st = elim (resolve a.registry req.model) [
    | err e ↦ (err (not_resolved e), st)
    | ok (p, route) ↦
        reflected id (call_chat p (reflect_request req last info (session_at id st).plan route) st)
  ]

  unfoldable pub reflect :
      Request → Response → ReflectionContext → AgentState W → Result AgentError Text × AgentState W
  unfolding ask_reflection
  reflect req last info st =
      let (id, st') = ensure_session stamp req.session_id st in
      if not a.cfg.enable_reflect
      then (ok [], st)
      else if is_blank last.message.content
      then (err last_message_required, st)
      else ask_reflection req last info id st'
