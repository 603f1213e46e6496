-- ===== src/Runner/Run/Calls.antt =====
-- What calls of models and of tools, and the words of a response, send keeps to the protocol.
use animus_coder.Base.{
  ℕ, suc, ◌+◌, ◌*◌, ◌≡◌, refl, inl, inr, Option, none, some, List, [], ◌∷◌, ◌++◌, if◌then◌else◌,
  Bool-cases, Text, codes, text_eq, Result, ok, err,
}
use animus_coder.Agent.Turn.{AgentError}
use animus_coder.Agent.Session.{AgentState}
use animus_coder.Runner.Events.{ToolCall, RunTaskRequest, RunTaskEvent}
use animus_coder.Runner.Models.{failed, Usage, pick_fallback_model, select_model}
use animus_coder.Runner.Outcome.{ToolOutcome, returned, refused, panics}
use animus_coder.Runner.Execute.{execute_tool}
use animus_coder.Runner.Stage.{
  Ending, closed, RunState, Runtime, ◌>>=◌, done_with, emit, end_with, error_event, poll,
  note_failure, fallen_back, fallback, consult, give_up, settle, retry, ask, ask_model,
}
use animus_coder.Runner.Stage.Rules.{Post, Post-bound}
use animus_coder.Runner.Actions.{
  tool_event, token_event, observe, execute, call_tool, call_tools, with_tools, call_tools_of,
  send_tokens,
}
use animus_coder.Tools.Schema.{ToolRegistry}
use animus_coder.Runner.Run.Protocol.{
  Phase, over, speaking, wording_of, cancelled, agent_failed, IsIdle, IsCalling, Event, Move, token,
  fails, tool_fails, Trace, grown,
}

module _ {P W : Type 0} (rt : Runtime P W) (req : RunTaskRequest) (limit : ℕ) where
  -- The events sent lead to the phase.
  abbrev pub At : Phase → RunState W → Type 0
  At p s = Trace (wording_of rt) req limit s.sent p

  -- A stream that was closed is over; another one is a beginning.
  abbrev pub Ended : Ending → RunState W → Type 0
  Ended closed s = At over s
  Ended _ s = (p : Phase) × At p s

  give_up-Post :
      {A : Type 0} (Q : A → RunState W → Type 0) (role model : Text) (e : AgentError) (p : Phase)
      (s : RunState W)
      → IsIdle p
      → At p s
      → Post Q Ended (give_up rt req role model e s)
  unfolding give_up end_with note_failure
  give_up-Post Q role model e p s o t =
      grown s.sent p (error_event req (rt.agent_text e)) over
        (s.sent ++ error_event req (rt.agent_text e) ∷ []) t
        (fails p (error_event req (rt.agent_text e)) (agent_failed e) o (refl, refl) refl)
        (refl, refl) refl

  -- A stage that sends nothing: the phase stays.
  abbrev pub Quiet : {A : Type 0} → Phase → Result Ending A × RunState W → Type 0
  Quiet p = Post (λ a s. At p s) Ended

  settle-Quiet :
      {A : Type 0} (role model : Text) (r : Result AgentError A) (p : Phase) (s : RunState W)
      → IsIdle p
      → At p s
      → Quiet p (settle rt req role model r s)
  unfolding settle
  settle-Quiet role model (ok a) p s o t = t
  settle-Quiet role model (err e) p s o t = give_up-Post (λ a u. At p u) role model e p s o t

  fallen_back-Quiet :
      (r : Option (Text × Usage)) (p : Phase) (s : RunState W)
      → At p s
      → Quiet p (fallen_back rt s r)
  unfolding fallen_back
  fallen_back-Quiet none p s t = (p, t)
  fallen_back-Quiet (some (model, u)) p s t = t

  fallback-Quiet :
      (role current : Text) (p : Phase) (s : RunState W)
      → At p s
      → Quiet p (fallback rt role current s)
  unfolding fallback
  fallback-Quiet role current p s t =
      fallen_back-Quiet (pick_fallback_model rt.fuel rt.strategy role current s.usage) p s t

  module _ {A : Type 0} (role : Text)
      (call : Text → AgentState W → Result AgentError A × AgentState W) (p : Phase)
      (is_open : IsIdle p) where
    retry-Quiet :
        (model : Text) (r : Result AgentError A) (s : RunState W)
        → At p s
        → Quiet p (retry rt req role model (λ m. consult rt (call m)) r s)
    unfolding retry note_failure consult
    retry-Quiet model (ok a) s t = t
    retry-Quiet model (err e) s t =
        Post-bound Ended (λ fb u. At p u) (λ a u. At p u)
          (fallback rt role model (record s { usage = failed s.usage role model }))
          (λ fb.
            if text_eq fb []
            then give_up rt req role model e
            else (consult rt (call fb) >>= settle rt req role fb))
          (fallback-Quiet role model p (record s { usage = failed s.usage role model }) t)
          (λ fb u h. elim (Bool-cases (text_eq fb [])) [
            | inl q ↦ rw q (give_up-Post (λ a v. At p v) role model e p u is_open h)
            | inr q ↦ rw q (
                settle-Quiet role fb (call fb u.agent).0 p
                  (record u { agent = (call fb u.agent).1 }) is_open h)
          ])

    ask-Quiet :
        (model : Text) (s : RunState W)
        → At p s
        → Quiet p (ask rt req role model (λ m. consult rt (call m)) s)
    unfolding ask consult
    ask-Quiet model s t =
        retry-Quiet model (call model s.agent).0 (record s { agent = (call model s.agent).1 }) t

    pub ask_model-Quiet :
        (override : Text) (s : RunState W)
        → At p s
        → Quiet p (ask_model rt req role override (λ m. consult rt (call m)) s)
    unfolding ask_model
    ask_model-Quiet override s t =
        let k = select_model rt.strategy role override s.usage in
        ask-Quiet k.0 (record s { usage = k.1 }) t

  -- A call of a tool from a phase `p` that a successful one leaves for `q`.
  module _ (p q : Phase) (is_calling : IsCalling p)
      (move : (e : RunTaskEvent)
        → Event "tool" 0 e
        → e.error ≡ []
        → Move (wording_of rt) limit p e q) where
    observe-Post :
        (name : Text) (out : ToolOutcome) (s : RunState W)
        → At p s
        → Post (λ a u. At q u) Ended (observe rt req name out s)
    unfolding observe emit end_with
    observe-Post name (returned out) s t =
        grown s.sent p (tool_event req name out []) q (s.sent ++ tool_event req name out [] ∷ []) t
          (move (tool_event req name out []) (refl, refl) refl) (refl, refl) refl
    observe-Post name (refused out x) s t =
        let e = tool_event req name (rt.tool_text x) (rt.tool_text x) in
        grown s.sent p e over (s.sent ++ e ∷ []) t
          (tool_fails p e x is_calling (refl, refl) refl refl) (refl, refl) refl
    observe-Post name panics s t = (p, t)

    pub call_tool-Post :
        (tc : ToolCall) (s : RunState W)
        → At p s
        → Post (λ a u. At q u) Ended (call_tool rt req tc s)
    unfolding call_tool poll execute
    call_tool-Post tc s t =
        let r = execute_tool rt.outside rt.ctx (rt.cancelled s.polls) tc s.tools in
        observe-Post tc.name r.0 (record s { polls = s.polls + 1; tools = r.1 }) t

  -- A condition that each call keeps is kept by all of them.
  module _ (I : RunState W → Type 0)
      (one : (tc : ToolCall) (s : RunState W)
        → I s
        → Post (λ a u. I u) Ended (call_tool rt req tc s)) where
    call_tools-Post :
        (tcs : List ToolCall) (s : RunState W)
        → I s
        → Post (λ a u. I u) Ended (call_tools rt req tcs s)
    unfolding call_tools
    call_tools-Post [] s h = h
    call_tools-Post (tc ∷ tcs) s h =
        Post-bound Ended (λ a u. I u) (λ a u. I u) (call_tool rt req tc s)
          (λ obs. call_tools rt req tcs >>= λ rest. done_with (obs ∷ rest)) (one tc s h)
          (λ obs u k.
            Post-bound Ended (λ a v. I v) (λ a v. I v) (call_tools rt req tcs u)
              (λ rest. done_with (obs ∷ rest)) (call_tools-Post tcs u k) (λ rest v g. g))

    with_tools-Post :
        (reg : Option ToolRegistry) (tcs : List ToolCall) (s : RunState W)
        → I s
        → Post (λ a u. I u) Ended (with_tools rt req reg tcs s)
    unfolding with_tools
    with_tools-Post none tcs s h = h
    with_tools-Post (some reg) tcs s h = call_tools-Post tcs s h

    pub call_tools_of-Post :
        (tcs : List ToolCall) (s : RunState W)
        → I s
        → Post (λ a u. I u) Ended (call_tools_of rt req tcs s)
    unfolding call_tools_of
    call_tools_of-Post tcs s h = with_tools-Post s.tools.registry tcs s h

  pub send_tokens-Post :
      (n i : ℕ) (words : List Text) (s : RunState W)
      → At (speaking n i words) s
      → Post (λ a u. (j : ℕ) × At (speaking n j []) u) Ended (send_tokens rt req n i words s)
  unfolding send_tokens poll emit end_with
  send_tokens-Post n i [] s t = (i, t)
  send_tokens-Post n i (word ∷ words) s t = elim (Bool-cases (rt.cancelled s.polls)) [
    | inl c ↦
        let e = error_event req (codes "cancelled") in
        rw c (
          grown s.sent (speaking n i (word ∷ words)) e over (s.sent ++ e ∷ []) t
            (fails (speaking n i (word ∷ words)) e cancelled tt (refl, refl) refl) (refl, refl)
            refl)
    | inr c ↦
        let e = token_event req word (n * 1000 + i) in
        let s' = record s { polls = s.polls + 1; sent = s.sent ++ e ∷ [] } in
        rw c (
          send_tokens-Post n (suc i) words s' (
            grown s.sent (speaking n i (word ∷ words)) e (speaking n (suc i) words)
              (s.sent ++ e ∷ []) t (token n i word words e (refl, refl) refl) (refl, refl) refl))
  ]
