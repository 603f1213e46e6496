-- ===== src/Runner/Run/Keeps.antt =====
-- What holds of the tools throughout a run, and which endings it has: a condition on the tools that
-- calls of tools and test runs keep is kept by the whole run.
use animus_coder.Base.{
  ◌+◌, ◌≡◌, refl, Bool, true, false, Option, none, some, List, [], ◌∷◌, if◌then◌else◌, Text,
  text_eq, ℤ, Result, ok, err,
}
use animus_coder.Agent.Session.{AgentState}
use animus_coder.Agent.Turn.{AgentError}
use animus_coder.Runner.Events.{ToolCall, RunTaskRequest}
use animus_coder.Runner.Models.{Usage, failed, pick_fallback_model, select_model}
use animus_coder.Runner.TestRun.{run_tests}
use animus_coder.Runner.Outcome.{ToolOutcome, returned, refused, panics}
use animus_coder.Runner.Execute.{ToolState, execute_tool}
use animus_coder.Tools.Schema.{ToolRegistry}
use animus_coder.Runner.Stage.{
  Ending, closed, crashed, searching, RunState, Runtime, Stage, bound, ◌>>=◌, done_with, emit,
  end_with, poll, note_failure, fallen_back, fallback, consult, give_up, settle, retry, ask,
  ask_model,
}
use animus_coder.Runner.Stage.Rules.{Post, Post-bound}
use animus_coder.Runner.Actions.{
  terminal_of, observe, execute, call_tool, call_tools, with_tools, call_tools_of,
}

-- A condition on the tools that their calls and the runs of the test command keep.
pub record IsStable {P W : Type 0} (rt : Runtime P W) (I : ToolState → Type 0) : Type 0 where
  pub calls :
      (cancelled : Bool) (tc : ToolCall) (t : ToolState)
      → I t
      → I (execute_tool rt.outside rt.ctx cancelled tc t).1
  pub tests :
      (command : Text) (retries timeout_seconds : ℤ) (t : ToolState)
      → I t
      → I (record t {
        disk =
            (run_tests rt.outside.run rt.ctx
              (terminal_of t.registry)
              command
              retries
              timeout_seconds
              t.disk).1;
      })

-- The endings that are possible while the condition holds.
pub record Allows {P W : Type 0} (rt : Runtime P W) (I : ToolState → Type 0)
    (Good : Ending → Type 0) : Type 0 where
  pub closing : Good closed
  pub crashing :
      (cancelled : Bool) (tc : ToolCall) (t : ToolState)
      → I t
      → (execute_tool rt.outside rt.ctx cancelled tc t).0 ≡ panics
      → Good crashed
  pub looping :
      (role current : Text) (u : Usage)
      → pick_fallback_model rt.fuel rt.strategy role current u ≡ none
      → Good searching

module _ {W : Type 0} (I : ToolState → Type 0) (Good : Ending → Type 0) where
  abbrev pub Kept : {A : Type 0} → Result Ending A × RunState W → Type 0
  Kept = Post (λ a s. I s.tools) (λ e s. Good e × I s.tools)

  pub bound-Kept :
      {A B : Type 0} (r : Result Ending A × RunState W) (f : A → Stage W B)
      → Kept r
      → ((a : A) (s : RunState W) → I s.tools → Kept (f a s))
      → Kept (bound r f)
  bound-Kept r f h k =
      Post-bound (λ e s. Good e × I s.tools) (λ a s. I s.tools) (λ b s. I s.tools) r f h k

  pub if-Kept :
      {A : Type 0} (b : Bool) (x y : Stage W A) (s : RunState W)
      → Kept (x s)
      → Kept (y s)
      → Kept ((if b then x else y) s)
  if-Kept true x y s h k = h
  if-Kept false x y s h k = k

module _ {P W : Type 0} (rt : Runtime P W) (req : RunTaskRequest) (I : ToolState → Type 0)
    (Good : Ending → Type 0) (stable : IsStable rt I) (allows : Allows rt I Good) where
  give_up-Kept :
      (A : Type 0) (role model : Text) (e : AgentError) (s : RunState W)
      → I s.tools
      → Kept I Good (give_up rt {A = A} req role model e s)
  unfolding give_up end_with note_failure
  give_up-Kept _ role model e s i = (allows.closing, i)

  settle-Kept :
      {A : Type 0} (role model : Text) (r : Result AgentError A) (s : RunState W)
      → I s.tools
      → Kept I Good (settle rt req role model r s)
  unfolding settle
  settle-Kept role model (ok a) s i = i
  settle-Kept role model (err e) s i = give_up-Kept _ role model e s i

  fallen_back-Kept :
      (role current : Text) (s : RunState W) (r : Option (Text × Usage))
      → pick_fallback_model rt.fuel rt.strategy role current s.usage ≡ r
      → I s.tools
      → Kept I Good (fallen_back rt s r)
  unfolding fallen_back
  fallen_back-Kept role current s none e i = (allows.looping role current s.usage e, i)
  fallen_back-Kept role current s (some (model, u)) e i = i

  fallback-Kept :
      (role current : Text) (s : RunState W) → I s.tools → Kept I Good (fallback rt role current s)
  unfolding fallback
  fallback-Kept role current s i =
      fallen_back-Kept role current s (pick_fallback_model rt.fuel rt.strategy role current s.usage)
        refl i

  module _ {A : Type 0} (role : Text)
      (call : Text → AgentState W → Result AgentError A × AgentState W) where
    retry-Kept :
        (model : Text) (r : Result AgentError A) (s : RunState W)
        → I s.tools
        → Kept I Good (retry rt req role model (λ m. consult rt (call m)) r s)
    unfolding retry note_failure consult
    retry-Kept model (ok a) s i = i
    retry-Kept model (err e) s i =
        bound-Kept I Good (fallback rt role model (record s { usage = failed s.usage role model }))
          (λ fb.
            if text_eq fb []
            then give_up rt req role model e
            else (consult rt (call fb) >>= settle rt req role fb))
          (fallback-Kept role model (record s { usage = failed s.usage role model }) i)
          (λ fb u h.
            if-Kept I Good (text_eq fb []) (give_up rt req role model e)
              (consult rt (call fb) >>= settle rt req role fb) u (give_up-Kept _ role model e u h)
              (settle-Kept role fb (call fb u.agent).0 (record u { agent = (call fb u.agent).1 })
                h))

    ask-Kept :
        (model : Text) (s : RunState W)
        → I s.tools
        → Kept I Good (ask rt req role model (λ m. consult rt (call m)) s)
    unfolding ask consult
    ask-Kept model s i =
        retry-Kept model (call model s.agent).0 (record s { agent = (call model s.agent).1 }) i

    pub ask_model-Kept :
        (override : Text) (s : RunState W)
        → I s.tools
        → Kept I Good (ask_model rt req role override (λ m. consult rt (call m)) s)
    unfolding ask_model
    ask_model-Kept override s i =
        let k = select_model rt.strategy role override s.usage in
        ask-Kept k.0 (record s { usage = k.1 }) i

  observe-Kept :
      (name : Text) (out : ToolOutcome) (s : RunState W)
      → (out ≡ panics → Good crashed)
      → I s.tools
      → Kept I Good (observe rt req name out s)
  unfolding observe emit end_with
  observe-Kept name (returned out) s c i = i
  observe-Kept name (refused out x) s c i = (allows.closing, i)
  observe-Kept name panics s c i = (c refl, i)

  call_tool-Kept :
      (tc : ToolCall) (s : RunState W) → I s.tools → Kept I Good (call_tool rt req tc s)
  unfolding call_tool poll execute
  call_tool-Kept tc s i =
      let c = rt.cancelled s.polls in
      let r = execute_tool rt.outside rt.ctx c tc s.tools in
      observe-Kept tc.name r.0 (record s { polls = s.polls + 1; tools = r.1 })
        (allows.crashing c tc s.tools i) (stable.calls c tc s.tools i)

  call_tools-Kept :
      (tcs : List ToolCall) (s : RunState W) → I s.tools → Kept I Good (call_tools rt req tcs s)
  unfolding call_tools
  call_tools-Kept [] s i = i
  call_tools-Kept (tc ∷ tcs) s i =
      bound-Kept I Good (call_tool rt req tc s)
        (λ obs. call_tools rt req tcs >>= λ rest. done_with (obs ∷ rest)) (call_tool-Kept tc s i)
        (λ obs u h.
          bound-Kept I Good (call_tools rt req tcs u) (λ rest. done_with (obs ∷ rest))
            (call_tools-Kept tcs u h) (λ rest v k. k))

  with_tools-Kept :
      (reg : Option ToolRegistry) (tcs : List ToolCall) (s : RunState W)
      → I s.tools
      → Kept I Good (with_tools rt req reg tcs s)
  unfolding with_tools
  with_tools-Kept none tcs s i = i
  with_tools-Kept (some reg) tcs s i = call_tools-Kept tcs s i

  pub call_tools_of-Kept :
      (tcs : List ToolCall) (s : RunState W) → I s.tools → Kept I Good (call_tools_of rt req tcs s)
  unfolding call_tools_of
  call_tools_of-Kept tcs s i = with_tools-Kept s.tools.registry tcs s i
