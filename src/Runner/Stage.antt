-- ===== src/Runner/Stage.antt =====
-- internal/rpc/agent/runner.go: the variables of a run, and the parts of `Run` that stop it or go on.
-- The events in the order in which they are sent are a part of the state: the client reads them all.
pub mod Rules
use animus_coder.Base.{
  ℕ, ◌+◌, Bool, true, not, Option, none, some, List, [], ◌∷◌, ◌++◌, if◌then◌else◌, Text, text_eq,
  Result, ok, err,
}
use animus_coder.Metrics.{record_agent_run}
use animus_coder.Agent.Strategy.{StrategyEngine}
use animus_coder.Agent.Session.{AgentState}
use animus_coder.Agent.Turn.{AgentError, Chat, Agent}
use animus_coder.Tools.Value.{Args}
use animus_coder.Tools.Terminal.{Context}
use animus_coder.Runner.Events.{RunTaskRequest, RunTaskEvent, event_of}
use animus_coder.Runner.Models.{Usage, failed, select_model, pick_fallback_model}
use animus_coder.Runner.TestRun.{TestError}
use animus_coder.Runner.ToolCalls.{Decoder}
use animus_coder.Runner.Outcome.{ToolError}
use animus_coder.Runner.Execute.{ToolState, Outside}
use animus_coder.Runner.Context.Files.{ContextError}

-- How the goroutine ends: it returns and closes the stream, it follows a nil pointer, or it is still
-- looking for a fallback model when the fuel runs out.
pub data Ending : Type 0 where
  closed crashed searching : Ending

pub record RunState (W : Type 0) : Type 0 where
  pub sent : List RunTaskEvent
  pub usage : Usage
  pub agent : AgentState W
  pub tools : ToolState
  pub token_count : ℕ
  pub polls : ℕ

-- The runner, less its logger, and what is not under the repository: the context by the number of its
-- reading, the provider, the clock, the JSON decoders, and the wording of the errors.
pub record Runtime (P W : Type 0) : Type 0 where
  pub agent : Option (Agent P)
  pub strategy : Option (StrategyEngine P)
  pub outside : Outside
  pub chat : Chat P W
  pub stamp : ℕ → Text
  pub ctx : Context
  pub cancelled : ℕ → Bool
  pub decoder : Decoder
  pub unmarshal : Text → Option Args
  pub milliseconds : ℕ
  pub fuel : ℕ
  pub tool_text : ToolError → Text
  pub agent_text : AgentError → Text
  pub context_text : ContextError → Text
  pub test_text : TestError → Text

abbrev pub Stage : Type 0 → Type 0 → Type 0
Stage W A = RunState W → Result Ending A × RunState W

abbrev pub bound :
    {W A B : Type 0} → Result Ending A × RunState W → (A → Stage W B) → Result Ending B × RunState W
bound (ok a, s) f = f a s
bound (err e, s) f = (err e, s)

infixl 5 ◌>>=◌ ◌>>◌
abbrev pub ◌>>=◌ : {W A B : Type 0} → Stage W A → (A → Stage W B) → Stage W B
◌>>=◌ m f s = bound (m s) f

abbrev pub ◌>>◌ : {W B : Type 0} → Stage W (Unit {0}) → Stage W B → Stage W B
m >> k = m >>= λ u. k

abbrev pub done_with : {W A : Type 0} → A → Stage W A
done_with a s = (ok a, s)

-- `out <- e`
unfoldable pub emit : {W : Type 0} → RunTaskEvent → Stage W (Unit {0})
emit e s = (ok tt, record s { sent = s.sent ++ e ∷ [] })

-- `out <- e` and `return`
unfoldable pub end_with : {W A : Type 0} → RunTaskEvent → Stage W A
end_with e s = (err closed, record s { sent = s.sent ++ e ∷ [] })

abbrev pub crash : {W A : Type 0} → Stage W A
crash s = (err crashed, s)

-- `correlation_id` is the session's id where the request has none.
unfoldable pub with_correlation : RunTaskRequest → RunTaskRequest
with_correlation req = record req {
  correlation_id = if text_eq req.correlation_id [] then req.session_id else req.correlation_id;
}

abbrev pub error_event : RunTaskRequest → Text → RunTaskEvent
error_event req text = record (event_of "error" req) { error = text }

abbrev pub done_event : RunTaskRequest → Text → ℕ → RunTaskEvent
done_event req reason step = record (event_of "done" req) {
  is_done = true;
  finish_reason = reason;
  step = step;
}

module _ {P W : Type 0} (rt : Runtime P W) where
  -- A reading of the context's error.
  unfoldable pub poll : Stage W Bool
  poll s = (ok (rt.cancelled s.polls), record s { polls = s.polls + 1 })

  unfoldable pub select : Text → Text → Stage W Text
  select role override s =
      let (model, u) = select_model rt.strategy role override s.usage in
      (ok model, record s { usage = u })

  unfoldable pub note_failure : Text → Text → Stage W (Unit {0})
  note_failure role model s = (ok tt, record s { usage = failed s.usage role model })

  unfoldable pub fallen_back : RunState W → Option (Text × Usage) → Result Ending Text × RunState W
  fallen_back s none = (err searching, s)
  fallen_back s (some (model, u)) = (ok model, record s { usage = u })

  unfoldable pub fallback : Text → Text → Stage W Text
  unfolding fallen_back
  fallback role current s =
      fallen_back s (pick_fallback_model rt.fuel rt.strategy role current s.usage)

  -- A call of the agent.
  unfoldable pub consult :
      {A : Type 0}
      → (AgentState W → Result AgentError A × AgentState W)
      → Stage W (Result AgentError A)
  consult call s = let (r, a) = call s.agent in (ok r, record s { agent = a })

  -- The error of the last call is counted and sent, and the run returns.
  unfoldable pub give_up : {A : Type 0} → RunTaskRequest → Text → Text → AgentError → Stage W A
  give_up req role model e = do
    note_failure role model
    end_with (error_event req (rt.agent_text e))

  unfoldable pub settle :
      {A : Type 0} → RunTaskRequest → Text → Text → Result AgentError A → Stage W A
  unfolding give_up
  settle req role model (ok a) = done_with a
  settle req role model (err e) = give_up req role model e

  -- A failed call is counted, and made again with a fallback model where there is one.
  unfoldable pub retry :
      {A : Type 0}
      → RunTaskRequest
      → Text
      → Text
      → (Text → Stage W (Result AgentError A))
      → Result AgentError A
      → Stage W A
  unfolding settle
  retry req role model call (ok a) = done_with a
  retry req role model call (err e) = do
    note_failure role model
    fb ← fallback role model
    if text_eq fb [] then give_up req role model e else (call fb >>= settle req role fb)

  -- The same steps stand in `Run` for the planner, the coder and the critic.
  unfoldable pub ask :
      {A : Type 0}
      → RunTaskRequest
      → Text
      → Text
      → (Text → Stage W (Result AgentError A))
      → Stage W A
  unfolding retry
  ask req role model call = call model >>= retry req role model call

  -- The choice of a role's model, and the call.
  unfoldable pub ask_model :
      {A : Type 0}
      → RunTaskRequest
      → Text
      → Text
      → (Text → Stage W (Result AgentError A))
      → Stage W A
  unfolding select ask
  ask_model req role override call = do model ← select role override; ask req role model call

  -- The last event of a run that is done, and its metrics.
  unfoldable pub finish : {A : Type 0} → RunTaskRequest → Text → ℕ → Stage W A
  finish req reason step s =
      let m = record_agent_run s.usage.metrics reason rt.milliseconds s.token_count in
      (
        err closed,
        record s {
          sent = s.sent ++ done_event req reason step ∷ [];
          usage = record s.usage { metrics = m };
        },
      )
