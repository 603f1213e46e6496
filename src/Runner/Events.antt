-- ===== src/Runner/Events.antt =====
-- internal/rpc/messages.go: requests and the events that a run sends, and the run of
-- internal/rpc/agent/handler.go that echoes the prompt.
pub mod Echo
mod Tests
use animus_coder.Base.{
  ℕ, suc, ◌+◌, String, Bool, true, false, Option, none, List, [], ◌∷◌, ◌++◌, Text, codes, fields, ℤ,
  pos, ok, err,
}
use animus_coder.Tools.Value.{Args}

pub record ToolCall : Type 0 where
  pub name : Text
  pub args : Args

pub record RunTaskRequest : Type 0 where
  pub session_id : Text
  pub correlation_id : Text
  pub model : Text
  pub planner_model : Text
  pub critic_model : Text
  pub prompt : Text
  pub tools : List ToolCall
  pub context_paths : List Text

pub record RunTaskEvent : Type 0 where
  pub kind : Text
  pub session_id : Text
  pub correlation_id : Text
  pub token : Text
  pub message : Text
  pub error : Text
  pub is_done : Bool
  pub step : ℕ
  pub finish_reason : Text
  pub tool_name : Text
  pub tool_output : Text
  pub exit_code : ℤ
  pub critique : Option Args
  pub test_summary : Text
  pub failing_tests : List Text
  pub test_attempts : ℕ

-- An event of a kind with the two ids of its run; its other fields have their zero values.
abbrev pub event_of : String → RunTaskRequest → RunTaskEvent
event_of kind req = record {
  kind = codes kind;
  session_id = req.session_id;
  correlation_id = req.correlation_id;
  token = [];
  message = [];
  error = [];
  is_done = false;
  step = 0;
  finish_reason = [];
  tool_name = [];
  tool_output = [];
  exit_code = pos 0;
  critique = none;
  test_summary = [];
  failing_tests = [];
  test_attempts = 0;
}

-- The loop over the words, the one at hand being number `i`.
unfoldable pub token_events : RunTaskRequest → ℕ → List Text → List RunTaskEvent
token_events req i [] = []
token_events req i (w ∷ ws) =
    record (event_of "token" req) { token = w; step = i + 1 } ∷ token_events req (suc i) ws

unfoldable pub run_task_echo : RunTaskRequest → List RunTaskEvent
run_task_echo req =
    record (event_of "message" req) { message = codes "session started" }
      ∷ token_events req 0 (fields req.prompt)
    ++ record (event_of "done" req) { is_done = true; finish_reason = codes "eos" } ∷ []
