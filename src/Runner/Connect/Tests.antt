-- ===== src/Runner/Connect/Tests.antt =====
-- Checks of the Connect handler at a concrete stream.
use animus_coder.Base.{
  ℕ, ◌<◌, ◌≡◌, refl, true, false, none, some, List, [], ◌∷◌, leb, length, take, codes, ok, err,
}
use animus_coder.Metrics.{new_metrics}
use animus_coder.Runner.Events.{RunTaskRequest, RunTaskEvent, event_of}
use animus_coder.Runner.Serve.Laws.{sessions_at}
use animus_coder.Runner.Connect.{
  RunTaskStreamRequest, broken, StreamRunner, StreamClient, send_failed, handle,
}
use animus_coder.Runner.Connect.Laws.{handle-sessions_at, handle-take}

abbrev request : RunTaskRequest
request = record {
  session_id = codes "s";
  correlation_id = [];
  model = [];
  planner_model = [];
  critic_model = [];
  prompt = codes "fix it";
  tools = [];
  context_paths = [];
}

abbrev message : RunTaskStreamRequest
message = record { run = some request; cancel = false; session_id = []; correlation_id = [] }

abbrev three : List RunTaskEvent
three = event_of "plan" request ∷ event_of "message" request ∷ event_of "done" request ∷ []

abbrev runner : StreamRunner
runner req later = ok three

-- A client that is gone after two events.
abbrev client : StreamClient
client = record {
  first = ok (some message);
  later = err (broken (codes "eof")) ∷ [];
  send_fails = λ i. leb 2 i;
}

handle-take_example :
    (((i : ℕ) → i < length three → client.send_fails i ≡ false)
      → (handle runner client 0 none).0 ≡ (three, none))
    × ((k : ℕ)
        → k < length three
        → ((i : ℕ) → i < k → client.send_fails i ≡ false)
        → client.send_fails k ≡ true
        → (handle runner client 0 none).0 ≡ (take k three, some (send_failed k)))
handle-take_example = handle-take runner client 0 none message request three refl refl refl

handle-sessions_at_example :
    sessions_at (handle runner client 0 (some new_metrics)).1 (codes "connect")
    ≡ sessions_at (some new_metrics) (codes "connect")
handle-sessions_at_example = handle-sessions_at runner client 0 (some new_metrics) (codes "connect")
