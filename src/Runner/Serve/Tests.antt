-- ===== src/Runner/Serve/Tests.antt =====
-- Checks of `ServeHTTP` at a concrete request.
use animus_coder.Base.{
  ◌≡◌, refl, inr, true, none, some, List, [], ◌∷◌, arith, leb, take, codes, text_eq, ok,
}
use mathlib.Core.List
use animus_coder.Metrics.{new_metrics}
use animus_coder.Runner.Events.{RunTaskRequest, RunTaskEvent, event_of}
use animus_coder.Runner.Serve.{Client, Runner, event, streamed, start, serve_http}
use animus_coder.Runner.Serve.Laws.{sessions_at, serve_http-sessions_at, serve_http-take}

abbrev request : RunTaskRequest
request = record {
  session_id = codes "s";
  correlation_id = [];
  model = [];
  planner_model = [];
  critic_model = [];
  prompt = codes "fix it";
  tools = [];
  context_paths = [];
}

-- A runner with three events, and a client that is gone after two.
abbrev three : List RunTaskEvent
three = event_of "plan" request ∷ event_of "message" request ∷ event_of "done" request ∷ []

abbrev runner : Runner
runner req = ok three

abbrev client : Client
client = record {
  method = codes "POST";
  body = ok request;
  flushes = true;
  write_fails = λ i. leb 2 i;
}

serve_http-take_example :
    (serve_http (some runner) client 0 none).0 ≡ streamed (List.map event (take 2 three))
serve_http-take_example =
    serve_http-take (some runner) client 0 2 none request three (unfold text_eq in refl) refl refl
      (unfold start in refl) (λ i below. ground arith) (inr refl)

serve_http-sessions_at_example :
    sessions_at (serve_http (some runner) client 0 (some new_metrics)).1 (codes "ndjson")
    ≡ sessions_at (some new_metrics) (codes "ndjson")
serve_http-sessions_at_example =
    serve_http-sessions_at (some runner) client 0 (some new_metrics) (codes "ndjson")
