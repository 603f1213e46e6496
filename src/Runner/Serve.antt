-- ===== src/Runner/Serve.antt =====
-- internal/rpc/agent/handler.go: `ServeHTTP`. What the client can do is an argument: the decoded body
-- or a decoding error, whether the connection streams, and which writes fail.
pub mod Laws
mod Tests
use animus_coder.Base.{
  ℕ, suc, Bool, not, Option, none, some, List, [], ◌∷◌, ◌++◌, if◌then◌else◌, Text, codes, text_eq,
  show_nat, Result, ok, err,
}
use animus_coder.Metrics.{Metrics, inc_active_sessions, dec_active_sessions, record_transport_error}
use animus_coder.Runner.Events.{RunTaskRequest, RunTaskEvent, run_task_echo}

-- A piece of the response's body: an encoded event, or a line of text.
pub data Chunk : Type 0 where
  event : RunTaskEvent → Chunk
  text : Text → Chunk

pub record Response : Type 0 where
  pub status : ℕ
  pub content_type : Text
  pub chunks : List Chunk

-- The `Runner` interface: an error, or the events in the order in which the channel yields them.
abbrev pub Runner : Type 0
Runner = RunTaskRequest → Result Text (List RunTaskEvent)

pub record Client : Type 0 where
  pub method : Text
  pub body : Result Text RunTaskRequest
  pub flushes : Bool
  pub write_fails : ℕ → Bool

-- http.Error before anything else is written.
abbrev pub http_error : Text → ℕ → Response
http_error message status = record {
  status = status;
  content_type = codes "text/plain; charset=utf-8";
  chunks = text message ∷ [];
}

-- The ids that an empty one stands for; `now` is the clock's time.
unfoldable pub with_ids : RunTaskRequest → ℕ → RunTaskRequest
with_ids req now =
    let session =
      if text_eq req.session_id [] then codes "session-" ++ show_nat now else req.session_id in
    record req {
      session_id = session;
      correlation_id =
          if text_eq req.correlation_id [] then session ++ codes "-corr" else req.correlation_id;
    }

-- The loop that writes the events and leaves at the first write that fails.
unfoldable pub write_events : (ℕ → Bool) → ℕ → List RunTaskEvent → List Chunk
write_events fails n [] = []
write_events fails n (e ∷ es) =
    let rest = event e ∷ write_events fails (suc n) es in if fails n then [] else rest

abbrev pub streamed : List Chunk → Response
streamed chunks = record {
  status = 200;
  content_type = codes "application/x-ndjson";
  chunks = chunks;
}

unfoldable pub start : Option Runner → RunTaskRequest → Result Text (List RunTaskEvent)
start none req = ok (run_task_echo req)
start (some runner) req = runner req

-- Behind the header: an error of the runner comes too late for another status.
stream_run : Client → Option Metrics → Result Text (List RunTaskEvent) → Response × Option Metrics
stream_run client m (err e) = (
  streamed (text (codes "runner error: " ++ e) ∷ []),
  record_transport_error m (codes "ndjson") (codes "runner_error"),
)
stream_run client m (ok events) = (streamed (write_events client.write_fails 0 events), m)

serve_body :
    Client
    → Option Runner
    → ℕ
    → Option Metrics
    → Result Text RunTaskRequest
    → Response × Option Metrics
serve_body client runner now m (err e) = (
  http_error (codes "invalid request: " ++ e) 400,
  record_transport_error m (codes "ndjson") (codes "decode"),
)
serve_body client runner now m (ok req) =
    if not client.flushes
    then (http_error (codes "streaming unsupported") 500, m)
    else stream_run client m (start runner (with_ids req now))

unfoldable pub serve_http : Option Runner → Client → ℕ → Option Metrics → Response × Option Metrics
unfolding serve_body stream_run
serve_http runner client now m =
    if not (text_eq client.method (codes "POST"))
    then (
      http_error (codes "method not allowed") 405,
      record_transport_error m (codes "ndjson") (codes "method_not_allowed"),
    )
    else let (response, m') =
        serve_body client runner now (inc_active_sessions m (codes "ndjson")) client.body in
      (response, dec_active_sessions m' (codes "ndjson"))
