-- ===== src/Runner/Connect.antt =====
-- internal/rpc/agent/connect_handler.go: `handle`. What the client does is an argument: its first
-- message, the later ones that the listener receives, and which sends fail. The listener runs beside
-- the rest; it touches the metrics only by counting, so its count is put at the end.
pub mod Laws
mod Tests
use animus_coder.Base.{
  ℕ, suc, Bool, false, Option, none, some, List, [], ◌∷◌, if◌then◌else◌, Text, codes, Result, ok,
  err,
}
use animus_coder.Metrics.{Metrics, inc_active_sessions, dec_active_sessions, record_transport_error}
use animus_coder.Runner.Events.{RunTaskRequest, RunTaskEvent}
use animus_coder.Runner.Serve.{with_ids}

pub record RunTaskStreamRequest : Type 0 where
  pub run : Option RunTaskRequest
  pub cancel : Bool
  pub session_id : Text
  pub correlation_id : Text

pub data ReceiveError : Type 0 where
  cancelled : ReceiveError
  broken : Text → ReceiveError

-- A received message may be nil.
abbrev pub Received : Type 0
Received = Result ReceiveError (Option RunTaskStreamRequest)

pub data HandleError : Type 0 where
  receive_failed : ReceiveError → HandleError
  missing_run : HandleError
  run_failed : Text → HandleError
  send_failed : ℕ → HandleError

-- The runner sees the context that the listener cancels, hence what the listener received.
abbrev pub StreamRunner : Type 0
StreamRunner = RunTaskRequest → List Received → Result Text (List RunTaskEvent)

pub record StreamClient : Type 0 where
  pub first : Received
  pub later : List Received
  pub send_fails : ℕ → Bool

abbrev pub connect : Text
connect = codes "connect"

is_cancel : Option RunTaskStreamRequest → Bool
is_cancel none = false
is_cancel (some msg) = msg.cancel

-- The listener's loop: it leaves at an error or at a message that cancels.
unfoldable pub listen : Option Metrics → List Received → Option Metrics
unfolding is_cancel
listen m [] = m
listen m (err cancelled ∷ rest) = m
listen m (err (broken reason) ∷ rest) = record_transport_error m connect (codes "receive_stream")
listen m (ok msg ∷ rest) = let more = listen m rest in if is_cancel msg then m else more

-- The loop that sends the events and leaves at the first send that fails: what was sent, and the
-- number of the failing one.
unfoldable pub send_events : (ℕ → Bool) → ℕ → List RunTaskEvent → List RunTaskEvent × Option ℕ
send_events fails n [] = ([], none)
send_events fails n (e ∷ es) =
    let (sent, stop) = send_events fails (suc n) es in
    if fails n then ([], some n) else (e ∷ sent, stop)

-- What the client reads, the error that ends the stream, and the metrics.
abbrev pub Handled : Type 0
Handled = (List RunTaskEvent × Option HandleError) × Option Metrics

sent_all : Option Metrics → List RunTaskEvent × Option ℕ → Handled
sent_all m (sent, none) = ((sent, none), m)
sent_all m (sent, some n) =
    ((sent, some (send_failed n)), record_transport_error m connect (codes "send"))

stream_events : StreamClient → Option Metrics → Result Text (List RunTaskEvent) → Handled
unfolding sent_all
stream_events client m (err e) =
    (([], some (run_failed e)), record_transport_error m connect (codes "runner_error"))
stream_events client m (ok events) = sent_all m (send_events client.send_fails 0 events)

handle_run : StreamRunner → StreamClient → ℕ → Option Metrics → Option RunTaskRequest → Handled
handle_run runner client now m none =
    (([], some missing_run), record_transport_error m connect (codes "missing_run"))
handle_run runner client now m (some req) =
    let (out, m') = stream_events client m (runner (with_ids req now) client.later) in
    (out, listen m' client.later)

run_of : Option RunTaskStreamRequest → Option RunTaskRequest
run_of none = none
run_of (some msg) = msg.run

handle_first : StreamRunner → StreamClient → ℕ → Option Metrics → Received → Handled
unfolding run_of
handle_first runner client now m (err e) =
    (([], some (receive_failed e)), record_transport_error m connect (codes "receive_first"))
handle_first runner client now m (ok msg) = handle_run runner client now m (run_of msg)

unfoldable pub handle : StreamRunner → StreamClient → ℕ → Option Metrics → Handled
unfolding handle_first handle_run stream_events
handle runner client now m =
    let (out, m') = handle_first runner client now (inc_active_sessions m connect) client.first in
    (out, dec_active_sessions m' connect)
