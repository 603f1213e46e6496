-- ===== src/Runner/Connect/Laws.antt =====
-- What a Connect stream leaves in the gauge, and what its client reads.
use animus_coder.Base.{
  ℕ, zero, suc, ◌+◌, ◌<◌, ◌≡◌, refl, subst, inl, inr, Bool, true, false, Option, none, some, List,
  [], ◌∷◌, arith, Bool-cases, length, take, Text, codes, Result, ok, err,
}
use animus_coder.Metrics.{Metrics, inc_active_sessions}
use animus_coder.Runner.Events.{RunTaskRequest, RunTaskEvent}
use animus_coder.Runner.Serve.{with_ids}
use animus_coder.Runner.Serve.Laws.{
  sessions_at, SameSessions, SameSessions-refl, SameSessions-trans,
  record_transport_error-SameSessions, dec_active_sessions-inc_active_sessions,
}
use animus_coder.Runner.Connect.{
  RunTaskStreamRequest, cancelled, broken, Received, send_failed, StreamRunner, StreamClient,
  connect, is_cancel, listen, send_events, sent_all, stream_events, handle_run, run_of,
  handle_first, handle,
}

listen-SameSessions : (m : Option Metrics) (later : List Received) → SameSessions m (listen m later)
unfolding listen
listen-SameSessions m [] = SameSessions-refl m
listen-SameSessions m (err cancelled ∷ rest) = SameSessions-refl m
listen-SameSessions m (err (broken reason) ∷ rest) =
    record_transport_error-SameSessions m connect (codes "receive_stream")
listen-SameSessions m (ok msg ∷ rest) = elim (Bool-cases (is_cancel msg)) [
  | inl e ↦ rw e (SameSessions-refl m)
  | inr e ↦ rw e (listen-SameSessions m rest)
]

sent_all-SameSessions :
    (m : Option Metrics) (r : List RunTaskEvent × Option ℕ) → SameSessions m (sent_all m r).1
unfolding sent_all
sent_all-SameSessions m (sent, none) = SameSessions-refl m
sent_all-SameSessions m (sent, some n) =
    record_transport_error-SameSessions m connect (codes "send")

stream_events-SameSessions :
    (client : StreamClient) (m : Option Metrics) (r : Result Text (List RunTaskEvent))
    → SameSessions m (stream_events client m r).1
unfolding stream_events
stream_events-SameSessions client m (err e) =
    record_transport_error-SameSessions m connect (codes "runner_error")
stream_events-SameSessions client m (ok events) =
    sent_all-SameSessions m (send_events client.send_fails 0 events)

handle_run-SameSessions :
    (runner : StreamRunner) (client : StreamClient) (now : ℕ) (m : Option Metrics)
    (run : Option RunTaskRequest)
    → SameSessions m (handle_run runner client now m run).1
unfolding handle_run
handle_run-SameSessions runner client now m none =
    record_transport_error-SameSessions m connect (codes "missing_run")
handle_run-SameSessions runner client now m (some req) =
    let r = runner (with_ids req now) client.later in
    SameSessions-trans m (stream_events client m r).1
      (listen (stream_events client m r).1 client.later) (stream_events-SameSessions client m r)
      (listen-SameSessions (stream_events client m r).1 client.later)

handle_first-SameSessions :
    (runner : StreamRunner) (client : StreamClient) (now : ℕ) (m : Option Metrics)
    (first : Received)
    → SameSessions m (handle_first runner client now m first).1
unfolding handle_first
handle_first-SameSessions runner client now m (err e) =
    record_transport_error-SameSessions m connect (codes "receive_first")
handle_first-SameSessions runner client now m (ok msg) =
    handle_run-SameSessions runner client now m (run_of msg)

-- However a stream begins and ends, the gauge of running sessions is afterwards what it was before,
-- at every transport.
pub handle-sessions_at :
    (runner : StreamRunner) (client : StreamClient) (now : ℕ) (m : Option Metrics) (t : Text)
    → sessions_at (handle runner client now m).1 t ≡ sessions_at m t
unfolding handle
handle-sessions_at runner client now m t =
    let busy = inc_active_sessions m connect in
    dec_active_sessions-inc_active_sessions m (handle_first runner client now busy client.first).1
      connect t (handle_first-SameSessions runner client now busy client.first)

send_events-take :
    (fails : ℕ → Bool) (start k : ℕ) (es : List RunTaskEvent)
    → k < length es
    → ((i : ℕ) → i < k → fails (start + i) ≡ false)
    → fails (start + k) ≡ true
    → send_events fails start es ≡ (take k es, some (start + k))
unfolding send_events
send_events-take fails start k [] below h f = absurd (omega (arith, below))
send_events-take fails start zero (e ∷ es) below h f =
    let now : fails start ≡ true = subst (λ n. fails n ≡ true) {x = start + 0} (omega arith) f in
    ground arith
send_events-take fails start (suc k) (e ∷ es) below h f =
    let now : fails start ≡ false =
      subst (λ n. fails n ≡ false) {x = start + 0} (omega arith) (h 0 (omega arith)) in
    let rest =
      send_events-take fails (suc start) k es (omega (arith, below))
        (λ i b.
          subst (λ n. fails n ≡ false) {x = start + suc i} (omega arith) (h (suc i) (omega arith)))
        (subst (λ n. fails n ≡ true) {x = start + suc k} (omega arith) f) in
    ground arith

send_events-all :
    (fails : ℕ → Bool) (start : ℕ) (es : List RunTaskEvent)
    → ((i : ℕ) → i < length es → fails (start + i) ≡ false)
    → send_events fails start es ≡ (es, none)
unfolding send_events
send_events-all fails start [] h = refl
send_events-all fails start (e ∷ es) h =
    let now : fails start ≡ false =
      subst (λ n. fails n ≡ false) {x = start + 0} (omega arith) (h 0 (omega arith)) in
    let rest = send_events-all fails (suc start) es (λ i b.
      subst (λ n. fails n ≡ false) {x = start + suc i} (omega arith) (h (suc i) (omega arith))) in
    ground arith

-- A stream whose first message carries a task, and whose run starts: if no send fails, the client
-- reads all events in their order and the stream ends without an error; if send number `k` is the
-- first to fail, it reads the `k` events before and the stream ends with that error.
pub handle-take :
    (runner : StreamRunner) (client : StreamClient) (now : ℕ) (m : Option Metrics)
    (msg : RunTaskStreamRequest) (req : RunTaskRequest) (events : List RunTaskEvent)
    → client.first ≡ ok (some msg)
    → msg.run ≡ some req
    → runner (with_ids req now) client.later ≡ ok events
    → (((i : ℕ) → i < length events → client.send_fails i ≡ false)
        → (handle runner client now m).0 ≡ (events, none))
      × ((k : ℕ)
          → k < length events
          → ((i : ℕ) → i < k → client.send_fails i ≡ false)
          → client.send_fails k ≡ true
          → (handle runner client now m).0 ≡ (take k events, some (send_failed k)))
unfolding handle handle_first handle_run run_of stream_events sent_all
handle-take runner client now m msg req events f r s = (
  λ h.
      let out =
        send_events-all client.send_fails 0 events
          (λ i b. subst (λ n. client.send_fails n ≡ false) {x = i} (omega arith) (h i b)) in
      ground arith,
  λ k below h z.
      let out =
        send_events-take client.send_fails 0 k events below
          (λ i b. subst (λ n. client.send_fails n ≡ false) {x = i} (omega arith) (h i b))
          (subst (λ n. client.send_fails n ≡ true) {x = k} (omega arith) z) in
      ground arith,
)
