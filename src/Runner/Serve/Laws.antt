-- ===== src/Runner/Serve/Laws.antt =====
-- What a request to `ServeHTTP` leaves in the gauge, and what the client reads.
use animus_coder.Base.{
  ℕ, zero, suc, ◌+◌, ◌≤◌, ◌<◌, ◌≡◌, refl, ◌∙◌, subst, ◌⊎◌, inl, inr, Bool, true, false, Option,
  none, some, List, [], ◌∷◌, arith, Bool-cases, length, take, Text, codes, text_eq, ℤ, pos, negsuc,
  Result, ok, err,
}
use mathlib.Core.List
use animus_coder.Metrics.{
  Metrics, increment, decrement, inc_active_sessions, dec_active_sessions, record_transport_error,
}
use animus_coder.Runner.Events.{RunTaskRequest, RunTaskEvent}
use animus_coder.Runner.Serve.{
  event, Runner, Client, with_ids, write_events, streamed, start, stream_run, serve_body,
  serve_http,
}

-- The value of the gauge of running sessions at a transport.
abbrev pub sessions_at : Option Metrics → Text → ℤ
sessions_at none t = pos 0
sessions_at (some m) t = m.active_sessions t

decrement-increment : (z : ℤ) → decrement (increment z) ≡ z
decrement-increment (pos n) = refl
decrement-increment (negsuc zero) = refl
decrement-increment (negsuc (suc n)) = refl

-- Two states of the metrics with the same running sessions.
unfoldable pub SameSessions : Option Metrics → Option Metrics → Type 0
SameSessions none none = Unit
SameSessions (some m) (some m') = (t : Text) → m'.active_sessions t ≡ m.active_sessions t
SameSessions _ _ = ⊥

pub SameSessions-refl : (m : Option Metrics) → SameSessions m m
unfolding SameSessions
SameSessions-refl none = tt
SameSessions-refl (some m) = λ t. refl

pub SameSessions-trans :
    (a b c : Option Metrics) → SameSessions a b → SameSessions b c → SameSessions a c
unfolding SameSessions
SameSessions-trans none none none h k = tt
SameSessions-trans (some a) (some b) (some c) h k = λ t. k t ∙ h t
SameSessions-trans none none (some c) h k = k
SameSessions-trans none (some b) c h k = elim h [ ]
SameSessions-trans (some a) none c h k = elim h [ ]
SameSessions-trans (some a) (some b) none h k = k

pub record_transport_error-SameSessions :
    (m : Option Metrics) (transport reason : Text)
    → SameSessions m (record_transport_error m transport reason)
unfolding record_transport_error SameSessions
record_transport_error-SameSessions none transport reason = tt
record_transport_error-SameSessions (some m) transport reason = λ t. refl

pub dec_active_sessions-inc_active_sessions :
    (m m' : Option Metrics) (l t : Text)
    → SameSessions (inc_active_sessions m l) m'
    → sessions_at (dec_active_sessions m' l) t ≡ sessions_at m t
unfolding inc_active_sessions dec_active_sessions SameSessions
dec_active_sessions-inc_active_sessions none none l t h = refl
dec_active_sessions-inc_active_sessions none (some m') l t h = elim h [ ]
dec_active_sessions-inc_active_sessions (some m) none l t h = elim h [ ]
dec_active_sessions-inc_active_sessions (some m) (some m') l t h =
    ground (arith, h t, decrement-increment (m.active_sessions t))

stream_run-SameSessions :
    (client : Client) (m : Option Metrics) (r : Result Text (List RunTaskEvent))
    → SameSessions m (stream_run client m r).1
unfolding stream_run
stream_run-SameSessions client m (err e) =
    record_transport_error-SameSessions m (codes "ndjson") (codes "runner_error")
stream_run-SameSessions client m (ok events) = SameSessions-refl m

serve_body-SameSessions :
    (client : Client) (runner : Option Runner) (now : ℕ) (m : Option Metrics)
    (body : Result Text RunTaskRequest)
    → SameSessions m (serve_body client runner now m body).1
unfolding serve_body stream_run
serve_body-SameSessions client runner now m (err e) =
    record_transport_error-SameSessions m (codes "ndjson") (codes "decode")
serve_body-SameSessions client runner now m (ok req) = elim (Bool-cases client.flushes) [
  | inl e ↦ rw e (stream_run-SameSessions client m (start runner (with_ids req now)))
  | inr e ↦ rw e (SameSessions-refl m)
]

wrong_method :
    (m : Option Metrics) (t : Text)
    → sessions_at (record_transport_error m (codes "ndjson") (codes "method_not_allowed")) t
      ≡ sessions_at m t
unfolding record_transport_error
wrong_method none t = refl
wrong_method (some m) t = refl

-- Whatever the request is and however it ends, the gauge of running sessions is afterwards what it
-- was before, at every transport.
pub serve_http-sessions_at :
    (runner : Option Runner) (client : Client) (now : ℕ) (m : Option Metrics) (t : Text)
    → sessions_at (serve_http runner client now m).1 t ≡ sessions_at m t
unfolding serve_http
serve_http-sessions_at runner client now m t =
    elim (Bool-cases (text_eq client.method (codes "POST"))) [
      | inl e ↦ rw e (
          dec_active_sessions-inc_active_sessions m
            (serve_body client runner now (inc_active_sessions m (codes "ndjson")) client.body).1
            (codes "ndjson") t
            (serve_body-SameSessions client runner now (inc_active_sessions m (codes "ndjson"))
              client.body))
      | inr e ↦ rw e (wrong_method m t)
    ]

-- Only the writes before the first failing one are made.
write_events-take :
    (fails : ℕ → Bool) (start k : ℕ) (es : List RunTaskEvent)
    → ((i : ℕ) → i < k → fails (start + i) ≡ false)
    → (length es ≤ k) ⊎ (fails (start + k) ≡ true)
    → write_events fails start es ≡ List.map event (take k es)
unfolding write_events
write_events-take fails start zero [] h f = refl
write_events-take fails start (suc k) [] h f = refl
write_events-take fails start zero (e ∷ es) h (inl short) = absurd (omega (arith, short))
write_events-take fails start zero (e ∷ es) h (inr f) =
    let now : fails start ≡ true = subst (λ n. fails n ≡ true) (omega arith) f in ground arith
write_events-take fails start (suc k) (e ∷ es) h f =
    let now : fails start ≡ false =
      subst (λ n. fails n ≡ false) {x = start + 0} (omega arith) (h 0 (omega arith)) in
    let rest =
      write_events-take fails (suc start) k es
        (λ i below.
          subst (λ n. fails n ≡ false) {x = start + suc i} (omega arith) (h (suc i) (omega arith)))
        (elim f [
          | inl short ↦ inl (omega arith)
          | inr z ↦ inr (subst (λ n. fails n ≡ true) {x = start + suc k} (omega arith) z)
        ]) in
    ground arith

-- A request that is decoded, on a connection that streams, whose run starts: if the first `k` writes
-- succeed and the next one fails or there are no more events, the client reads the first `k` events
-- in their order.
pub serve_http-take :
    (runner : Option Runner) (client : Client) (now k : ℕ) (m : Option Metrics)
    (req : RunTaskRequest) (events : List RunTaskEvent)
    → text_eq client.method (codes "POST") ≡ true
    → client.body ≡ ok req
    → client.flushes ≡ true
    → start runner (with_ids req now) ≡ ok events
    → ((i : ℕ) → i < k → client.write_fails i ≡ false)
    → (length events ≤ k) ⊎ (client.write_fails k ≡ true)
    → (serve_http runner client now m).0 ≡ streamed (List.map event (take k events))
unfolding serve_http serve_body stream_run
serve_http-take runner client now k m req events p b f r w n =
    let written =
      write_events-take client.write_fails 0 k events
        (λ i below. subst (λ n. client.write_fails n ≡ false) {x = i} (omega arith) (w i below))
        (elim n [
          | inl short ↦ inl short
          | inr z ↦ inr (subst (λ n. client.write_fails n ≡ true) {x = k} (omega arith) z)
        ]) in
    ground arith
