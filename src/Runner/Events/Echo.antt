-- ===== src/Runner/Events/Echo.antt =====
-- The events of the echoing run.
use animus_coder.Base.{
  ℕ, suc, ◌≡◌, refl, true, false, List, [], ◌∷◌, ◌++◌, arith, All, Text, codes, fields,
}
use mathlib.Core.List
use animus_coder.Runner.Events.{RunTaskRequest, RunTaskEvent, event_of, token_events, run_task_echo}

-- An event of this run that is not its last.
abbrev pub IsProgress : RunTaskRequest → RunTaskEvent → Type 0
IsProgress req e =
    (e.is_done ≡ false)
    × (e.session_id ≡ req.session_id)
    × (e.correlation_id ≡ req.correlation_id)
    × (e.error ≡ [])

token_events-IsProgress :
    (req : RunTaskRequest) (i : ℕ) (ws : List Text) → All (IsProgress req) (token_events req i ws)
unfolding token_events
token_events-IsProgress req i [] = tt
token_events-IsProgress req i (w ∷ ws) =
    ((refl, refl, refl, refl), token_events-IsProgress req (suc i) ws)

tokens-token_events :
    (req : RunTaskRequest) (i : ℕ) (ws : List Text)
    → List.map (λ (e : RunTaskEvent). e.token) (token_events req i ws) ≡ ws
unfolding token_events
tokens-token_events req i [] = refl
tokens-token_events req i (w ∷ ws) = ground (arith, tokens-token_events req (suc i) ws)

-- The echoing run sends a message, then a token event for each word of the prompt, in order, all of
-- them marked as progress of this session, and at the end one event that is done.
pub run_task_echo-ends :
    (req : RunTaskRequest)
    → (first last : RunTaskEvent) × (tokens : List RunTaskEvent) × (run_task_echo req
        ≡ first ∷ tokens ++ last ∷ [])
      × All (IsProgress req) (first ∷ tokens)
      × (List.map (λ (e : RunTaskEvent). e.token) tokens ≡ fields req.prompt)
      × (last.is_done ≡ true)
      × (last.session_id ≡ req.session_id)
unfolding run_task_echo
run_task_echo-ends req = (
  record (event_of "message" req) { message = codes "session started" },
  record (event_of "done" req) { is_done = true; finish_reason = codes "eos" },
  token_events req 0 (fields req.prompt),
  refl,
  ((refl, refl, refl, refl), token_events-IsProgress req 0 (fields req.prompt)),
  tokens-token_events req 0 (fields req.prompt),
  refl,
  refl,
)
