-- ===== src/Runner/Events/Tests.antt =====
-- A check of the echoing run at a concrete request.
use animus_coder.Base.{◌≡◌, true, List, [], ◌∷◌, ◌++◌, All, codes, fields}
use mathlib.Core.List
use animus_coder.Runner.Events.{RunTaskRequest, RunTaskEvent, run_task_echo}
use animus_coder.Runner.Events.Echo.{IsProgress, run_task_echo-ends}

abbrev pub two_words : RunTaskRequest
two_words = record {
  session_id = codes "s";
  correlation_id = codes "c";
  model = [];
  planner_model = [];
  critic_model = [];
  prompt = codes "fix it";
  tools = [];
  context_paths = [];
}

echo_ended :
    (first last : RunTaskEvent) × (tokens : List RunTaskEvent) × (run_task_echo two_words
      ≡ first ∷ tokens ++ last ∷ [])
    × All (IsProgress two_words) (first ∷ tokens)
    × (List.map (λ (e : RunTaskEvent). e.token) tokens ≡ fields two_words.prompt)
    × (last.is_done ≡ true)
    × (last.session_id ≡ two_words.session_id)
echo_ended = run_task_echo-ends two_words
