-- ===== src/Metrics.antt =====
-- internal/observability/metrics.go: counters and gauges by label. A collector is the function from
-- its labels to its value; a duration is a number of time units. A nil *Metrics records nothing.
use animus_coder.Base.{
  ℕ, zero, suc, ◌+◌, Option, none, some, List, [], ◌∷◌, ◌++◌, if◌then◌else◌, Text, codes, text_eq,
  ℤ, pos, negsuc,
}

pub record Metrics : Type 0 where
  pub agent_requests : Text → ℕ
  pub agent_duration : Text → List ℕ
  pub agent_tokens : Text → ℕ
  pub active_sessions : Text → ℤ
  pub transport_errors : Text → Text → ℕ
  pub model_usage : Text → Text → ℕ
  pub model_failures : Text → Text → ℕ

unfoldable pub new_metrics : Metrics
new_metrics = record {
  agent_requests = λ _. 0;
  agent_duration = λ _. [];
  agent_tokens = λ _. 0;
  active_sessions = λ _. pos 0;
  transport_errors = λ _ _. 0;
  model_usage = λ _ _. 0;
  model_failures = λ _ _. 0;
}

unknown : Text
unknown = codes "unknown"

-- The default that each recorder puts for an empty label.
unfoldable pub label : Text → Text
unfolding unknown
label t = if text_eq t [] then unknown else t

-- The value at one label changes, all others stay.
abbrev pub at_label {ℓ} : {A : Type ℓ} → Text → (A → A) → (Text → A) → Text → A
at_label l f v x = if text_eq l x then f (v x) else v x

abbrev pub increment : ℤ → ℤ
increment (pos n) = pos (suc n)
increment (negsuc zero) = pos 0
increment (negsuc (suc n)) = negsuc n

abbrev pub decrement : ℤ → ℤ
decrement (pos zero) = negsuc 0
decrement (pos (suc n)) = pos n
decrement (negsuc n) = negsuc (suc n)

unfoldable pub record_agent_run : Option Metrics → Text → ℕ → ℕ → Option Metrics
record_agent_run none reason duration tokens = none
record_agent_run (some m) reason duration tokens =
    let l = label reason in
    some (record m {
      agent_requests = at_label l suc m.agent_requests;
      agent_duration = at_label l (λ d. d ++ duration ∷ []) m.agent_duration;
      agent_tokens = at_label l (λ n. n + tokens) m.agent_tokens;
    })

unfoldable pub inc_active_sessions : Option Metrics → Text → Option Metrics
inc_active_sessions none transport = none
inc_active_sessions (some m) transport =
    some (record m { active_sessions = at_label transport increment m.active_sessions })

unfoldable pub dec_active_sessions : Option Metrics → Text → Option Metrics
dec_active_sessions none transport = none
dec_active_sessions (some m) transport =
    some (record m { active_sessions = at_label transport decrement m.active_sessions })

unfoldable pub record_transport_error : Option Metrics → Text → Text → Option Metrics
record_transport_error none transport reason = none
record_transport_error (some m) transport reason = some (record m {
  transport_errors = at_label (label transport) (at_label (label reason) suc) m.transport_errors;
})

unfoldable pub record_model_usage : Option Metrics → Text → Text → Option Metrics
record_model_usage none role model = none
record_model_usage (some m) role model =
    some
      (record m { model_usage = at_label (label role) (at_label (label model) suc) m.model_usage })

unfoldable pub record_model_failure : Option Metrics → Text → Text → Option Metrics
record_model_failure none role model = none
record_model_failure (some m) role model = some (record m {
  model_failures = at_label (label role) (at_label (label model) suc) m.model_failures;
})
