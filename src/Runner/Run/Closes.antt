-- ===== src/Runner/Run/Closes.antt =====
-- When a run comes to its end.
use animus_coder.Base.{
  ℕ, suc, ◌≡◌, refl, ap, ◌∙◌, subst, ◌≢◌, ◌⊎◌, true, Option, none, some, [], arith, All, Text,
  is_blank, err,
}
use animus_coder.Agent.Strategy.{StrategyEngine}
use animus_coder.Runner.Events.{RunTaskRequest}
use animus_coder.Runner.Models.{Usage, pick_fallback_model}
use animus_coder.Runner.Models.Fallback.{pick_fallback_model_ends}
use animus_coder.Runner.Outcome.{ToolOutcome, panics}
use animus_coder.Runner.Execute.{ToolState, execute_tool}
use animus_coder.Runner.Outcome.NoPanic.{NoPanic}
use animus_coder.Runner.Execute.NoPanic.{HasTools, execute_tool-Safe}
use animus_coder.Runner.Stage.{closed, RunState, Runtime, with_correlation}
use animus_coder.Runner.Run.{run_agent}
use animus_coder.Runner.Run.Protocol.{over, wording_of, Trace}
use animus_coder.Runner.Run.Refines.{limit_of, run_agent-IsTraced}
use animus_coder.Runner.Run.Keeps.{IsStable, Allows}
use animus_coder.Runner.Run.Whole.{run_agent-EndsIn}

-- A strategy, if there is one, names one fallback model, however often, beside blank names.
abbrev pub OneFallback : {P : Type 0} → Option (StrategyEngine P) → Type 0
OneFallback none = Unit {0}
OneFallback (some s) = (a : Text) × All (λ fb. (is_blank fb ≡ true) ⊎ (fb ≡ a)) s.cfg.fallbacks

abbrev Holds : ToolState → Type 0
Holds t = HasTools t.registry

HasTools-IsStable : {P W : Type 0} (rt : Runtime P W) → IsStable rt Holds
HasTools-IsStable rt = record {
  calls = λ c tc t i. (execute_tool-Safe rt.outside rt.ctx c tc t i).1;
  tests = λ command retries seconds t i. i;
}

fallback_found :
    {P : Type 0} (s : Option (StrategyEngine P)) (fuel : ℕ) (role current : Text) (u : Usage)
    → OneFallback s
    → pick_fallback_model (suc (suc fuel)) s role current u ≢ none
unfolding pick_fallback_model
fallback_found none fuel role current u h e = absurd (ground arith)
fallback_found (some s) fuel role current u (a, h) e =
    let (r, q) = pick_fallback_model_ends s role current u a fuel h in cc

NoPanic-ne : (out : ToolOutcome) → NoPanic out → out ≢ panics
NoPanic-ne out h e = subst NoPanic e h

module _ {P W : Type 0} (rt : Runtime P W) (fuel : ℕ) (enough : rt.fuel ≡ suc (suc fuel))
    (one : OneFallback rt.strategy) where
  Holds-Allows : Allows rt Holds (λ e. e ≡ closed)
  Holds-Allows = record {
    closing = refl;
    crashing = λ c tc t i e. absurd (
        NoPanic-ne (execute_tool rt.outside rt.ctx c tc t).0
          (execute_tool-Safe rt.outside rt.ctx c tc t i).0 e);
    looping = λ role current u e. absurd (
        fallback_found rt.strategy fuel role current u one
          (subst (λ k. pick_fallback_model k rt.strategy role current u ≡ none) enough e));
  }

-- If the registry, where there is one, holds a filesystem and a terminal tool, and the strategy,
-- where there is one, names one fallback model beside blank names, then every run closes its stream,
-- with the protocol over. Two rounds of looking for a fallback are enough.
pub run_agent-closes :
    {P W : Type 0} (rt : Runtime P W) (fuel : ℕ) (req : RunTaskRequest) (s : RunState W)
    → rt.fuel ≡ suc (suc fuel)
    → OneFallback rt.strategy
    → HasTools s.tools.registry
    → s.sent ≡ []
    → ((run_agent rt req s).0 ≡ err closed)
      × Trace
          (wording_of rt)
          (with_correlation req)
          (limit_of rt.agent)
          (run_agent rt req s).1.sent
          over
run_agent-closes rt fuel req s enough one tools fresh =
    let r =
      run_agent-EndsIn rt Holds (λ e. e ≡ closed) (HasTools-IsStable rt)
        (Holds-Allows rt fuel enough one) req s tools in
    let t = run_agent-IsTraced rt req s fresh in
    let shut : (run_agent rt req s).0 ≡ err closed = r.1 ∙ ap err r.2 in
    let end : t.0 ≡ closed = cc (t.2, shut) in
    (
      shut,
      subst
          (λ p.
            Trace (wording_of rt) (with_correlation req) (limit_of rt.agent)
              (run_agent rt req s).1.sent p)
          (t.4 end) t.3,
    )
