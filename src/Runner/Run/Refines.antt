-- ===== src/Runner/Run/Refines.antt =====
-- A whole run sends its events as the protocol allows.
use animus_coder.Base.{
  ℕ, ◌≡◌, refl, sym, subst, Bool, true, false, Option, none, some, List, [], ◌∷◌, ◌++◌, arith,
  codes, Result, ok, err,
}
use animus_coder.Agent.Types.{ContextFile, ToolObservation}
use animus_coder.Agent.Turn.{Agent, max_steps}
use animus_coder.Runner.Context.Files.{ContextError}
use animus_coder.Runner.Events.{RunTaskRequest}
use animus_coder.Runner.Stage.{
  Ending, closed, crashed, searching, RunState, Runtime, end_with, error_event, done_event,
  with_correlation, finish,
}
use animus_coder.Runner.Stage.Rules.{Post}
use animus_coder.Runner.Run.{halt_if, steps, or_error, run_with, with_agent, run_agent}
use animus_coder.Runner.Run.Protocol.{
  Phase, opening, over, exhausted, fails, Wording, wording_of, cancelled, no_agent, context_failed,
  IsIdle-IsOpen, Trace, empty, grown,
}
use animus_coder.Runner.Run.Calls.{At, Ended}
use animus_coder.Runner.Run.Opening.{Between, requested-Post, planning-Post}
use animus_coder.Runner.Run.Steps.{one_step-Between}
use animus_coder.Runner.Run.Rules.{Never, steps-Post, run_with-Post}

module _ {P W : Type 0} (rt : Runtime P W) (req : RunTaskRequest) (a : Agent P) where
  abbrev limit : ℕ
  limit = max_steps a.cfg

  halt_if-Post :
      (c : Bool) (n : ℕ) (s : RunState W)
      → Between rt req limit n s
      → Post (λ o u. Between rt req limit n u) (Ended rt req limit) (halt_if rt req c s)
  unfolding halt_if end_with
  halt_if-Post false n s b = b
  halt_if-Post true n s (p, o, c, t) =
      let e = error_event req (codes "cancelled") in
      grown s.sent p e over (s.sent ++ e ∷ []) t
        (fails p e cancelled (IsIdle-IsOpen p o) (refl, refl) refl) (refl, refl) refl

  exhausted-Post :
      (s : RunState W)
      → Between rt req limit limit s
      → Post Never (Ended rt req limit) (finish rt {A = ⊥} req (codes "max_steps") limit s)
  unfolding finish
  exhausted-Post s (p, o, c, t) =
      let e = done_event req (codes "max_steps") limit in
      grown s.sent p e over (s.sent ++ e ∷ []) t (exhausted p e o c (refl, refl) refl refl)
        (refl, refl) refl

  steps-Ended :
      (files : List ContextFile) (earlier : List ToolObservation) (s : RunState W)
      → Between rt req limit 0 s
      → Post Never (Ended rt req limit) (steps rt req a files limit 1 earlier s)
  steps-Ended files earlier s =
      steps-Post rt req (Ended rt req limit) a files (Between rt req limit) (λ n k u b. b)
        halt_if-Post (one_step-Between rt req limit a files) exhausted-Post limit 0 earlier s
        (omega arith)

  or_error-Post :
      (r : Result ContextError (List ContextFile)) (s : RunState W)
      → At rt req limit opening s
      → Post (λ files u. At rt req limit opening u) (Ended rt req limit) (or_error rt req r s)
  unfolding or_error end_with
  or_error-Post (ok files) s t = t
  or_error-Post (err x) s t =
      let e = error_event req (rt.context_text x) in
      grown s.sent opening e over (s.sent ++ e ∷ []) t
        (fails opening e (context_failed x) tt (refl, refl) refl) (refl, refl) refl

  run_with-Ended :
      (s : RunState W)
      → At rt req limit opening s
      → Post Never (Ended rt req limit) (run_with rt req a s)
  run_with-Ended s t =
      run_with-Post rt req (Ended rt req limit) a (At rt req limit opening) (Between rt req limit 0)
        s (λ r. or_error-Post r s t) (requested-Post rt req limit) (planning-Post rt req limit a)
        steps-Ended

-- The limit of steps of a run; a run without an agent has none to take.
abbrev pub limit_of : {P : Type 0} → Option (Agent P) → ℕ
limit_of none = 0
limit_of (some a) = max_steps a.cfg

with_agent-Post :
    {P W : Type 0} (rt : Runtime P W) (req : RunTaskRequest) (o : Option (Agent P)) (s : RunState W)
    → At rt req (limit_of o) opening s
    → Post Never (Ended rt req (limit_of o)) (with_agent rt req o s)
unfolding with_agent end_with
with_agent-Post rt req none s t =
    let e = error_event req (codes "agent unavailable") in
    grown s.sent opening e over (s.sent ++ e ∷ []) t (fails opening e no_agent tt (refl, refl) refl)
      (refl, refl) refl
with_agent-Post rt req (some a) s t = run_with-Ended rt req a s t

-- How a goroutine that sends such events may end.
abbrev pub IsTraced :
    {W : Type 0} → Wording → RunTaskRequest → ℕ → Result Ending ⊥ × RunState W → Type 0
IsTraced w req limit r =
    (ending : Ending) × (p : Phase) × (r.0 ≡ err ending)
    × Trace w req limit r.1.sent p
    × (ending ≡ closed → p ≡ over)

Post-IsTraced :
    {P W : Type 0} (rt : Runtime P W) (req : RunTaskRequest) (limit : ℕ)
    (r : Result Ending ⊥ × RunState W)
    → Post Never (Ended rt req limit) r
    → IsTraced (wording_of rt) req limit r
Post-IsTraced rt req limit (ok a, s) h = absurd a
Post-IsTraced rt req limit (err closed, s) t = (closed, over, refl, t, λ e. refl)
Post-IsTraced rt req limit (err crashed, s) (p, t) = (crashed, p, refl, t, λ e. cc)
Post-IsTraced rt req limit (err searching, s) (p, t) = (searching, p, refl, t, λ e. cc)

pub run_agent-IsTraced :
    {P W : Type 0} (rt : Runtime P W) (req : RunTaskRequest) (s : RunState W)
    → s.sent ≡ []
    → IsTraced (wording_of rt) (with_correlation req) (limit_of rt.agent) (run_agent rt req s)
unfolding run_agent
run_agent-IsTraced rt req s h =
    Post-IsTraced rt (with_correlation req) (limit_of rt.agent) (run_agent rt req s) (
      with_agent-Post rt (with_correlation req) rt.agent s (
        subst (λ es. Trace (wording_of rt) (with_correlation req) (limit_of rt.agent) es opening)
          (sym h) empty))
