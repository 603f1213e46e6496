-- ===== src/Runner/Run/Opening.antt =====
-- The part of a run before its first step, in the phases of the protocol.
use animus_coder.Base.{
  ℕ, ◌≡◌, refl, inl, inr, List, [], ◌∷◌, ◌++◌, Bool-cases, Text, codes, is_blank,
}
use animus_coder.Agent.Types.{ContextFile}
use animus_coder.Agent.Strategy.{first_non_empty}
use animus_coder.Agent.Turn.{Agent, make_plan}
use animus_coder.Runner.Events.{ToolCall, RunTaskRequest}
use animus_coder.Runner.Stage.{RunState, Runtime, ◌>>=◌, done_with, emit, consult, ask_model}
use animus_coder.Runner.Stage.Rules.{Post, Post-bound, Post-if}
use animus_coder.Runner.Actions.{plan_event, agent_request, call_tools_of, send_plan, planning}
use animus_coder.Runner.Run.Calls.{At, Ended, ask_model-Quiet, call_tool-Post, call_tools_of-Post}
use animus_coder.Runner.Run.Protocol.{
  Phase, opening, planned, steps_of, IsIdle, requested, plan, grown,
}

module _ {P W : Type 0} (rt : Runtime P W) (req : RunTaskRequest) (limit : ℕ) where
  -- The events lead to a phase with `n` steps begun, from which a run may go on.
  abbrev pub Between : ℕ → RunState W → Type 0
  Between n s = (p : Phase) × IsIdle p × (steps_of p ≡ n) × At rt req limit p s

  abbrev pub Within : (Phase → Type 0) → RunState W → Type 0
  Within M s = (p : Phase) × M p × At rt req limit p s

  send_plan-Post :
      (text : Text) (s : RunState W)
      → At rt req limit opening s
      → Post (λ a u. Between 0 u) (Ended rt req limit) (send_plan rt req text s)
  unfolding send_plan emit
  send_plan-Post text s t = elim (Bool-cases (is_blank text)) [
    | inl e ↦ rw e (opening, tt, refl, t)
    | inr e ↦
        let v = plan_event req text in
        rw e (
          planned,
          tt,
          refl,
          grown s.sent opening v planned (s.sent ++ v ∷ []) t (plan v (refl, refl)) (refl, refl)
              refl,
        )
  ]

  pub planning-Post :
      (a : Agent P) (files : List ContextFile) (s : RunState W)
      → At rt req limit opening s
      → Post (λ u v. Between 0 v) (Ended rt req limit) (planning rt req a files s)
  unfolding planning
  planning-Post a files s t =
      let role = codes "planner" in
      let override = first_non_empty (req.planner_model ∷ req.model ∷ []) in
      let call = λ (m : Text). make_plan rt.chat rt.stamp a (agent_request rt req m files) in
      let asked = ask_model rt req role override (λ m. consult rt (call m)) in
      Post-if (Ended rt req limit) (λ u v. Between 0 v) a.cfg.enable_plan
        (asked >>= send_plan rt req) (done_with tt) s
        (λ e.
          Post-bound (Ended rt req limit) (λ text u. At rt req limit opening u) (λ u v. Between 0 v)
            (asked s) (send_plan rt req)
            (ask_model-Quiet rt req limit role call opening tt override s t) send_plan-Post)
        (λ e. (opening, tt, refl, t))

  -- The calls that the request asks for.
  pub requested-Post :
      (tcs : List ToolCall) (s : RunState W)
      → At rt req limit opening s
      → Post (λ obs u. At rt req limit opening u) (Ended rt req limit) (call_tools_of rt req tcs s)
  requested-Post =
      call_tools_of-Post rt req limit (At rt req limit opening)
        (call_tool-Post rt req limit opening opening tt requested)
