-- ===== src/Runner/Run/Steps.antt =====
-- The parts of one step of a run, from phase to phase of the protocol.
use animus_coder.Base.{
  fields, ℕ, suc, ◌<◌, refl, sym, ap, Bool, true, false, ◌&&◌, Option, none, List, [], ◌∷◌, ◌++◌,
  arith, if◌then◌else◌, Text, codes, is_blank,
}
use animus_coder.Config.{AgentConfig}
use animus_coder.Agent.Types.{
  Response, ContextFile, ToolObservation, TestObservation, ReflectionContext,
}
use animus_coder.Agent.Strategy.{first_non_empty}
use animus_coder.Agent.Turn.{Agent, test_run_enabled, reflection_policy, run_turn, reflect}
use animus_coder.Runner.Events.{ToolCall, RunTaskRequest}
use animus_coder.Runner.Critique.{
  parse_critique, critique_blocks_apply, should_block_on_critique, compute_self_diff,
}
use animus_coder.Runner.TestRun.{TestRun}
use animus_coder.Runner.TestOutput.{parse_test_output}
use animus_coder.Runner.Stage.{
  RunState, Runtime, ◌>>=◌, ◌>>◌, done_with, emit, consult, finish, done_event, ask_model,
}
use animus_coder.Runner.Stage.Rules.{Post, Post-bound, Post-map, Post-if}
use animus_coder.Runner.Actions.{
  message_event, reflect_event, test_event, agent_request, call_tool, call_tools_of, error_text,
  test_run, report_test, testing, judge, reflecting, conclude, respond,
}
use animus_coder.Runner.Run.{one_step}
use animus_coder.Runner.Run.Calls.{
  send_tokens-Post, At, Ended, ask_model-Quiet, call_tool-Post, call_tools_of-Post,
}
use animus_coder.Runner.Run.Protocol.{
  Phase, over, speaking, calling, tested, reflected, halted, Rests, MayCall-IsCalling,
  MayCall-MayReflect, MayReflect-Rests, MayCall, MayReflect, MayEnd, message, called, test,
  reflection, halt, ends, grown,
}
use animus_coder.Runner.Run.Rules.{one_step-Post}
use animus_coder.Runner.Run.Opening.{Between, Within}

module _ {P W : Type 0} (rt : Runtime P W) (req : RunTaskRequest) (limit : ℕ) where
  respond-Post :
      (a : Agent P) (files : List ContextFile) (n : ℕ) (s : RunState W)
      → n < limit
      → Between rt req limit n s
      → Post
          (λ resp u. At rt req limit (speaking (suc n) 0 (fields resp.message.content)) u)
          (Ended rt req limit)
          (respond rt req a files (suc n) s)
  unfolding respond emit
  respond-Post a files n s l (p, o, c, t) =
      let role = codes "coder" in
      let override = first_non_empty (req.model ∷ []) in
      let call = λ (m : Text). run_turn rt.chat rt.stamp a (agent_request rt req m files) in
      Post-bound (Ended rt req limit) (λ resp u. At rt req limit p u)
        (λ resp u. At rt req limit (speaking (suc n) 0 (fields resp.message.content)) u)
        (ask_model rt req role override (λ m. consult rt (call m)) s)
        (λ resp. emit (message_event req resp.message.content (suc n)) >> done_with resp)
        (ask_model-Quiet rt req limit role call p o override s t)
        (λ resp u h.
          let e = message_event req resp.message.content (suc n) in
          grown u.sent p e (speaking (suc n) 0 (fields resp.message.content)) (u.sent ++ e ∷ []) h
            (message p (suc n) e o (ap suc (sym c)) (omega arith) (refl, refl)) (refl, refl) refl)

  -- The calls of step `n`.
  step_calls-Post :
      (n : ℕ) (tcs : List ToolCall) (s : RunState W)
      → Within rt req limit (MayCall n) s
      → Post
          (λ obs u. Within rt req limit (MayCall n) u)
          (Ended rt req limit)
          (call_tools_of rt req tcs s)
  step_calls-Post n =
      call_tools_of-Post rt req limit (Within rt req limit (MayCall n)) (λ tc s (p, m, t).
        Post-map (Ended rt req limit) (λ obs u. At rt req limit (calling n) u)
          (λ obs u. Within rt req limit (MayCall n) u) (call_tool rt req tc s)
          (call_tool-Post rt req limit p (calling n) (MayCall-IsCalling n p m)
            (λ e k x. called p n e m k x) tc s t)
          (λ obs u h. (calling n, refl, h)))

  report_test-Post :
      (cfg : AgentConfig) (n : ℕ) (r : TestRun) (s : RunState W)
      → Within rt req limit (MayCall n) s
      → Post
          (λ o u. Within rt req limit (MayReflect n) u)
          (Ended rt req limit)
          (report_test rt req cfg n r s)
  unfolding report_test emit
  report_test-Post cfg n r s (p, m, t) =
      let e = test_event req n (parse_test_output r.output).0 (error_text rt req r.error) r in
      (
        tested n,
        refl,
        grown s.sent p e (tested n) (s.sent ++ e ∷ []) t (test p n e m (refl, refl)) (refl, refl)
            refl,
      )

  testing-Post :
      (cfg : AgentConfig) (n : ℕ) (done : Bool) (s : RunState W)
      → Within rt req limit (MayCall n) s
      → Post
          (λ o u. Within rt req limit (MayReflect n) u)
          (Ended rt req limit)
          (testing rt req cfg n done s)
  unfolding testing test_run
  testing-Post cfg n done s (p, m, t) =
      Post-if (Ended rt req limit) (λ o u. Within rt req limit (MayReflect n) u)
        (done && test_run_enabled cfg) (test_run rt req cfg >>= report_test rt req cfg n)
        (done_with none) s
        (λ e.
          Post-bound (Ended rt req limit) (λ r u. Within rt req limit (MayCall n) u)
            (λ o u. Within rt req limit (MayReflect n) u) (test_run rt req cfg s)
            (report_test rt req cfg n) (p, m, t) (report_test-Post cfg n))
        (λ e. (p, MayCall-MayReflect n p m, t))

  -- A step that is stopped by its reflection, and one that is not.
  abbrev pub Judged : ℕ → Bool → RunState W → Type 0
  Judged n true u = At rt req limit (reflected n) u
  Judged n false u = Within rt req limit (Rests n) u

  judged :
      (n : ℕ) (forced : Bool) (u : RunState W) → At rt req limit (reflected n) u → Judged n forced u
  judged n true u t = t
  judged n false u t = (reflected n, (tt, refl, refl), t)

  judge-Post :
      (cfg : AgentConfig) (n : ℕ) (text : Text) (s : RunState W)
      → Within rt req limit (MayReflect n) s
      → Post (λ forced u. Judged n forced u) (Ended rt req limit) (judge rt req cfg n text s)
  unfolding judge emit
  judge-Post cfg n text s (p, m, t) =
      let critique = parse_critique rt.unmarshal text in
      let forced =
        critique_blocks_apply critique && should_block_on_critique (reflection_policy cfg) in
      let e = reflect_event req text critique n in
      Post-if (Ended rt req limit) (λ b u. Judged n b u) (is_blank text) (done_with false)
        (emit e >> done_with forced) s (λ q. (p, MayReflect-Rests n p m, t))
        (λ q.
          judged n forced (record s { sent = s.sent ++ e ∷ [] })
            (grown s.sent p e (reflected n) (s.sent ++ e ∷ []) t (reflection p n e m (refl, refl))
              (refl, refl) refl))

  reflecting-Post :
      (a : Agent P) (n : ℕ) (resp : Response) (obs : List ToolObservation)
      (o : Option TestObservation) (s : RunState W)
      → Within rt req limit (MayReflect n) s
      → Post
          (λ forced u. Judged n forced u)
          (Ended rt req limit)
          (reflecting rt req a n resp obs o s)
  unfolding reflecting
  reflecting-Post a n resp obs o s (p, m, t) =
      let role = codes "critic" in
      let override = first_non_empty (req.critic_model ∷ req.model ∷ []) in
      let diff =
        if a.cfg.enable_self_diff
        then compute_self_diff resp.previous_assistant resp.message.content
        else [] in
      let info : ReflectionContext = record { tools = obs; test = o; self_diff = diff } in
      let call = λ (m : Text). reflect rt.chat rt.stamp a (agent_request rt req m []) resp info in
      let asked = ask_model rt req role override (λ m. consult rt (call m)) in
      Post-if (Ended rt req limit) (λ forced u. Judged n forced u) a.cfg.enable_reflect
        (asked >>= judge rt req a.cfg n) (done_with false) s
        (λ e.
          Post-bound (Ended rt req limit) (λ text u. At rt req limit p u)
            (λ forced u. Judged n forced u) (asked s) (judge rt req a.cfg n)
            (ask_model-Quiet rt req limit role call p (MayReflect-Rests n p m).0 override s t)
            (λ text u h. judge-Post a.cfg n text u (p, m, h)))
        (λ e. (p, MayReflect-Rests n p m, t))

  finish-Post :
      {A : Type 0} (Q : A → RunState W → Type 0) (n : ℕ) (reason : Text) (p : Phase)
      (s : RunState W)
      → MayEnd n p
      → At rt req limit p s
      → Post Q (Ended rt req limit) (finish rt req reason n s)
  unfolding finish
  finish-Post Q n reason p s m t =
      let e = done_event req reason n in
      grown s.sent p e over (s.sent ++ e ∷ []) t (ends p n e m (refl, refl) refl) (refl, refl) refl

  conclude-Post :
      (n : ℕ) (reason : Text) (done forced : Bool) (s : RunState W)
      → Judged n forced s
      → Post
          (λ o u. Between rt req limit n u)
          (Ended rt req limit)
          (conclude rt req n reason done forced s)
  unfolding conclude emit
  conclude-Post n reason done true s t =
      let e = message_event req (codes "Run halted by reflection policy (blocked_by_reflect)") n in
      finish-Post (λ o u. Between rt req limit n u) n (codes "blocked_by_reflect") (halted n)
        (record s { sent = s.sent ++ e ∷ [] }) refl
        (grown s.sent (reflected n) e (halted n) (s.sent ++ e ∷ []) t (halt n e (refl, refl))
          (refl, refl) refl)
  conclude-Post n reason true false s (p, r, t) =
      finish-Post (λ o u. Between rt req limit n u) n reason p s r.2 t
  conclude-Post n reason false false s (p, r, t) = (p, r.0, r.1, t)

  pub one_step-Between :
      (a : Agent P) (files : List ContextFile) (n : ℕ) (earlier : List ToolObservation)
      (s : RunState W)
      → n < limit
      → Between rt req limit n s
      → Post
          (λ o u. Between rt req limit (suc n) u)
          (Ended rt req limit)
          (one_step rt req a files (suc n) earlier s)
  one_step-Between a files n earlier s l b =
      let k = suc n in
      one_step-Post rt req (Ended rt req limit) a files k
        (λ r. At rt req limit (speaking k 0 (fields r.message.content)))
        (λ u. (j : ℕ) × At rt req limit (speaking k j []) u) (Within rt req limit (MayCall k))
        (Within rt req limit (MayReflect k)) (Judged k) (Between rt req limit k) earlier s
        (respond-Post a files n s l b)
        (λ r. send_tokens-Post rt req limit k 0 (fields r.message.content))
        (λ c u (j, t). (speaking k j [], refl, t)) (step_calls-Post k) (testing-Post a.cfg k)
        (reflecting-Post a k) (conclude-Post k)
