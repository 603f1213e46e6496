-- ===== src/Runner/Run/Rules.antt =====
-- What a step, the loop and a whole run establish, from what their parts do: a rule for each of the
-- chains of `Run`.
use animus_coder.Base.{
  ℕ, zero, suc, ◌+◌, ◌<◌, ◌≡◌, subst, Bool, Option, List, [], ◌++◌, arith, length, Text, codes,
  fields, Result,
}
use animus_coder.Agent.Types.{Response, ContextFile, ToolObservation, TestObservation}
use animus_coder.Agent.Turn.{Agent, max_steps, max_context_bytes}
use animus_coder.Runner.Context.Files.{ContextError, build_context_files}
use animus_coder.Runner.Critique.{is_response_done}
use animus_coder.Runner.ToolCalls.{extract_tool_calls}
use animus_coder.Runner.Events.{ToolCall, RunTaskRequest}
use animus_coder.Runner.Stage.{Ending, RunState, Runtime, ◌>>=◌, ◌>>◌, poll, finish}
use animus_coder.Runner.Stage.Rules.{Post, Post-bound}
use animus_coder.Runner.Actions.{
  respond, send_tokens, count_tokens, call_tools_of, testing, reflecting, conclude, planning,
}
use animus_coder.Runner.Run.{one_step, halt_if, steps, or_error, contexts, run_with}

-- A stage after which nothing can go on.
abbrev pub Never : {W : Type 0} → ⊥ → RunState W → Type 0
Never a s = Unit {0}

module _ {P W : Type 0} (rt : Runtime P W) (req : RunTaskRequest) (E : Ending → RunState W → Type 0)
    (a : Agent P) (files : List ContextFile) where
  -- From phase to phase through a step.
  module _ (k : ℕ) (Spoken : Response → RunState W → Type 0)
      (Said Called Tested : RunState W → Type 0) (Judged : Bool → RunState W → Type 0)
      (Next : RunState W → Type 0) where
    pub one_step-Post :
        (earlier : List ToolObservation) (s : RunState W)
        → Post (λ r u. Spoken r u) E (respond rt req a files k s)
        → ((r : Response) (u : RunState W)
            → Spoken r u
            → Post (λ o v. Said v) E (send_tokens rt req k 0 (fields r.message.content) u))
        → ((n : ℕ) (u : RunState W) → Said u → Called (record u { token_count = n }))
        → ((tcs : List ToolCall) (u : RunState W)
            → Called u
            → Post (λ obs v. Called v) E (call_tools_of rt req tcs u))
        → ((done : Bool) (u : RunState W)
            → Called u
            → Post (λ o v. Tested v) E (testing rt req a.cfg k done u))
        → ((r : Response) (obs : List ToolObservation) (o : Option TestObservation) (u : RunState W)
            → Tested u
            → Post (λ forced v. Judged forced v) E (reflecting rt req a k r obs o u))
        → ((reason : Text) (done forced : Bool) (u : RunState W)
            → Judged forced u
            → Post (λ o v. Next v) E (conclude rt req k reason done forced u))
        → Post (λ o u. Next u) E (one_step rt req a files k earlier s)
    unfolding one_step count_tokens
    one_step-Post earlier s responds sends counts calls tests reflects concludes =
        let words = λ (r : Response). fields r.message.content in
        let tcs = λ (r : Response). extract_tool_calls rt.decoder r.message.content in
        let done = λ (r : Response). is_response_done r in
        let finally =
          λ (r : Response) (forced : Bool). conclude rt req k r.finish_reason (done r) forced in
        let critic = λ (r : Response) (obs : List ToolObservation) (o : Option TestObservation).
          reflecting rt req a k r (earlier ++ obs) o >>= finally r in
        let tester = λ (r : Response) (obs : List ToolObservation).
          testing rt req a.cfg k (done r) >>= critic r obs in
        let caller = λ (r : Response). call_tools_of rt req (tcs r) >>= tester r in
        let Goal = λ (o : Unit {0}) (u : RunState W). Next u in
        Post-bound E (λ r u. Spoken r u) Goal (respond rt req a files k s)
          (λ r.
            send_tokens rt req k 0 (words r)
            >> (count_tokens rt req (length (words r)) >> caller r))
          responds
          (λ r u t.
            Post-bound E (λ o v. Said v) Goal (send_tokens rt req k 0 (words r) u)
              (λ o. count_tokens rt req (length (words r)) >> caller r) (sends r u t)
              (λ o v t'.
                let n = v.token_count + length (words r) in
                let v' = record v { token_count = n } in
                Post-bound E (λ obs w. Called w) Goal (call_tools_of rt req (tcs r) v') (tester r)
                  (calls (tcs r) v' (counts n v t'))
                  (λ obs w h.
                    Post-bound E (λ o' x. Tested x) Goal (testing rt req a.cfg k (done r) w)
                      (critic r obs) (tests (done r) w h)
                      (λ o' x h'.
                        Post-bound E (λ forced y. Judged forced y) Goal
                          (reflecting rt req a k r (earlier ++ obs) o' x) (finally r)
                          (reflects r (earlier ++ obs) o' x h')
                          (concludes r.finish_reason (done r))))))

  -- The invariant of the loop, for the number of steps done.
  module _ (B : ℕ → RunState W → Type 0)
      (polls : (n k : ℕ) (s : RunState W) → B n s → B n (record s { polls = k }))
      (halts : (c : Bool) (n : ℕ) (s : RunState W)
        → B n s
        → Post (λ o u. B n u) E (halt_if rt req c s))
      (step : (n : ℕ) (earlier : List ToolObservation) (s : RunState W)
        → n < max_steps a.cfg
        → B n s
        → Post (λ o u. B (suc n) u) E (one_step rt req a files (suc n) earlier s))
      (ends : (s : RunState W)
        → B (max_steps a.cfg) s
        → Post Never E (finish rt {A = ⊥} req (codes "max_steps") (max_steps a.cfg) s)) where
    pub steps-Post :
        (rounds n : ℕ) (earlier : List ToolObservation) (s : RunState W)
        → n + rounds ≡ max_steps a.cfg
        → B n s
        → Post Never E (steps rt req a files rounds (suc n) earlier s)
    unfolding steps poll
    steps-Post zero n earlier s l b =
        let all : n ≡ max_steps a.cfg = omega arith in ends s (subst (λ m. B m s) all b)
    steps-Post (suc rounds) n earlier s l b =
        let next = steps rt req a files rounds (suc (suc n)) [] in
        let body = one_step rt req a files (suc n) earlier in
        let s' = record s { polls = s.polls + 1 } in
        Post-bound E (λ o u. B n u) Never (halt_if rt req (rt.cancelled s.polls) s')
          (λ o. body >> next) (halts (rt.cancelled s.polls) n s' (polls n (s.polls + 1) s b))
          (λ o u h.
            Post-bound E (λ o' v. B (suc n) v) Never (body u) (λ o'. next)
              (step n earlier u (omega arith) h)
              (λ o' v h'. steps-Post rounds (suc n) [] v (omega arith) h'))

module _ {P W : Type 0} (rt : Runtime P W) (req : RunTaskRequest) (E : Ending → RunState W → Type 0)
    (a : Agent P) (Opening Ready : RunState W → Type 0) where
  pub run_with-Post :
      (s : RunState W)
      → ((r : Result ContextError (List ContextFile))
          → Post (λ files u. Opening u) E (or_error rt req r s))
      → ((tcs : List ToolCall) (u : RunState W)
          → Opening u
          → Post (λ obs v. Opening v) E (call_tools_of rt req tcs u))
      → ((files : List ContextFile) (u : RunState W)
          → Opening u
          → Post (λ o v. Ready v) E (planning rt req a files u))
      → ((files : List ContextFile) (earlier : List ToolObservation) (u : RunState W)
          → Ready u
          → Post Never E (steps rt req a files (max_steps a.cfg) 1 earlier u))
      → Post Never E (run_with rt req a s)
  unfolding run_with contexts
  run_with-Post s builds calls plans loops =
      let built =
        build_context_files s.tools.registry req.prompt req.context_paths (max_context_bytes a.cfg)
          s.tools.disk in
      let loop = λ (files : List ContextFile) (earlier : List ToolObservation).
        steps rt req a files (max_steps a.cfg) 1 earlier in
      let rest = λ (files : List ContextFile) (earlier : List ToolObservation).
        planning rt req a files >> loop files earlier in
      Post-bound E (λ files u. Opening u) Never (or_error rt req built s)
        (λ files. call_tools_of rt req req.tools >>= rest files) (builds built)
        (λ files u h.
          Post-bound E (λ obs v. Opening v) Never (call_tools_of rt req req.tools u) (rest files)
            (calls req.tools u h)
            (λ earlier v h'.
              Post-bound E (λ o w. Ready w) Never (planning rt req a files v)
                (λ o. loop files earlier) (plans files v h') (λ o w. loops files earlier w)))
