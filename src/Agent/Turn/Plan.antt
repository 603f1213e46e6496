-- ===== src/Agent/Turn/Plan.antt =====
-- `Plan`: the sessions after it, and a second call of it.
use animus_coder.Base.{
  ℕ, ◌≡◌, refl, sym, ◌∙◌, subst, ◌≢◌, inl, inr, true, false, [], arith, Bool-cases, Text, text_eq,
  text_eq_refl, text_eq_iff, trim_space, is_blank, Result, ok, err, Result-cases,
}
use animus_coder.Llm.Registry.{resolve}
use animus_coder.Agent.Types.{ChatRequest, ChatResponse, Request}
use animus_coder.Agent.Session.{AgentState, session_at, ensure_session, set_plan}
use animus_coder.Agent.Session.Laws.{
  session_at-update, ensure_session-session_at, ensure_session-id, ensure_session_updated,
  ensure_session_again,
}
use animus_coder.Agent.Turn.{Chat, Agent, call_chat, plan_request, planned, ask_plan, make_plan}

-- Every session shows the same history and the same reflection.
abbrev pub SameTalk : {W : Type 0} → AgentState W → AgentState W → Type 0
SameTalk st st' =
    (j : Text)
    → ((session_at j st').history ≡ (session_at j st).history)
      × ((session_at j st').last_reflection ≡ (session_at j st).last_reflection)

module _ {P W : Type 0} (chat : Chat P W) (stamp : ℕ → Text) (a : Agent P) where
  pub call_chat-session_at :
      (p : P) (req : ChatRequest) (st : AgentState W) (j : Text)
      → session_at j (call_chat chat stamp a p req st).1 ≡ session_at j st
  unfolding call_chat session_at
  call_chat-session_at p req st j = refl

  planned-SameTalk :
      (id : Text) (r : Result Text ChatResponse) (st : AgentState W)
      → SameTalk st (planned chat stamp a id (r, st)).1
  unfolding planned set_plan
  planned-SameTalk id (err e) st j = (refl, refl)
  planned-SameTalk id (ok resp) st j = ground (
    arith,
    text_eq_iff id j,
    session_at-update id j (λ s. record s { plan = trim_space resp.message.content }) st,
  )

  ask_plan-SameTalk :
      (req : Request) (id : Text) (st : AgentState W)
      → SameTalk st (ask_plan chat stamp a req id st).1
  unfolding ask_plan
  ask_plan-SameTalk req id st j = elim (Result-cases (resolve a.registry req.model)) [
    | inr (e, q) ↦ rw (q, ask_plan) (refl, refl)
    | inl ((p, route), q) ↦
        let c = call_chat chat stamp a p (plan_request chat stamp a req route) st in
        let same = call_chat-session_at p (plan_request chat stamp a req route) st j in
        rw (q, ask_plan) (ground (arith, same, planned-SameTalk id c.0 c.1 j))
  ]

  -- `Plan` leaves every history and every reflection as they were, whether it fails or not.
  pub make_plan-SameTalk :
      (req : Request) (st : AgentState W) → SameTalk st (make_plan chat stamp a req st).1
  unfolding make_plan
  make_plan-SameTalk req st j =
      let (id, st') = ensure_session stamp req.session_id st in
      ground
        (arith, ensure_session-session_at stamp req.session_id j st, ask_plan-SameTalk req id st' j)

  planned-plan :
      (id : Text) (r : Result Text ChatResponse) (st : AgentState W) (plan : Text)
      → (planned chat stamp a id (r, st)).0 ≡ ok plan
      → (planned chat stamp a id (r, st)).1 ≡ set_plan id plan st
  unfolding planned
  planned-plan id (err e) st plan h = cc
  planned-plan id (ok resp) st plan h = cc

  ask_plan-plan :
      (req : Request) (id : Text) (st : AgentState W) (plan : Text)
      → (ask_plan chat stamp a req id st).0 ≡ ok plan
      → (st0 : AgentState W) × ((ask_plan chat stamp a req id st).1 ≡ set_plan id plan st0)
  unfolding ask_plan
  ask_plan-plan req id st plan h = elim (Result-cases (resolve a.registry req.model)) [
    | inr (e, q) ↦ absurd (ground arith)
    | inl ((p, route), q) ↦
        let c = call_chat chat stamp a p (plan_request chat stamp a req route) st in
        (c.1, rw (q, ask_plan) (planned-plan id c.0 c.1 plan (ground arith)))
  ]

  make_plan_known :
      (req : Request) (st : AgentState W) (plan : Text)
      → a.cfg.enable_plan ≡ true
      → is_blank req.prompt ≡ false
      → req.session_id ≢ []
      → plan ≢ []
      → ensure_session stamp req.session_id st ≡ (req.session_id, st)
      → (session_at req.session_id st).plan ≡ plan
      → make_plan chat stamp a req st ≡ (ok plan, st)
  unfolding make_plan
  make_plan_known req st plan en b i n same known =
      ground (arith, text_eq_iff (session_at req.session_id st).plan [])

  -- The session is there and holds the plan.
  abbrev Holds : Text → Text → AgentState W → Type 0
  Holds id plan st = (ensure_session stamp id st ≡ (id, st)) × ((session_at id st).plan ≡ plan)

  set_plan-Holds :
      (id plan : Text) (st : AgentState W) → id ≢ [] → Holds id plan (set_plan id plan st)
  unfolding set_plan
  set_plan-Holds id plan st n = (
    ensure_session_updated stamp id (λ s. record s { plan = plan }) st n,
    ground (arith, text_eq_refl id, session_at-update id id (λ s. record s { plan = plan }) st),
  )

  make_plan-Holds :
      (req : Request) (st : AgentState W) (plan : Text)
      → a.cfg.enable_plan ≡ true
      → req.session_id ≢ []
      → (make_plan chat stamp a req st).0 ≡ ok plan
      → Holds req.session_id plan (make_plan chat stamp a req st).1
  unfolding make_plan
  make_plan-Holds req st plan en n h =
      let (id, st') = ensure_session stamp req.session_id st in
      let is_id = ensure_session-id stamp req.session_id st n in
      elim (Bool-cases (is_blank req.prompt)) [
        | inl e ↦ absurd (ground arith)
        | inr e ↦ elim (Bool-cases (text_eq (session_at id st').plan [])) [
          | inl q ↦
              let (st0, w) = ask_plan-plan req id st' plan (ground arith) in
              let after : (make_plan chat stamp a req st).1 ≡ set_plan req.session_id plan st0 =
                ground (arith, w) in
              subst (Holds req.session_id plan) (sym after)
                (set_plan-Holds req.session_id plan st0 n)
          | inr q ↦
              let after : (make_plan chat stamp a req st).1 ≡ st' = ground arith in
              let holds : (session_at req.session_id st').plan ≡ plan = ground arith in
              subst (Holds req.session_id plan) (sym after)
                (ensure_session_again stamp req.session_id st n, holds)
        ]
      ]

  -- In a session with an id, a plan that `Plan` has returned and that is not empty is kept: a second
  -- call with any prompt that is not blank returns it again, calls no model and changes nothing.
  pub make_plan_again :
      (req req' : Request) (st : AgentState W) (plan : Text)
      → a.cfg.enable_plan ≡ true
      → is_blank req'.prompt ≡ false
      → req.session_id ≢ []
      → req'.session_id ≡ req.session_id
      → plan ≢ []
      → (make_plan chat stamp a req st).0 ≡ ok plan
      → make_plan chat stamp a req' (make_plan chat stamp a req st).1
        ≡ (ok plan, (make_plan chat stamp a req st).1)
  make_plan_again req req' st plan en b i same n h =
      let st' = (make_plan chat stamp a req st).1 in
      let (there, holds) = make_plan-Holds req st plan en i h in
      make_plan_known req' st' plan en b (λ e. i (sym same ∙ e)) n (rw same there) (rw same holds)
