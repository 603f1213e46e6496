-- ===== src/Agent/Turn/Reflect.antt =====
-- `Reflect`: what a reflection leaves in its session.
use animus_coder.Base.{
  ℕ, ◌≡◌, refl, sym, ◌∙◌, subst, ◌≢◌, inl, inr, true, [], ◌∷◌, ◌++◌, arith, if◌then◌else◌,
  Bool-cases, Text, codes, text_eq, text_eq_refl, text_eq_iff, trim_space, is_blank, Result, ok,
  err, Result-cases,
}
use animus_coder.Llm.Registry.{resolve}
use animus_coder.Agent.Types.{ChatResponse, Request, Response, ReflectionContext, assistant}
use animus_coder.Agent.Session.{
  Session, AgentState, session_at, update_session, ensure_session, set_reflection,
  append_reflection,
}
use animus_coder.Agent.Session.Laws.{
  session_at-update, ensure_session-session_at, ensure_session-id,
}
use animus_coder.Agent.Turn.{
  AgentError, Chat, Agent, call_chat, reflected, reflect_request, ask_reflection, reflect,
}
use animus_coder.Agent.Turn.Plan.{call_chat-session_at}

-- The session with a reflection noted and told.
abbrev pub noted : Text → Session → Session
noted reflection s = record s {
  history =
      s.history ++ record { role = assistant; content = codes "Reflection: " ++ reflection } ∷ [];
  last_reflection = reflection;
}

-- What a reflection returns, whichever way it ends.
abbrev pub ReflectionEnds :
    {W : Type 0} → Text → AgentState W → Result AgentError Text × AgentState W → Type 0
ReflectionEnds id st (err e, st') = (j : Text) → session_at j st' ≡ session_at j st
ReflectionEnds id st (ok reflection, st') =
    (j : Text)
    → session_at j st'
      ≡ (if text_eq id j then noted reflection (session_at id st) else session_at j st)

module _ {W : Type 0} where
  ReflectionEnds-from :
      (id : Text) (st st0 : AgentState W) (r : Result AgentError Text) (st' : AgentState W)
      → ((j : Text) → session_at j st0 ≡ session_at j st)
      → ReflectionEnds id st0 (r, st')
      → ReflectionEnds id st (r, st')
  ReflectionEnds-from id st st0 (err e) st' same ends = λ j. ends j ∙ same j
  ReflectionEnds-from id st st0 (ok r) st' same ends = λ j. rw (← same j, ← same id) (ends j)

module _ {P W : Type 0} (chat : Chat P W) (stamp : ℕ → Text) (a : Agent P) where
  reflected-ReflectionEnds :
      (id : Text) (r : Result Text ChatResponse) (st : AgentState W)
      → ReflectionEnds id st (reflected chat stamp a id (r, st))
  unfolding reflected set_reflection append_reflection
  reflected-ReflectionEnds id (err e) st = λ j. refl
  reflected-ReflectionEnds id (ok resp) st =
      let text = trim_space resp.message.content in
      let f : Session → Session = λ s. record s { last_reflection = text } in
      let g : Session → Session = λ s. record s {
        history =
            s.history ++ record { role = assistant; content = codes "Reflection: " ++ text } ∷ [];
      } in
      λ j. ground (
        arith,
        text_eq_iff id j,
        text_eq_refl id,
        session_at-update id j g (update_session id f st),
        session_at-update id j f st,
        session_at-update id id f st,
      )

  ask_reflection-ReflectionEnds :
      (req : Request) (last : Response) (info : ReflectionContext) (id : Text) (st : AgentState W)
      → ReflectionEnds id st (ask_reflection chat stamp a req last info id st)
  unfolding ask_reflection
  ask_reflection-ReflectionEnds req last info id st =
      elim (Result-cases (resolve a.registry req.model)) [
        | inr (e, q) ↦ rw (q, ask_reflection) (λ j. refl)
        | inl ((p, route), q) ↦
            let chat_req =
              reflect_request chat stamp a req last info (session_at id st).plan route in
            let c = call_chat chat stamp a p chat_req st in
            let result = reflected chat stamp a id c in
            let asked : ask_reflection chat stamp a req last info id st ≡ result = ground arith in
            subst (ReflectionEnds id st) (sym asked) (
              ReflectionEnds-from id st c.1 result.0 result.1
                (call_chat-session_at chat stamp a p chat_req st)
                (reflected-ReflectionEnds id c.0 c.1))
      ]

  -- With reflection on and a session id: a reflection that succeeds is appended to its session's
  -- history as an assistant message and kept as the last reflection, and nothing else of any session
  -- changes; one that fails changes no session.
  pub reflect-ReflectionEnds :
      (req : Request) (last : Response) (info : ReflectionContext) (st : AgentState W)
      → a.cfg.enable_reflect ≡ true
      → req.session_id ≢ []
      → ReflectionEnds req.session_id st (reflect chat stamp a req last info st)
  unfolding reflect
  reflect-ReflectionEnds req last info st on n =
      let (id, st') = ensure_session stamp req.session_id st in
      let is_id : id ≡ req.session_id = ensure_session-id stamp req.session_id st n in
      elim (Bool-cases (is_blank last.message.content)) [
        | inl b ↦ rw (on, b, reflect) (λ j. refl)
        | inr b ↦
            let result = ask_reflection chat stamp a req last info id st' in
            let asked : reflect chat stamp a req last info st ≡ result = ground arith in
            subst (ReflectionEnds req.session_id st) (sym asked) (
              subst (λ i. ReflectionEnds i st result) is_id
                (ReflectionEnds-from id st st' result.0 result.1
                  (λ j. ensure_session-session_at stamp req.session_id j st)
                  (ask_reflection-ReflectionEnds req last info id st')))
      ]
