-- ===== src/Agent/Turn/Run.antt =====
-- `Run`: the histories after a turn.
use animus_coder.Base.{
  ℕ, ◌≡◌, refl, sym, ap, ◌∙◌, subst, ◌≢◌, inl, inr, [], ◌∷◌, ◌++◌, arith, if◌then◌else◌, Bool-cases,
  Text, text_eq, text_eq_iff, Result, ok, err, Result-cases,
}
use animus_coder.Llm.Registry.{ModelRoute, resolve}
use animus_coder.Agent.Types.{ChatMessage, ChatResponse, Request, Response, user}
use animus_coder.Agent.Prompt.{build_user_prompt}
use animus_coder.Agent.Session.{
  Session, AgentState, session_at, ensure_session, append_history, last_assistant_content,
}
use animus_coder.Agent.Session.Laws.{
  session_at-update, ensure_session-session_at, ensure_session-id,
}
use animus_coder.Agent.Turn.{
  AgentError, Chat, Agent, call_chat, chat_request, run_messages, answered, converse, after_plan,
  make_plan, run_turn,
}
use animus_coder.Agent.Turn.Plan.{call_chat-session_at, make_plan-SameTalk}

-- The message that a request sends as the user's.
abbrev pub user_message : Request → ChatMessage
user_message req = record { role = user; content = build_user_prompt req.prompt req.context }

-- The session has one more exchange, and every other session shows the same history.
abbrev pub Extends : {W : Type 0} → Text → Request → Response → AgentState W → AgentState W → Type 0
Extends id req resp st st' =
    (j : Text)
    → (session_at j st').history ≡ (
        if text_eq id j
        then (session_at id st).history ++ (user_message req ∷ resp.message ∷ [])
        else (session_at j st).history)

abbrev pub SameHistory : {W : Type 0} → AgentState W → AgentState W → Type 0
SameHistory st st' = (j : Text) → (session_at j st').history ≡ (session_at j st).history

-- What a turn returns, whichever way it ends.
abbrev pub TurnEnds :
    {W : Type 0}
    → Text
    → Request
    → AgentState W
    → Result AgentError Response × AgentState W
    → Type 0
TurnEnds id req st (err e, st') = SameHistory st st'
TurnEnds id req st (ok resp, st') =
    Extends id req resp st st'
    × (resp.previous_assistant ≡ last_assistant_content (session_at id st))

same_content :
    (s s' : Session) → s.history ≡ s'.history → last_assistant_content s ≡ last_assistant_content s'
unfolding last_assistant_content
same_content s s' e = rw e

-- A turn may be read from any state with the same histories.
TurnEnds-from :
    {W : Type 0} (id : Text) (req : Request) (st st0 : AgentState W)
    (r : Result AgentError Response) (st' : AgentState W)
    → SameHistory st st0
    → TurnEnds id req st0 (r, st')
    → TurnEnds id req st (r, st')
TurnEnds-from id req st st0 (err e) st' same ends = λ j. ends j ∙ same j
TurnEnds-from id req st st0 (ok resp) st' same (grows, previous) = (
  λ j. ground (arith, grows j, same j, same id),
  previous ∙ same_content (session_at id st0) (session_at id st) (same id),
)

module _ {P W : Type 0} (chat : Chat P W) (stamp : ℕ → Text) (a : Agent P) where
  answered-TurnEnds :
      (id : Text) (route : ModelRoute) (req : Request) (previous : Text)
      (r : Result Text ChatResponse) (st : AgentState W)
      → previous ≡ last_assistant_content (session_at id st)
      → TurnEnds id req st (answered chat stamp a id route (user_message req) previous (r, st))
  unfolding answered append_history
  answered-TurnEnds id route req previous (err e) st p = λ j. refl
  answered-TurnEnds id route req previous (ok resp) st p = (
    λ j. ground (
      arith,
      text_eq_iff id j,
      session_at-update id j
          (λ s. record s { history = s.history ++ (user_message req ∷ resp.message ∷ []) }) st,
    ),
    p,
  )

  converse-TurnEnds :
      (p : P) (route : ModelRoute) (req : Request) (st : AgentState W)
      → req.session_id ≢ []
      → TurnEnds req.session_id req st (converse chat stamp a p route req st)
  unfolding converse
  converse-TurnEnds p route req st n =
      let (id, st') = ensure_session stamp req.session_id st in
      let is_id : id ≡ req.session_id = ensure_session-id stamp req.session_id st n in
      let s = session_at id st' in
      let chat_req = chat_request a.cfg route (run_messages s (user_message req)) in
      let c = call_chat chat stamp a p chat_req st' in
      let same : SameHistory st c.1 = λ j.
        ap (λ (x : Session). x.history)
          (call_chat-session_at chat stamp a p chat_req st' j
            ∙ ensure_session-session_at stamp req.session_id j st) in
      let before : last_assistant_content s ≡ last_assistant_content (session_at id c.1) =
        ap last_assistant_content (sym (call_chat-session_at chat stamp a p chat_req st' id)) in
      let result = answered chat stamp a id route (user_message req) (last_assistant_content s) c in
      let ends = answered-TurnEnds id route req (last_assistant_content s) c.0 c.1 before in
      subst (λ i. TurnEnds i req st result) is_id
        (TurnEnds-from id req st c.1 result.0 result.1 same ends)

  after_plan-TurnEnds :
      (p : P) (route : ModelRoute) (req : Request) (st : AgentState W) (r : Result AgentError Text)
      (st0 : AgentState W)
      → req.session_id ≢ []
      → SameHistory st st0
      → TurnEnds req.session_id req st (after_plan chat stamp a p route req (r, st0))
  unfolding after_plan
  after_plan-TurnEnds p route req st (err e) st0 n same = same
  after_plan-TurnEnds p route req st (ok plan) st0 n same =
      let result = converse chat stamp a p route req st0 in
      TurnEnds-from req.session_id req st st0 result.0 result.1 same
        (converse-TurnEnds p route req st0 n)

  -- A request with a session id. If the turn succeeds, its session's history has grown by the user's
  -- message and the answer, no other history has changed, and the turn reports the assistant message
  -- that was the newest before; if it fails, at whatever point, no history has changed.
  pub run_turn-TurnEnds :
      (req : Request) (st : AgentState W)
      → req.session_id ≢ []
      → TurnEnds req.session_id req st (run_turn chat stamp a req st)
  unfolding run_turn
  run_turn-TurnEnds req st n =
      let ends = TurnEnds req.session_id req st in
      elim (Bool-cases (text_eq req.prompt [])) [
        | inl e ↦ rw (e, run_turn) (λ j. refl)
        | inr e ↦ elim (Result-cases (resolve a.registry req.model)) [
          | inr (x, q) ↦ rw (e, q, run_turn) (λ j. refl)
          | inl ((p, route), q) ↦ elim (Bool-cases a.cfg.enable_plan) [
            | inr b ↦
                let plain : run_turn chat stamp a req st ≡ converse chat stamp a p route req st =
                  ground arith in
                subst ends (sym plain) (converse-TurnEnds p route req st n)
            | inl b ↦
                let m = make_plan chat stamp a req st in
                let planned : run_turn chat stamp a req st ≡ after_plan chat stamp a p route req m =
                  ground arith in
                subst ends (sym planned) (
                  after_plan-TurnEnds p route req st m.0 m.1 n
                    (λ j. (make_plan-SameTalk chat stamp a req st j).0))
          ]
        ]
      ]
