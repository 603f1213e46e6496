-- ===== src/Agent/Session.antt =====
-- internal/agent/agent.go: the sessions of the agent. A *Session is the key of a session that is in
-- the map and stays in it; reading a field through it reads the map. The clock gives the ids of
-- sessions without one: `stamp` is the text of a clock reading, and each reading moves the clock on.
pub mod Laws
use animus_coder.Base.{
  ℕ, ◌+◌, Bool, true, false, none, some, List, [], ◌∷◌, ◌++◌, if◌then◌else◌, Text, codes, text_eq,
  Dict, lookup, insert, ok,
}
use mathlib.Core.List.{reverse}
use animus_coder.Agent.Types.{Role, assistant, ChatMessage}

pub record Session : Type 0 where
  pub id : Text
  pub history : List ChatMessage
  pub plan : Text
  pub last_reflection : Text

abbrev pub new_session : Text → Session
new_session id = record { id = id; history = []; plan = []; last_reflection = [] }

-- The part of the agent that changes; `world` is where the providers live.
pub record AgentState (W : Type 0) : Type 0 where
  pub sessions : Dict Session
  pub clock : ℕ
  pub world : W

module _ {W : Type 0} where
  -- `a.sessions[id]` behind a pointer that `ensureSession` returned.
  unfoldable pub session_at : Text → AgentState W → Session
  session_at id st = elim (lookup id st.sessions) [ none ↦ new_session id | some s ↦ s ]

  unfoldable pub update_session : Text → (Session → Session) → AgentState W → AgentState W
  unfolding session_at
  update_session id f st = record st { sessions = insert id (f (session_at id st)) st.sessions }

  -- The session of an id that is not empty.
  unfoldable pub ensure_named : Text → AgentState W → Text × AgentState W
  ensure_named id st = elim (lookup id st.sessions) [
    | some s ↦ (id, st)
    | none ↦ (id, record st { sessions = insert id (new_session id) st.sessions })
  ]

  unfoldable pub ensure_session : (ℕ → Text) → Text → AgentState W → Text × AgentState W
  ensure_session stamp id st =
      if text_eq id []
      then ensure_named (stamp st.clock) (record st { clock = st.clock + 1 })
      else ensure_named id st

  unfoldable pub append_history : Text → ChatMessage → ChatMessage → AgentState W → AgentState W
  append_history id user_msg assistant_msg =
      update_session id (λ s. record s { history = s.history ++ (user_msg ∷ assistant_msg ∷ []) })

  unfoldable pub set_plan : Text → Text → AgentState W → AgentState W
  set_plan id plan = update_session id (λ s. record s { plan = plan })

  unfoldable pub set_reflection : Text → Text → AgentState W → AgentState W
  set_reflection id reflection = update_session id (λ s. record s { last_reflection = reflection })

  unfoldable pub append_reflection : Text → Text → AgentState W → AgentState W
  append_reflection id reflection = update_session id (λ s. record s {
    history =
        s.history ++ record { role = assistant; content = codes "Reflection: " ++ reflection } ∷ [];
  })

-- The loop of `lastAssistantContent` from the newest message to the oldest.
is_assistant : Role → Bool
is_assistant assistant = true
is_assistant _ = false

newest : List ChatMessage → Text
newest [] = []
newest (m ∷ older) = if is_assistant m.role then m.content else newest older

unfoldable pub last_assistant_content : Session → Text
unfolding newest is_assistant
last_assistant_content s = newest (reverse s.history)
