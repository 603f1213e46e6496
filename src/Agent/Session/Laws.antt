-- ===== src/Agent/Session/Laws.antt =====
-- How the operations on a session change what every session shows.
use animus_coder.Base.{
  ℕ, ◌+◌, ◌≡◌, refl, ◌∙◌, ◌≢◌, inl, inr, [], arith, if◌then◌else◌, Bool-cases, Text, text_eq,
  text_eq_refl, text_eq_iff, lookup-insert,
}
use animus_coder.Agent.Session.{
  Session, new_session, AgentState, session_at, update_session, ensure_named, ensure_session,
}

module _ {W : Type 0} where
  -- A write through a pointer is seen through that pointer, and through no other.
  pub session_at-update :
      (id j : Text) (f : Session → Session) (st : AgentState W)
      → session_at j (update_session id f st)
        ≡ (if text_eq id j then f (session_at id st) else session_at j st)
  unfolding session_at update_session
  session_at-update id j f st =
      ground (arith, lookup-insert id j (f (session_at id st)) st.sessions, text_eq_iff id j)

  ensure_named-session_at :
      (id j : Text) (st : AgentState W) → session_at j (ensure_named id st).1 ≡ session_at j st
  unfolding session_at ensure_named
  ensure_named-session_at id j st =
      ground (arith, lookup-insert id j (new_session id) st.sessions, text_eq_iff id j)

  -- Making sure of a session changes no session's content.
  pub ensure_session-session_at :
      (stamp : ℕ → Text) (id j : Text) (st : AgentState W)
      → session_at j (ensure_session stamp id st).1 ≡ session_at j st
  unfolding ensure_session
  ensure_session-session_at stamp id j st = elim (Bool-cases (text_eq id [])) [
    | inl e ↦
        rw e
          (ensure_named-session_at (stamp st.clock) j (record st { clock = st.clock + 1 }) ∙ same)
    | inr e ↦ rw e (ensure_named-session_at id j st)
  ]
    where
      same : session_at j (record st { clock = st.clock + 1 }) ≡ session_at j st
      same = unfold session_at in refl

  -- An id that is given is the session's id.
  pub ensure_session-id :
      (stamp : ℕ → Text) (id : Text) (st : AgentState W)
      → id ≢ []
      → (ensure_session stamp id st).0 ≡ id
  unfolding ensure_session ensure_named
  ensure_session-id stamp id st n = ground (arith, text_eq_iff id [])

  ensure_named_again :
      (id : Text) (st : AgentState W)
      → ensure_named id (ensure_named id st).1 ≡ (id, (ensure_named id st).1)
  unfolding ensure_named
  ensure_named_again id st =
      ground (arith, lookup-insert id id (new_session id) st.sessions, text_eq_iff id id)

  ensure_named_updated :
      (id : Text) (f : Session → Session) (st : AgentState W)
      → ensure_named id (update_session id f st) ≡ (id, update_session id f st)
  unfolding ensure_named update_session
  ensure_named_updated id f st =
      ground (arith, lookup-insert id id (f (session_at id st)) st.sessions, text_eq_refl id)

  pub ensure_session_updated :
      (stamp : ℕ → Text) (id : Text) (f : Session → Session) (st : AgentState W)
      → id ≢ []
      → ensure_session stamp id (update_session id f st) ≡ (id, update_session id f st)
  unfolding ensure_session
  ensure_session_updated stamp id f st n =
      ground (arith, text_eq_iff id [], ensure_named_updated id f st)

  pub ensure_session_again :
      (stamp : ℕ → Text) (id : Text) (st : AgentState W)
      → id ≢ []
      → ensure_session stamp id (ensure_session stamp id st).1
        ≡ (id, (ensure_session stamp id st).1)
  unfolding ensure_session
  ensure_session_again stamp id st n = ground (arith, text_eq_iff id [], ensure_named_again id st)
