-- ===== src/Runner/Run/Last.antt =====
-- What a client learns from the protocol: which event is the last one, and how many steps there are.
use animus_coder.Base.{
  ℕ, ◌≤◌, ◌≡◌, refl, sym, ◌∙◌, subst, ◌≢◌, ◌⊎◌, inl, inr, false, List, [], ◌∷◌, ◌++◌, arith, All,
  All-append, Text, codes, text_eq, text_eq→ne, err,
}
use animus_coder.Runner.Events.{RunTaskRequest, RunTaskEvent}
use animus_coder.Runner.Stage.{closed, RunState, Runtime, with_correlation}
use animus_coder.Runner.Run.{run_agent}
use animus_coder.Runner.Run.Protocol.{
  Phase, Wording, wording_of, IsIdle-IsOpen, MayFail-IsOpen, opening, planned, over, speaking,
  calling, tested, reflected, halted, steps_of, IsOpen, IsCalling, MayCall, MayReflect, MayEnd,
  Event, Move, requested, plan, message, token, called, test, reflection, halt, ends, exhausted,
  fails, tool_fails, Trace, empty, grown,
}
use animus_coder.Runner.Run.Refines.{limit_of, run_agent-IsTraced}

-- An event that does not end a stream, and whose step the limit allows.
abbrev pub IsBody : ℕ → RunTaskEvent → Type 0
IsBody limit e =
    (e.kind ≢ codes "done") × (e.kind ≢ codes "error") × (e.kind ≡ codes "message" → e.step ≤ limit)

abbrev pub IsLast : RunTaskEvent → Type 0
IsLast e = (e.kind ≡ codes "done") ⊎ ((e.kind ≡ codes "error") ⊎ (e.kind ≡ codes "tool"))

apart : (k l : Text) (e : RunTaskEvent) → text_eq k l ≡ false → e.kind ≡ k → e.kind ≢ l
apart k l e n h m = text_eq→ne k l n (sym h ∙ m)

-- An event of a kind that is none of the three.
quiet :
    (limit : ℕ) (k : Text) (e : RunTaskEvent)
    → text_eq k (codes "done") ≡ false
    → text_eq k (codes "error") ≡ false
    → text_eq k (codes "message") ≡ false
    → e.kind ≡ k
    → IsBody limit e
quiet limit k e d x m h = (
  apart k (codes "done") e d h,
  apart k (codes "error") e x h,
  λ p. absurd (apart k (codes "message") e m h p),
)

loud : (limit n : ℕ) (e : RunTaskEvent) → n ≤ limit → Event "message" n e → IsBody limit e
loud limit n e l (k, s) = (
  apart (codes "message") (codes "done") e (unfold text_eq in refl) k,
  apart (codes "message") (codes "error") e (unfold text_eq in refl) k,
  λ p. subst (λ m. m ≤ limit) (sym s) l,
)

IsOpen-ne : (p : Phase) → IsOpen p → p ≢ over
IsOpen-ne p o e = subst IsOpen e o

IsCalling-ne : (p : Phase) → IsCalling p → p ≢ over
IsCalling-ne p o e = subst IsCalling e o

MayCall-ne : (n : ℕ) (p : Phase) → MayCall n p → p ≢ over
MayCall-ne n p o e = subst (MayCall n) e o

MayReflect-ne : (n : ℕ) (p : Phase) → MayReflect n p → p ≢ over
MayReflect-ne n p o e = subst (MayReflect n) e o

MayEnd-ne : (n : ℕ) (p : Phase) → MayEnd n p → p ≢ over
MayEnd-ne n p o e = subst (MayEnd n) e o

MayCall-steps : (n : ℕ) (p : Phase) → MayCall n p → steps_of p ≡ n
MayCall-steps n (speaking k i []) h = h
MayCall-steps n (speaking k i (word ∷ words)) h = absurd h
MayCall-steps n (calling k) h = h
MayCall-steps n opening h = absurd h
MayCall-steps n planned h = absurd h
MayCall-steps n over h = absurd h
MayCall-steps n (tested k) h = absurd h
MayCall-steps n (reflected k) h = absurd h
MayCall-steps n (halted k) h = absurd h

MayReflect-steps : (n : ℕ) (p : Phase) → MayReflect n p → steps_of p ≡ n
MayReflect-steps n (speaking k i []) h = h
MayReflect-steps n (speaking k i (word ∷ words)) h = absurd h
MayReflect-steps n (calling k) h = h
MayReflect-steps n (tested k) h = h
MayReflect-steps n opening h = absurd h
MayReflect-steps n planned h = absurd h
MayReflect-steps n over h = absurd h
MayReflect-steps n (reflected k) h = absurd h
MayReflect-steps n (halted k) h = absurd h

-- One event has ended the stream, and it is the last.
abbrev pub IsEnded : ℕ → List RunTaskEvent → Type 0
IsEnded limit es =
    (body : List RunTaskEvent) × (last : RunTaskEvent) × (es ≡ body ++ last ∷ [])
    × All (IsBody limit) body
    × IsLast last

module _ (w : Wording) (limit : ℕ) where
  -- No move starts where the protocol is over.
  Move-source : {p : Phase} {e : RunTaskEvent} {q : Phase} → Move w limit p e q → p ≢ over
  Move-source (requested e k x) s = cc
  Move-source (plan e k) s = cc
  Move-source (message p n e o c l k) s = IsOpen-ne p (IsIdle-IsOpen p o) s
  Move-source (token n i word words e k t) s = cc
  Move-source (called p n e m k x) s = MayCall-ne n p m s
  Move-source (test p n e m k) s = MayCall-ne n p m s
  Move-source (reflection p n e m k) s = MayReflect-ne n p m s
  Move-source (halt n e k) s = cc
  Move-source (ends p n e m k d) s = MayEnd-ne n p m s
  Move-source (exhausted p e o c k d r) s = IsOpen-ne p (IsIdle-IsOpen p o) s
  Move-source (fails p e y o k x) s = IsOpen-ne p (MayFail-IsOpen y p o) s
  Move-source (tool_fails p e y o k x z) s = IsCalling-ne p o s

  -- What a move makes of the steps begun, and which event it is for.
  Move-event :
      {p : Phase} {e : RunTaskEvent} {q : Phase}
      → Move w limit p e q
      → steps_of p ≤ limit
      → (steps_of q ≤ limit) × (((q ≡ over) × IsLast e) ⊎ ((q ≢ over) × IsBody limit e))
  unfolding text_eq
  Move-event (requested e k x) s =
      (s, inr (λ h. cc, quiet limit (codes "tool") e refl refl refl k.0))
  Move-event (plan e k) s = (s, inr (λ h. cc, quiet limit (codes "plan") e refl refl refl k.0))
  Move-event (message p n e o c l k) s = (l, inr (λ h. cc, loud limit n e l k))
  Move-event (token n i word words e k t) s =
      (s, inr (λ h. cc, quiet limit (codes "token") e refl refl refl k.0))
  Move-event (called p n e m k x) s = (
    omega (arith, MayCall-steps n p m),
    inr (λ h. cc, quiet limit (codes "tool") e refl refl refl k.0),
  )
  Move-event (test p n e m k) s = (
    omega (arith, MayCall-steps n p m),
    inr (λ h. cc, quiet limit (codes "test") e refl refl refl k.0),
  )
  Move-event (reflection p n e m k) s = (
    omega (arith, MayReflect-steps n p m),
    inr (λ h. cc, quiet limit (codes "reflect") e refl refl refl k.0),
  )
  Move-event (halt n e k) s = (s, inr (λ h. cc, loud limit n e s k))
  Move-event (ends p n e m k d) s = (omega arith, inl (refl, inl k.0))
  Move-event (exhausted p e o c k d r) s = (omega arith, inl (refl, inl k.0))
  Move-event (fails p e y o k x) s = (omega arith, inl (refl, inr (inl k.0)))
  Move-event (tool_fails p e y o k x z) s = (omega arith, inl (refl, inr (inr k.0)))

  Trace-steps :
      (req : RunTaskRequest) {es : List RunTaskEvent} {p : Phase}
      → Trace w req limit es p
      → steps_of p ≤ limit
  Trace-steps req empty = omega arith
  Trace-steps req (grown es p e q fs t m ids eq) = (Move-event m (Trace-steps req t)).0

  -- Before the protocol is over, no event has ended the stream.
  Trace-IsBody :
      (req : RunTaskRequest) {es : List RunTaskEvent} {p : Phase}
      → Trace w req limit es p
      → p ≢ over
      → All (IsBody limit) es
  Trace-IsBody req empty h = tt
  Trace-IsBody req (grown es p e q fs t m ids eq) h = elim (Move-event m (Trace-steps req t)).1 [
    | inl o ↦ absurd (h o.0)
    | inr b ↦
        subst (All (IsBody limit)) (sym eq)
          (All-append (IsBody limit) es (e ∷ []) (Trace-IsBody req t (Move-source m)) (b.1, tt))
  ]

  -- Where the protocol is over, one event has ended the stream.
  Trace-IsEnded :
      (req : RunTaskRequest) {es : List RunTaskEvent} {p : Phase}
      → Trace w req limit es p
      → p ≡ over
      → IsEnded limit es
  Trace-IsEnded req empty h = absurd (cc)
  Trace-IsEnded req (grown es p e q fs t m ids eq) h =
      let body = Trace-IsBody req t (Move-source m) in
      elim (Move-event m (Trace-steps req t)).1 [
        | inl o ↦ (es, e, eq, body, o.1)
        | inr b ↦ absurd (b.0 h)
      ]

-- Where the stream of a run is closed, it has one last event, of kind "done", "error" or "tool". No
-- event before it is of kind "done" or "error", and no message is of a step beyond the agent's limit.
pub run_agent-IsEnded :
    {P W : Type 0} (rt : Runtime P W) (req : RunTaskRequest) (s : RunState W)
    → s.sent ≡ []
    → (run_agent rt req s).0 ≡ err closed
    → IsEnded (limit_of rt.agent) (run_agent rt req s).1.sent
run_agent-IsEnded rt req s fresh shut =
    let t = run_agent-IsTraced rt req s fresh in
    let end : t.0 ≡ closed = cc (t.2, shut) in
    Trace-IsEnded (wording_of rt) (limit_of rt.agent) (with_correlation req) t.3 (t.4 end)
