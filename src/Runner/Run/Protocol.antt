-- ===== src/Runner/Run/Protocol.antt =====
-- The order in which a run sends its events, as a client may rely on it: a state machine over the
-- phases of a run, with the number of the step.
use animus_coder.Base.{
  Text, fields, ℕ, suc, ◌+◌, ◌*◌, ◌≤◌, String, ◌≡◌, true, List, [], ◌∷◌, ◌++◌, codes,
}
use animus_coder.Agent.Turn.{AgentError}
use animus_coder.Runner.Context.Files.{ContextError}
use animus_coder.Runner.Events.{RunTaskRequest, RunTaskEvent}
use animus_coder.Runner.Outcome.{ToolError}
use animus_coder.Runner.Stage.{Runtime}

-- The wording of errors.
pub record Wording : Type 0 where
  pub tool_text : ToolError → Text
  pub agent_text : AgentError → Text
  pub context_text : ContextError → Text

abbrev pub wording_of : {P W : Type 0} → Runtime P W → Wording
wording_of rt = record {
  tool_text = rt.tool_text;
  agent_text = rt.agent_text;
  context_text = rt.context_text;
}

-- Why a run fails.
pub data Failure : Type 0 where
  cancelled no_agent : Failure
  agent_failed : AgentError → Failure
  context_failed : ContextError → Failure

abbrev pub failure_text : Wording → Failure → Text
failure_text w cancelled = codes "cancelled"
failure_text w no_agent = codes "agent unavailable"
failure_text w (agent_failed e) = w.agent_text e
failure_text w (context_failed e) = w.context_text e

pub data Phase : Type 0 where
  opening planned over : Phase
  -- The words of the response that were sent are counted; those to come are listed.
  speaking : ℕ → ℕ → List Text → Phase
  calling tested reflected halted : ℕ → Phase

-- The steps begun.
abbrev pub steps_of : Phase → ℕ
steps_of opening = 0
steps_of planned = 0
steps_of over = 0
steps_of (speaking n i words) = n
steps_of (calling n) = n
steps_of (tested n) = n
steps_of (reflected n) = n
steps_of (halted n) = n

-- A run that is neither over nor about to be.
abbrev pub IsOpen : Phase → Type 0
IsOpen over = ⊥
IsOpen (halted n) = ⊥
IsOpen _ = Unit {0}

-- An open run that is not amid the words of a response.
abbrev pub IsIdle : Phase → Type 0
IsIdle (speaking n i (word ∷ words)) = ⊥
IsIdle p = IsOpen p

-- A cancellation may come amid the words of a response, another failure may not.
abbrev pub MayFail : Failure → Phase → Type 0
MayFail cancelled p = IsOpen p
MayFail _ p = IsIdle p

-- Phases of step `n` in which its tools may be called, its test may run, its reflection may be sent.
abbrev pub MayCall : ℕ → Phase → Type 0
MayCall n (speaking k i []) = k ≡ n
MayCall n (calling k) = k ≡ n
MayCall n _ = ⊥

-- Phases in which a call of a tool may fail.
abbrev pub IsCalling : Phase → Type 0
IsCalling opening = Unit {0}
IsCalling (speaking n i []) = Unit {0}
IsCalling (calling n) = Unit {0}
IsCalling _ = ⊥

abbrev pub MayTest : ℕ → Phase → Type 0
MayTest n p = MayCall n p

abbrev pub MayReflect : ℕ → Phase → Type 0
MayReflect n (tested k) = k ≡ n
MayReflect n p = MayCall n p

abbrev pub MayEnd : ℕ → Phase → Type 0
MayEnd n (reflected k) = k ≡ n
MayEnd n (halted k) = k ≡ n
MayEnd n p = MayReflect n p

-- The kind of an event, and its step.
abbrev pub Event : String → ℕ → RunTaskEvent → Type 0
Event kind step e = (e.kind ≡ codes kind) × (e.step ≡ step)

pub data Move (w : Wording) (limit : ℕ) : Phase → RunTaskEvent → Phase → Type 0 where
  -- A tool of the request.
  requested : (e : RunTaskEvent) → Event "tool" 0 e → e.error ≡ [] → Move w limit opening e opening
  plan : (e : RunTaskEvent) → Event "plan" 0 e → Move w limit opening e planned
  -- The response of the next step, which the limit must allow. Its words are to come.
  message :
      (p : Phase) (n : ℕ) (e : RunTaskEvent)
      → IsIdle p
      → n ≡ suc (steps_of p)
      → n ≤ limit
      → Event "message" n e
      → Move w limit p e (speaking n 0 (fields e.message))
  -- The next word of the response.
  token :
      (n i : ℕ) (word : Text) (words : List Text) (e : RunTaskEvent)
      → Event "token" (n * 1000 + i) e
      → e.token ≡ word
      → Move w limit (speaking n i (word ∷ words)) e (speaking n (suc i) words)
  called :
      (p : Phase) (n : ℕ) (e : RunTaskEvent)
      → MayCall n p
      → Event "tool" 0 e
      → e.error ≡ []
      → Move w limit p e (calling n)
  test :
      (p : Phase) (n : ℕ) (e : RunTaskEvent)
      → MayTest n p
      → Event "test" n e
      → Move w limit p e (tested n)
  reflection :
      (p : Phase) (n : ℕ) (e : RunTaskEvent)
      → MayReflect n p
      → Event "reflect" n e
      → Move w limit p e (reflected n)
  halt : (n : ℕ) (e : RunTaskEvent) → Event "message" n e → Move w limit (reflected n) e (halted n)
  -- The last event: the run is done, or at its limit, or has failed, or a tool has.
  ends :
      (p : Phase) (n : ℕ) (e : RunTaskEvent)
      → MayEnd n p
      → Event "done" n e
      → e.is_done ≡ true
      → Move w limit p e over
  exhausted :
      (p : Phase) (e : RunTaskEvent)
      → IsIdle p
      → steps_of p ≡ limit
      → Event "done" limit e
      → e.is_done ≡ true
      → e.finish_reason ≡ codes "max_steps"
      → Move w limit p e over
  fails :
      (p : Phase) (e : RunTaskEvent) (why : Failure)
      → MayFail why p
      → Event "error" 0 e
      → e.error ≡ failure_text w why
      → Move w limit p e over
  -- The event of a tool that has failed carries its error, as text.
  tool_fails :
      (p : Phase) (e : RunTaskEvent) (why : ToolError)
      → IsCalling p
      → Event "tool" 0 e
      → e.error ≡ w.tool_text why
      → e.tool_output ≡ w.tool_text why
      → Move w limit p e over

-- The events of a run up to a phase, each with the two ids of the request.
pub data Trace (w : Wording) (req : RunTaskRequest) (limit : ℕ)
    : List RunTaskEvent → Phase → Type 0 where
  empty : Trace w req limit [] opening
  grown :
      (es : List RunTaskEvent) (p : Phase) (e : RunTaskEvent) (q : Phase) (fs : List RunTaskEvent)
      → Trace w req limit es p
      → Move w limit p e q
      → (e.session_id ≡ req.session_id) × (e.correlation_id ≡ req.correlation_id)
      → fs ≡ es ++ e ∷ []
      → Trace w req limit fs q

pub IsIdle-IsOpen : (p : Phase) → IsIdle p → IsOpen p
IsIdle-IsOpen opening h = tt
IsIdle-IsOpen planned h = tt
IsIdle-IsOpen over h = h
IsIdle-IsOpen (speaking n i []) h = tt
IsIdle-IsOpen (speaking n i (word ∷ words)) h = absurd h
IsIdle-IsOpen (calling n) h = tt
IsIdle-IsOpen (tested n) h = tt
IsIdle-IsOpen (reflected n) h = tt
IsIdle-IsOpen (halted n) h = h

pub MayFail-IsOpen : (why : Failure) (p : Phase) → MayFail why p → IsOpen p
MayFail-IsOpen cancelled p h = h
MayFail-IsOpen no_agent p h = IsIdle-IsOpen p h
MayFail-IsOpen (agent_failed e) p h = IsIdle-IsOpen p h
MayFail-IsOpen (context_failed e) p h = IsIdle-IsOpen p h

pub MayCall-IsCalling : (n : ℕ) (p : Phase) → MayCall n p → IsCalling p
MayCall-IsCalling n (speaking k i []) h = tt
MayCall-IsCalling n (speaking k i (word ∷ words)) h = absurd h
MayCall-IsCalling n (calling k) h = tt
MayCall-IsCalling n opening h = absurd h
MayCall-IsCalling n planned h = absurd h
MayCall-IsCalling n over h = absurd h
MayCall-IsCalling n (tested k) h = absurd h
MayCall-IsCalling n (reflected k) h = absurd h
MayCall-IsCalling n (halted k) h = absurd h

pub MayCall-MayReflect : (n : ℕ) (p : Phase) → MayCall n p → MayReflect n p
MayCall-MayReflect n (speaking k i []) h = h
MayCall-MayReflect n (speaking k i (word ∷ words)) h = absurd h
MayCall-MayReflect n (calling k) h = h
MayCall-MayReflect n opening h = absurd h
MayCall-MayReflect n planned h = absurd h
MayCall-MayReflect n over h = absurd h
MayCall-MayReflect n (tested k) h = absurd h
MayCall-MayReflect n (reflected k) h = absurd h
MayCall-MayReflect n (halted k) h = absurd h

-- A phase in which step `n` may end, or the next one begin.
abbrev pub Rests : ℕ → Phase → Type 0
Rests n p = IsIdle p × (steps_of p ≡ n) × MayEnd n p

pub MayReflect-Rests : (n : ℕ) (p : Phase) → MayReflect n p → Rests n p
MayReflect-Rests n (speaking k i []) h = (tt, h, h)
MayReflect-Rests n (speaking k i (word ∷ words)) h = absurd h
MayReflect-Rests n (calling k) h = (tt, h, h)
MayReflect-Rests n (tested k) h = (tt, h, h)
MayReflect-Rests n opening h = absurd h
MayReflect-Rests n planned h = absurd h
MayReflect-Rests n over h = absurd h
MayReflect-Rests n (reflected k) h = absurd h
MayReflect-Rests n (halted k) h = absurd h
