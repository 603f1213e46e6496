-- ===== src/Agent/Turn/Tests.antt =====
-- Checks of internal/agent/agent.go at a concrete session.
use animus_coder.Base.{
  ℕ, suc, ◌≡◌, refl, ◌≢◌, none, [], ◌∷◌, Text, codes, text_eq, text_eq→ne, trim_space, is_blank,
  lookup, insert, show_nat, ok,
}
use animus_coder.Config.Sample.{sample_agent}
use animus_coder.Llm.Registry.{no_route, Registry, resolve}
use animus_coder.Agent.Types.{assistant, Request, Response}
use animus_coder.Agent.Session.{AgentState}
use animus_coder.Agent.Turn.{Chat, Agent, make_plan, run_turn, reflect}
use animus_coder.Agent.Turn.Plan.{make_plan-SameTalk, make_plan_again, SameTalk}
use animus_coder.Agent.Turn.Run.{TurnEnds, run_turn-TurnEnds}
use animus_coder.Agent.Turn.Reflect.{ReflectionEnds, reflect-ReflectionEnds}

abbrev registry : Registry ℕ
registry = record {
  providers = (codes "p", 7) ∷ [];
  models = (codes "b", record no_route { name = codes "b"; provider = codes "p" }) ∷ [];
  default_model = codes "b";
  expensive = [];
}

abbrev agent : Agent ℕ
agent = record { registry = registry; cfg = sample_agent }

-- A provider that answers "ok" and counts its calls.
abbrev chat : Chat ℕ ℕ
chat p req w = (
  ok (record {
    message = record { role = assistant; content = codes "ok" };
    finish_reason = codes "stop";
  }),
  suc w,
)

abbrev stamp : ℕ → Text
stamp n = show_nat n

abbrev fresh : AgentState ℕ
fresh = record { sessions = []; clock = 0; world = 0 }

abbrev request : Request
request = record { session_id = codes "s"; model = []; prompt = codes "fix"; context = [] }

abbrev response : Response
response = record {
  message = record { role = assistant; content = codes "ok" };
  route = no_route;
  finish_reason = codes "stop";
  previous_assistant = [];
}

s_named : codes "s" ≢ []
s_named = text_eq→ne (codes "s") [] (unfold text_eq in refl)

run_turn-TurnEnds_example :
    TurnEnds (codes "s") request fresh (run_turn chat stamp agent request fresh)
run_turn-TurnEnds_example = run_turn-TurnEnds chat stamp agent request fresh s_named

plan_keeps_talk : SameTalk fresh (make_plan chat stamp agent request fresh).1
plan_keeps_talk = make_plan-SameTalk chat stamp agent request fresh

planned : (make_plan chat stamp agent request fresh).0 ≡ ok (codes "ok")
unfolding make_plan is_blank text_eq animus_coder.Agent.Session.session_at lookup
    animus_coder.Agent.Session.ensure_session animus_coder.Agent.Session.ensure_named insert resolve
    animus_coder.Agent.Turn.call_chat trim_space
planned = refl

make_plan_again_example :
    make_plan chat stamp agent request (make_plan chat stamp agent request fresh).1
    ≡ (ok (codes "ok"), (make_plan chat stamp agent request fresh).1)
make_plan_again_example =
    make_plan_again chat stamp agent request request fresh (codes "ok") refl
      (unfold is_blank in refl) s_named refl (text_eq→ne (codes "ok") [] (unfold text_eq in refl))
      planned

reflect-ReflectionEnds_example : ReflectionEnds (codes "s") fresh (
    reflect chat stamp agent request response
      (record { tools = []; test = none; self_diff = [] })
      fresh)
reflect-ReflectionEnds_example =
    reflect-ReflectionEnds chat stamp agent request response
      (record { tools = []; test = none; self_diff = [] }) fresh refl s_named
