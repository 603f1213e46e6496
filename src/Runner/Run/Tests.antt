-- ===== src/Runner/Run/Tests.antt =====
-- Checks of `Run` with a provider that first asks for a tool and then answers.
use animus_coder.Base.{
  ◌||◌, ℕ, zero, suc, ◌≡◌, refl, true, false, Option, none, some, [], ◌∷◌, if◌then◌else◌, Text,
  codes, text_eq, trim_space, is_blank, to_lower, fields, has_prefix, contains, elem, lookup,
  insert, pos, show_nat, ok, err,
}
use animus_coder.Config.Sample.{sample_agent}
use animus_coder.Llm.Registry.{no_route, Registry}
use animus_coder.Agent.Types.{ChatResponse, assistant}
use animus_coder.Agent.Turn.{Chat, Agent}
use animus_coder.Tools.Git.{GitProcess}
use animus_coder.Tools.Git.DryRun.{OnlyReads}
use animus_coder.Tools.Disk.{read, Node, file, folder, entry, done}
use animus_coder.Tools.Filesystem.{Filesystem}
use animus_coder.Tools.Terminal.{Terminal, Finished}
use animus_coder.Tools.Value.{string, boolean}
use animus_coder.Tools.Schema.{ToolRegistry}
use animus_coder.Runner.Events.{ToolCall, RunTaskRequest, RunTaskEvent}
use animus_coder.Runner.Execute.{Outside}
use animus_coder.Runner.Execute.Switches.{SafeRegistry, SafeWith, DryRunsOnly}
use animus_coder.Runner.Stage.{closed, RunState, Runtime, with_correlation}
use animus_coder.Runner.Run.{run_agent}
use animus_coder.Runner.Run.Protocol.{over, wording_of, Trace}
use animus_coder.Runner.Run.Closes.{run_agent-closes}
use animus_coder.Runner.Run.Last.{IsEnded, run_agent-IsEnded}
use animus_coder.Runner.Run.Unchanged.{run_agent-unchanged, run_agent-dry}
use mathlib.Core.List.{map}

abbrev registry : Registry ℕ
registry = record {
  providers = (codes "p", 7) ∷ [];
  models = (codes "b", record no_route { name = codes "b"; provider = codes "p" }) ∷ [];
  default_model = codes "b";
  expensive = [];
}

abbrev agent : Agent ℕ
agent = record {
  registry = registry;
  cfg = record sample_agent {
    max_steps = pos 3;
    enable_plan = false;
    enable_reflect = false;
    enable_test_run = false;
    max_context_bytes = pos 0;
  };
}

abbrev answer : ℕ → ChatResponse
answer zero = record {
  message = record { role = assistant; content = codes "read" };
  finish_reason = codes "length";
}
answer (suc n) = record {
  message = record { role = assistant; content = codes "all well" };
  finish_reason = codes "stop";
}

-- The world counts the calls.
abbrev chat : Chat ℕ ℕ
chat p req w = (ok (answer w), suc w)

abbrev call : ToolCall
call = record { name = codes "fs.read_file"; args = (codes "path", string (codes "f")) ∷ [] }

decode : Text → Option ToolCall
decode content = if text_eq content (codes "read") then some call else none

abbrev still : {A : Type 0} → A → Finished × A
still a = (record { stdout = []; stderr = []; error = none }, a)

abbrev outside : Outside
outside = record {
  run = λ ctx dir command args disk. still disk;
  git = λ args dir input disk. still disk;
  format = record { marshal = λ stack. []; unmarshal = λ text. none };
  now = λ n. n;
  two_digits = λ n d. show_nat n;
}

abbrev runtime : Runtime ℕ ℕ
runtime = record {
  agent = some agent;
  strategy = none;
  outside = outside;
  chat = chat;
  stamp = show_nat;
  ctx = none;
  cancelled = λ n. false;
  decoder = record { calls = λ text. none; single = decode };
  unmarshal = λ text. none;
  milliseconds = 5;
  fuel = 2;
  tool_text = λ e. codes "tool error";
  agent_text = λ e. codes "agent error";
  context_text = λ e. codes "context error";
  test_text = λ e. codes "test error";
}

abbrev tool : Filesystem
tool = record { guard = record { base_dir = codes "/w" }; allow_write = false; allow_read = true }

abbrev term : Terminal
term = record {
  working_dir = codes "/w";
  allowed = [];
  denied = [];
  timeout = pos 30;
  allow_execution = false;
}

abbrev tools : ToolRegistry
tools = record { fs = some tool; terminal = some term; git = none; semantic = none }

abbrev disk : Node
disk = folder (entry (codes "w") (folder (entry (codes "f") (file (codes "x")) done)) done)

abbrev fresh : RunState ℕ
fresh = record {
  sent = [];
  usage = record { expensive_used = 0; metrics = none };
  agent = record { sessions = []; clock = 0; world = 0 };
  tools = record { registry = some tools; disk = disk; readings = 0 };
  token_count = 0;
  polls = 0;
}

abbrev request : RunTaskRequest
request = record {
  session_id = codes "s";
  correlation_id = [];
  model = [];
  planner_model = [];
  critic_model = [];
  prompt = codes "fix";
  tools = [];
  context_paths = codes "f" ∷ [];
}

kinds :
    map (λ (e : RunTaskEvent). e.kind) (run_agent runtime request fresh).1.sent
    ≡ codes "message"
      ∷ codes "token"
      ∷ codes "tool"
      ∷ codes "message"
      ∷ codes "token"
      ∷ codes "token"
      ∷ codes "done"
      ∷ []
unfolding run_agent animus_coder.Runner.Context.Files.build_context_files
    animus_coder.Runner.Context.Files.gather with_correlation elem
    animus_coder.Agent.Turn.max_context_bytes animus_coder.Runner.Context.Files.context_file
    animus_coder.Tools.Filesystem.stat animus_coder.Tools.Filesystem.resolved
    animus_coder.Tools.Path.resolve text_eq animus_coder.Tools.Path.is_abs
    animus_coder.Tools.Path.clean animus_coder.Tools.Path.render animus_coder.Tools.Path.clean_parts
    animus_coder.Tools.Path.split_from animus_coder.Tools.Path.clean_step
    animus_coder.Tools.Path.dot animus_coder.Tools.Path.dot_dot has_prefix
    animus_coder.Tools.Path.join_path animus_coder.Tools.Path.slashed animus_coder.Tools.Disk.find
    animus_coder.Tools.Disk.parts_of animus_coder.Tools.Disk.find_entry
    animus_coder.Tools.Filesystem.read_file animus_coder.Tools.Disk.read
    animus_coder.Runner.Context.append_with_budget animus_coder.Runner.Context.append_under
    animus_coder.Agent.Turn.max_steps animus_coder.Runner.Stage.poll
    animus_coder.Runner.Run.one_step animus_coder.Runner.Stage.select animus_coder.Runner.Stage.ask
    animus_coder.Runner.Stage.consult animus_coder.Agent.Turn.run_turn
    animus_coder.Llm.Registry.resolve lookup animus_coder.Runner.Models.select_model
    animus_coder.Agent.Strategy.first_non_empty is_blank animus_coder.Agent.Turn.converse
    animus_coder.Agent.Turn.call_chat animus_coder.Runner.Stage.emit fields
    animus_coder.Agent.Session.ensure_session animus_coder.Agent.Session.ensure_named
    animus_coder.Runner.ToolCalls.extract_tool_calls trim_space
    animus_coder.Runner.ToolCalls.unfenced contains animus_coder.Runner.ToolCalls.fence decode
    animus_coder.Runner.Actions.call_tool animus_coder.Runner.Execute.execute_tool
    animus_coder.Tools.Validator.validate_call animus_coder.Tools.Validator.validate_schema
    animus_coder.Tools.Schema.schema animus_coder.Tools.Schema.schema_named
    animus_coder.Tools.Schema.schemas animus_coder.Tools.Validator.validate_fields
    animus_coder.Tools.Validator.check_field animus_coder.Tools.Validator.fits_kind
    animus_coder.Tools.Validator.check_tool animus_coder.Runner.Execute.tool_named
    animus_coder.Runner.Execute.perform animus_coder.Runner.Critique.is_response_done to_lower
    animus_coder.Agent.Session.append_history animus_coder.Agent.Session.update_session insert
    animus_coder.Agent.Turn.test_run_enabled animus_coder.Runner.Stage.finish
    animus_coder.Runner.Stage.ask_model
kinds = refl

run_agent-closes_example :
    ((run_agent runtime request fresh).0 ≡ err closed)
    × Trace
        (wording_of runtime)
        (with_correlation request)
        3
        (run_agent runtime request fresh).1.sent
        over
unfolding animus_coder.Agent.Turn.max_steps
run_agent-closes_example = run_agent-closes runtime 0 request fresh refl tt (refl, refl) refl

run_agent-IsEnded_example : IsEnded 3 (run_agent runtime request fresh).1.sent
unfolding animus_coder.Agent.Turn.max_steps
run_agent-IsEnded_example = run_agent-IsEnded runtime request fresh refl run_agent-closes_example.0

run_agent-unchanged_example :
    ((run_agent runtime request fresh).1.tools.disk ≡ disk)
    × SafeRegistry (run_agent runtime request fresh).1.tools.registry
run_agent-unchanged_example =
    run_agent-unchanged runtime request fresh
      (record { no_writes = refl; no_commands = refl; no_git = tt })

-- A git that clears the disk unless it is only asked for a check or for the status.
abbrev harsh : GitProcess
harsh args dir input d =
    if elem (codes "--check") args || elem (codes "--short") args
    then still d
    else still (folder done)

harsh-OnlyReads : OnlyReads harsh (codes "w" ∷ codes "f" ∷ [])
harsh-OnlyReads = record {
  on_status = λ dir input d. unfold elem text_eq in refl;
  on_check = λ dir input d. unfold elem text_eq in refl;
}

abbrev patching : RunTaskRequest
patching = record request {
  tools =
      record {
        name = codes "git.apply_patch";
        args = (codes "patch", string (codes "diff")) ∷ (codes "dry_run", boolean true) ∷ [];
      }
      ∷ [];
}

abbrev dry_tools : ToolRegistry
dry_tools = record tools {
  git = some (record {
    working_dir = codes "/w";
    allow_exec = true;
    dry_run_only = true;
    backup_dir = [];
    stack = none;
  });
}

abbrev dry_state : RunState ℕ
dry_state = record fresh { tools = record fresh.tools { registry = some dry_tools } }

abbrev harsh_runtime : Runtime ℕ ℕ
harsh_runtime = record runtime { outside = record outside { git = harsh } }

run_agent-dry_example :
    (read (codes "w" ∷ codes "f" ∷ []) (run_agent harsh_runtime patching dry_state).1.tools.disk
      ≡ read (codes "w" ∷ codes "f" ∷ []) disk)
    × SafeWith DryRunsOnly (run_agent harsh_runtime patching dry_state).1.tools.registry
run_agent-dry_example =
    run_agent-dry harsh_runtime (codes "w" ∷ codes "f" ∷ []) patching dry_state harsh-OnlyReads
      (record { no_writes = refl; no_commands = refl; no_git = refl })
