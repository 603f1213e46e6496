-- ===== src/Lib.antt =====
-- A model of animus-coder: a daemon that drives language models on a code base. A client sends a task,
-- the runner plans, asks the coder model, executes tools in a sandbox, runs the tests, lets a critic
-- model judge, and reports every step as an event.
--
-- The parts and the files that model them (paths from the root of the repository):
--   Base        texts as lists of bytes, maps as lists of pairs, results, and the case lemmas that the
--               other files share
--   Config      internal/config/config.go: the settings; Config/Validate is Validate
--   Llm         Llm/Registry is internal/llm/registry.go (RegisterModel is register_model, and so on);
--               Llm/Builder is internal/llm/configbuilder, from the settings to a registry
--   Agent       Agent/Strategy is internal/agent/strategy.go, the choice of a model under a budget;
--               Agent/Types, Agent/Prompt, Agent/Session and Agent/Turn are types.go, prompt.go and
--               agent.go: Run is run_turn, Plan is make_plan, Reflect is reflect
--   Tools       internal/tools: Path (PathGuard), Disk and Walk (what the tools use of packages os and
--               path/filepath), Filesystem with its children Walks (ListDir, WalkFiles), Search and
--               Structure (DescribeStructure), Terminal, Sandbox and Dedupe, PatchStack and Git, Schema
--               (registry.go and schema.go), Validator
--   Semantic    internal/semantic/engine.go: Tokens (tokenize, overlapScore, summarize), Rank (the order
--               of the hits) and Search (Engine.Search is semantic_search)
--   Metrics     internal/observability/metrics.go: counters, gauge and observations
--   Runner      internal/rpc: Events (messages.go and the echoing run), Serve (ServeHTTP), Connect
--               (connect_handler.go), and of internal/rpc/agent/runner.go Models (selectModel,
--               pickFallbackModel), TestRun (runTests), Context (appendWithBudget, with Mentions for
--               the paths in a prompt and Files for buildContextFiles), ToolCalls (extractToolCalls),
--               Critique (the decisions on a response and on a critique), Execute (executeTool)
--               with Outcome (its results as text), Stage (the variables of a run and what stops it),
--               Actions (the parts of a step) and Run (AgentRunner.Run is run_agent);
--               Run/Protocol is the order of events that a client may rely on; TestOutput is
--               test_parser.go
--
-- How they interact: Config gives Llm its models and Tools its rights; Agent resolves names in the
-- registry of Llm; Runner/Run gathers the context through Tools/Filesystem and Semantic, picks models
-- through Agent/Strategy, calls Agent/Turn and executes the calls in a response through
-- Runner/Execute, which validates them by Tools/Validator; Serve and Connect run a runner and count in
-- Metrics.
--
-- State is passed explicitly: the map of sessions with a clock, the disk, the git tool with its stack,
-- the metrics. A Go map is a list of pairs in the order in which a loop visits it. A method on a nil
-- pointer that the code guards against is a function of an Option. The events of a run are the list of
-- what it sends; the ending says whether its goroutine returns, follows a nil pointer, or still looks
-- for a fallback. ValidateCall follows a nil pointer itself where a file is to be written and there is
-- no filesystem tool. The context of a run is a test for each time that the code reads it.
--
-- What the code calls and this repository does not hold is an argument: a provider's Chat, the
-- process that the terminal starts, git, the decoding of JSON, the clock, the wording of errors, the
-- two digits of a score. What is assumed of an argument is a hypothesis of the theorem: that an encoded
-- stack of patches is decoded to itself, that no JSON value starts with the letter j, that one git apply
-- leaves the file of its backup alone, and that git status and git apply --check leave a file of the work
-- tree alone.
--
-- A Go string is a list of bytes. strings.ToLower, TrimSpace and Fields are those on ASCII: the letters
-- and spaces beyond it stay as they are, where Go lowers and trims them. The regular expression of
-- test_parser.go knows the two letters beyond ASCII that its class takes without regard to case.
--
-- Fuel: only pickFallbackModel is a loop without a bound in the code, and its fuel running out is the
-- result none; the theorems say when it ends and when no fuel is enough. The digits of a number are
-- written with one round for each, so a number's own size is enough. Durations are whole seconds.
-- Temperatures are whole thousandths, so that neither NaN, which passes both tests of Validate, nor a
-- value in between two thousandths is one. The integers of the settings are unbounded ones; nothing computed
-- from them here comes near 64 bits, the byte counts of real files included.
--
-- The disk has no links and no permissions, and a path is taken from its root, as for an absolute
-- working directory; os.ReadDir orders names by their bytes. Calls do not overlap: the mutexes of the
-- agent are not modelled, and nothing else writes to the disk of a run. The client reads every event, so
-- that sending does not block.
--
-- Not modelled: the command line, the daemon's wiring, logging, the HTTP clients of the providers and
-- the JSON codec, which are input and output; and the loading of the settings through viper.
mod Base
pub mod Metrics
pub mod Llm
pub mod Agent
pub mod Config
pub mod Tools
pub mod Semantic
pub mod Runner
