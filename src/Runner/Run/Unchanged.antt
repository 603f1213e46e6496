-- ===== src/Runner/Run/Unchanged.antt =====
-- A run whose tools may not change anything leaves the disk as it is.
use animus_coder.Base.{
  ap, ℕ, zero, suc, ◌+◌, ◌≡◌, refl, ◌∙◌, inl, inr, false, Option, none, some, List, [], ◌∷◌,
  Bool-cases, Text, fields, ℤ, pos_part,
}
use animus_coder.Tools.Disk.{Node, read}
use animus_coder.Tools.Terminal.{Terminal, Process, Context, exec}
use animus_coder.Tools.Schema.{ToolRegistry}
use animus_coder.Runner.Events.{RunTaskRequest}
use animus_coder.Runner.TestRun.{
  TestRun, observed, passed, attempts_loop, run_words, run_tests, attempt_context, start,
}
use animus_coder.Tools.Git.{GitTool}
use animus_coder.Tools.Git.DryRun.{OnlyReads}
use animus_coder.Runner.Execute.Switches.{
  SafeWith, IsHarmless, SwitchedOff, DryRunsOnly, SwitchedOff-IsHarmless, DryRunsOnly-IsHarmless,
  NoCommands, SafeRegistry, IsFrozen, exec-unchanged,
}
use animus_coder.Runner.Execute.ReadOnly.{execute_tool-IsFrozen}
use animus_coder.Runner.Stage.{RunState, Runtime}
use animus_coder.Runner.Actions.{terminal_of}
use animus_coder.Runner.Run.{run_agent}
use animus_coder.Runner.Run.Keeps.{IsStable}
use animus_coder.Runner.Run.Whole.{run_agent-EndsIn}

module _ {W : Type 0} (run : Process W) where
  attempts_loop-unchanged :
      (rounds : ℕ) (ctx : Context) (t : Terminal) (command : Text) (args : List Text) (attempts : ℕ)
      (last : TestRun) (w : W)
      → t.allow_execution ≡ false
      → (attempts_loop run rounds ctx t command args attempts last w).1 ≡ w
  unfolding attempts_loop
  attempts_loop-unchanged zero ctx t command args attempts last w h = refl
  attempts_loop-unchanged (suc rounds) ctx t command args attempts last w h =
      let r = exec run ctx t command args w in
      let now = observed attempts r.0 in
      let same : r.1 ≡ w = exec-unchanged run ctx t command args w h in
      elim (Bool-cases (passed now)) [
        | inl e ↦ rw e same
        | inr e ↦
            rw e (attempts_loop-unchanged rounds ctx t command args (attempts + 1) now r.1 h ∙ same)
      ]

  run_words-unchanged :
      (ctx : Context) (t : Terminal) (words : List Text) (retries seconds : ℤ) (w : W)
      → t.allow_execution ≡ false
      → (run_words run ctx t words retries seconds w).1 ≡ w
  unfolding run_words
  run_words-unchanged ctx t [] retries seconds w h = refl
  run_words-unchanged ctx t (command ∷ args) retries seconds w h =
      attempts_loop-unchanged (suc (pos_part retries)) (attempt_context ctx seconds) t command args
        1 start w h

  run_tests-unchanged :
      (ctx : Context) (t : Option Terminal) (command : Text) (retries seconds : ℤ) (w : W)
      → NoCommands t
      → (run_tests run ctx t command retries seconds w).1 ≡ w
  unfolding run_tests
  run_tests-unchanged ctx none command retries seconds w h = refl
  run_tests-unchanged ctx (some t) command retries seconds w h =
      run_words-unchanged ctx t (fields command) retries seconds w h

terminal-NoCommands :
    (P : GitTool → Type 0) (reg : Option ToolRegistry)
    → SafeWith P reg
    → NoCommands (terminal_of reg)
terminal-NoCommands P none h = tt
terminal-NoCommands P (some reg) h = h.no_commands

module _ {X P W : Type 0} (rt : Runtime P W) (view : Node → X) (G : GitTool → Type 0)
    (harmless : IsHarmless rt.outside.git rt.outside.format view G) where
  IsFrozen-IsStable : (disk : Node) → IsStable rt (IsFrozen view G disk)
  IsFrozen-IsStable disk = record {
    calls = λ c tc t f. execute_tool-IsFrozen rt.outside rt.ctx c tc view G harmless disk t f;
    tests = λ command retries seconds t f. record {
      same =
          ap view (
            run_tests-unchanged rt.outside.run rt.ctx (terminal_of t.registry) command retries
              seconds t.disk (terminal-NoCommands G t.registry f.safe))
          ∙ f.same;
      safe = f.safe;
    };
  }

  run_agent-kept :
      (req : RunTaskRequest) (s : RunState W)
      → SafeWith G s.tools.registry
      → (view (run_agent rt req s).1.tools.disk ≡ view s.tools.disk)
        × SafeWith G (run_agent rt req s).1.tools.registry
  run_agent-kept req s safe =
      let disk = s.tools.disk in
      let r =
        run_agent-EndsIn rt (IsFrozen view G disk) (λ e. Unit {0}) (IsFrozen-IsStable disk)
          (record { closing = tt; crashing = λ c tc t f e. tt; looping = λ role current u e. tt })
          req s (record { same = refl; safe = safe }) in
      (r.3.same, r.3.safe)

-- With writing, commands and git switched off or missing, a whole run leaves the disk as it is and
-- these switches off, whatever the request asks for, the model answers and the test command is,
-- however the run ends.
pub run_agent-unchanged :
    {P W : Type 0} (rt : Runtime P W) (req : RunTaskRequest) (s : RunState W)
    → SafeRegistry s.tools.registry
    → ((run_agent rt req s).1.tools.disk ≡ s.tools.disk)
      × SafeRegistry (run_agent rt req s).1.tools.registry
run_agent-unchanged rt req s safe =
    run_agent-kept rt (λ disk. disk) SwitchedOff
      (SwitchedOff-IsHarmless rt.outside.git rt.outside.format) req s safe

-- With writing and commands switched off or missing, and a git tool, where there is one, for dry runs
-- only: a file that `git status --short` and `git apply --check -` leave alone, as git does with the
-- files of its work tree, has the same content after a whole run as before, and the switches stay,
-- whatever the request asks for and the model answers, however the run ends.
pub run_agent-dry :
    {P W : Type 0} (rt : Runtime P W) (path : List Text) (req : RunTaskRequest) (s : RunState W)
    → OnlyReads rt.outside.git path
    → SafeWith DryRunsOnly s.tools.registry
    → (read path (run_agent rt req s).1.tools.disk ≡ read path s.tools.disk)
      × SafeWith DryRunsOnly (run_agent rt req s).1.tools.registry
run_agent-dry rt path req s only safe =
    run_agent-kept rt (read path) DryRunsOnly
      (DryRunsOnly-IsHarmless rt.outside.git rt.outside.format path only) req s safe
