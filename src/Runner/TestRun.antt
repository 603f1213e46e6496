-- ===== src/Runner/TestRun.antt =====
-- internal/rpc/agent/runner.go: `runTests`, the automated run of the test command with its retries.
pub mod Attempts
mod Tests
use animus_coder.Base.{
  ℕ, zero, suc, ◌+◌, Bool, false, ◌&&◌, not, Option, none, some, List, [], ◌∷◌, ◌++◌, ◌==◌,
  if◌then◌else◌, is_some, Text, codes, text_eq, fields, ℤ, pos, negsuc, pos_part, is_positive,
  Result, err,
}
use animus_coder.Tools.Terminal.{
  Terminal, Process, Context, ExecResult, ExecError, with_timeout, exec,
}

pub data TestError : Type 0 where
  terminal_unavailable : TestError
  command_empty : TestError
  exec_failed : ExecError → TestError

-- The four results of `runTests`.
pub record TestRun : Type 0 where
  pub output : Text
  pub exit_code : ℤ
  pub error : Option TestError
  pub attempts : ℕ

-- Standard output and, on a line of its own, what was written to standard error.
unfoldable pub joined_output : ExecResult → Text
joined_output res =
    if text_eq res.stderr []
    then res.stdout
    else if text_eq res.stdout []
    then res.stderr
    else res.stdout ++ codes "\n" ++ res.stderr

unfoldable pub exec_error : Option ExecError → Option TestError
exec_error none = none
exec_error (some e) = some (exec_failed e)

-- The variables that one round of the loop sets.
unfoldable pub observed : ℕ → ExecResult × Option ExecError → TestRun
unfolding joined_output exec_error
observed attempts (res, e) = record {
  output = joined_output res;
  exit_code = res.exit_code;
  error = exec_error e;
  attempts = attempts;
}

is_zero : ℤ → Bool
is_zero (pos n) = n == 0
is_zero (negsuc n) = false

-- `execErr == nil && res.ExitCode == 0`
unfoldable pub passed : TestRun → Bool
unfolding is_zero
passed r = not (is_some r.error) && is_zero r.exit_code

unfoldable pub attempt_context : Context → ℤ → Context
attempt_context ctx timeout_seconds =
    if is_positive timeout_seconds then with_timeout ctx (pos_part timeout_seconds) else ctx

-- The variables before the first round.
abbrev pub start : TestRun
start = record { output = []; exit_code = pos 0; error = none; attempts = 1 }

unavailable : TestError → TestRun
unavailable e = record { output = []; exit_code = negsuc 0; error = some e; attempts = 0 }

module _ {W : Type 0} (run : Process W) where
  -- The loop with `rounds` rounds left; behind the last one the counter has been raised again.
  unfoldable pub attempts_loop :
      ℕ → Context → Terminal → Text → List Text → ℕ → TestRun → W → TestRun × W
  attempts_loop zero ctx t command args attempts last w = (record last { attempts = attempts }, w)
  attempts_loop (suc rounds) ctx t command args attempts last w =
      let (res, w') = exec run ctx t command args w in
      let now = observed attempts res in
      let again = attempts_loop rounds ctx t command args (attempts + 1) now w' in
      if passed now then (now, w') else again

  unfoldable pub run_words : Context → Terminal → List Text → ℤ → ℤ → W → TestRun × W
  unfolding unavailable
  run_words ctx t [] retries timeout_seconds w = (unavailable command_empty, w)
  run_words ctx t (command ∷ args) retries timeout_seconds w =
      attempts_loop (suc (pos_part retries)) (attempt_context ctx timeout_seconds) t command args 1
        start w

  -- The terminal tool may be missing.
  unfoldable pub run_tests : Context → Option Terminal → Text → ℤ → ℤ → W → TestRun × W
  unfolding unavailable
  run_tests ctx none command retries timeout_seconds w = (unavailable terminal_unavailable, w)
  run_tests ctx (some t) command retries timeout_seconds w =
      run_words ctx t (fields command) retries timeout_seconds w
