-- ===== src/Tools/Terminal.antt =====
-- internal/tools/terminal.go: which commands may run, and what a run returns. The process itself is
-- not under the repository: `run` is what exec.Cmd does in a world of any kind.
pub mod Laws
mod Tests
use animus_coder.Base.{
  ℕ, zero, suc, Bool, false, ◌||◌, not, Option, none, some, List, [], ◌∷◌, ltb, if◌then◌else◌, Text,
  text_eq, to_lower, ℤ, pos, negsuc, Result, err,
}
use mathlib.Core.Option

-- The time left to a context, in seconds; `none` for one without a deadline.
abbrev pub Context : Type 0
Context = Option ℕ

-- context.WithTimeout
abbrev pub with_timeout : Context → ℕ → Context
with_timeout none seconds = some seconds
with_timeout (some left) seconds = some (if ltb left seconds then left else seconds)

pub record Terminal : Type 0 where
  pub working_dir : Text
  pub allowed : List Text
  pub denied : List Text
  pub timeout : ℤ
  pub allow_execution : Bool

-- How a process fails: with an exit code, or with another error, such as a missing program.
pub data ProcessError : Type 0 where
  exit_error : ℤ → ProcessError
  other_error : Text → ProcessError

-- What cmd.Run leaves behind.
pub record Finished : Type 0 where
  pub stdout : Text
  pub stderr : Text
  pub error : Option ProcessError

-- exec.CommandContext(ctx, command, args...).Run() in a directory ("" is the current one).
abbrev pub Process : Type 0 → Type 0
Process W = Context → Text → Text → List Text → W → Finished × W

pub record ExecResult : Type 0 where
  pub stdout : Text
  pub stderr : Text
  pub exit_code : ℤ

abbrev pub no_result : ExecResult
no_result = record { stdout = []; stderr = []; exit_code = pos 0 }

pub data ExecError : Type 0 where
  disabled : ExecError
  command_required : ExecError
  command_denied : Text → ExecError
  not_in_allowlist : Text → ExecError
  process_failed : ProcessError → ExecError

-- A loop over the list that leaves at the first entry equal to `lower` without regard to case.
unfoldable pub listed : Text → List Text → Bool
listed lower [] = false
listed lower (entry ∷ entries) = text_eq lower (to_lower entry) || listed lower entries

-- `len(t.Allowed) > 0` and the loop under it.
outside : Text → List Text → Bool
outside lower [] = false
outside lower (entry ∷ entries) = not (listed lower (entry ∷ entries))

unfoldable pub validate_command : Terminal → Text → Option ExecError
unfolding outside
validate_command t cmd =
    if listed (to_lower cmd) t.denied
    then some (command_denied cmd)
    else if outside (to_lower cmd) t.allowed
    then some (not_in_allowlist cmd)
    else none

-- The tests before a process is started.
unfoldable pub refusal : Terminal → Text → Option ExecError
refusal t command =
    if not t.allow_execution
    then some disabled
    else if text_eq command []
    then some command_required
    else validate_command t command

unfoldable pub exit_code_of : Option ProcessError → ℤ
exit_code_of none = pos 0
exit_code_of (some (exit_error code)) = code
exit_code_of (some (other_error reason)) = negsuc 0

-- A deadline that is past leaves no time.
abbrev pub limit_of : ℤ → ℕ
limit_of (pos zero) = 30
limit_of (pos (suc n)) = suc n
limit_of (negsuc n) = 0

unfoldable pub time_limit : Terminal → ℕ
time_limit t = limit_of t.timeout

unfoldable pub result_of : Finished → ExecResult × Option ExecError
unfolding exit_code_of
result_of f = (
  record { stdout = f.stdout; stderr = f.stderr; exit_code = exit_code_of f.error },
  Option.map process_failed f.error,
)

module _ {W : Type 0} (run : Process W) where
  unfoldable pub exec :
      Context → Terminal → Text → List Text → W → (ExecResult × Option ExecError) × W
  exec ctx t command args w = elim (refusal t command) [
    | some e ↦ ((no_result, some e), w)
    | none ↦
        let (finished, w') = run (with_timeout ctx (time_limit t)) t.working_dir command args w in
        (result_of finished, w')
  ]
