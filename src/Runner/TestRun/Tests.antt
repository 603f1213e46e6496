-- ===== src/Runner/TestRun/Tests.antt =====
-- Checks of `runTests` at a command that always fails.
use animus_coder.Base.{
  ℕ, ◌+◌, ◌≤◌, ◌≡◌, refl, ◌⊎◌, true, false, none, some, [], ◌∷◌, codes, text_eq, fields, pos,
  pos_part,
}
use animus_coder.Tools.Terminal.{Terminal, Process, exit_error, refusal}
use animus_coder.Runner.TestRun.{passed, run_tests}
use animus_coder.Runner.TestRun.Attempts.{counted, run_tests-attempts}

abbrev terminal : Terminal
terminal = record {
  working_dir = codes "/w";
  allowed = [];
  denied = [];
  timeout = pos 0;
  allow_execution = true;
}

abbrev failing : Process ℕ
failing ctx dir command args w =
    (record { stdout = []; stderr = codes "no"; error = some (exit_error (pos 1)) }, w)

two_words : fields (codes "go test") ≡ codes "go" ∷ codes "test" ∷ []
unfolding fields
two_words = refl

permitted : refusal terminal (codes "go") ≡ none
unfolding refusal text_eq animus_coder.Tools.Terminal.validate_command
    animus_coder.Tools.Terminal.listed
permitted = refl

run_tests-attempts_example :
    let (r, (w', starts)) =
      run_tests (counted failing) none (some terminal) (codes "go test") (pos 2) (pos 0) (0, 0) in
    ((passed r ≡ true) × (r.attempts ≡ starts) × (starts ≤ pos_part (pos 2) + 1))
    ⊎ ((passed r ≡ false) × (r.attempts ≡ starts + 1) × (starts ≡ pos_part (pos 2) + 1))
run_tests-attempts_example =
    run_tests-attempts failing none terminal (codes "go test") (codes "go") (codes "test" ∷ [])
      (pos 2) (pos 0) 0 two_words permitted
