-- ===== src/Runner/TestRun/Attempts.antt =====
-- How often `runTests` runs the command, and the number of attempts that it reports.
use animus_coder.Base.{
  ℕ, zero, suc, ◌+◌, ◌≤◌, ◌<◌, ◌≡◌, refl, ◌∙◌, ◌⊎◌, inl, inr, true, false, Option, none, some, List,
  ◌∷◌, arith, Bool-cases, Text, fields, ℤ, pos_part,
}
use animus_coder.Tools.Terminal.{Terminal, Process, Context, ExecResult, ExecError, refusal, exec}
use animus_coder.Runner.TestRun.{
  TestRun, observed, passed, attempt_context, attempts_loop, start, run_words, run_tests,
}

-- The process, with a count of its starts beside the world.
abbrev pub counted : {W : Type 0} → Process W → Process (W × ℕ)
counted run ctx dir command args (w, n) =
    let (finished, w') = run ctx dir command args w in (finished, (w', n + 1))

-- Of a start of the loop at counter `k` with `rounds` left, `before` processes having started:
-- either the last run passed and the counter is its number, or none did and the counter is beyond.
abbrev pub Counts : ℕ → ℕ → ℕ → TestRun → ℕ → Type 0
Counts rounds k before r starts =
    ((passed r ≡ true) × (r.attempts < k + rounds) × (starts + k ≡ before + r.attempts + 1))
    ⊎ ((passed r ≡ false) × (r.attempts ≡ k + rounds) × (starts ≡ before + rounds))

passed_attempts : (r : TestRun) (k : ℕ) → passed (record r { attempts = k }) ≡ passed r
unfolding passed
passed_attempts r k = refl

observed_attempts : (k : ℕ) (res : ExecResult × Option ExecError) → (observed k res).attempts ≡ k
unfolding observed
observed_attempts k res = refl

Counts-last :
    (k before : ℕ) (r : TestRun)
    → passed r ≡ false
    → Counts 0 k before (record r { attempts = k }) before
Counts-last k before r p = inr (passed_attempts r k ∙ p, omega arith, omega arith)

Counts-first :
    (rounds k before starts : ℕ) (r : TestRun)
    → passed r ≡ true
    → r.attempts ≡ k
    → starts ≡ before + 1
    → Counts (suc rounds) k before r starts
Counts-first rounds k before starts r p a c = inl (p, omega arith, omega arith)

Counts-later :
    (rounds k before before' starts : ℕ) (r : TestRun)
    → before' ≡ before + 1
    → Counts rounds (k + 1) before' r starts
    → Counts (suc rounds) k before r starts
Counts-later rounds k before before' starts r b (inl (p, l, c)) = inl (p, omega arith, omega arith)
Counts-later rounds k before before' starts r b (inr (p, l, c)) = inr (p, omega arith, omega arith)

module _ {W : Type 0} (run : Process W) (ctx : Context) (t : Terminal) (command : Text) where
  exec-counted :
      (args : List Text) (w : W) (n : ℕ)
      → refusal t command ≡ none
      → (exec (counted run) ctx t command args (w, n)).1.1 ≡ n + 1
  unfolding exec
  exec-counted args w n h = rw (h, exec)

  loop-Counts :
      (rounds : ℕ) (args : List Text) (k : ℕ) (last : TestRun) (w : W) (n : ℕ)
      → refusal t command ≡ none
      → (rounds ≡ 0 → passed last ≡ false)
      → let (r, (w', starts)) =
          attempts_loop (counted run) rounds ctx t command args k last (w, n) in
        Counts rounds k n r starts
  unfolding attempts_loop
  loop-Counts zero args k last w n h p = Counts-last k n last (p refl)
  loop-Counts (suc rounds) args k last w n h p =
      let (res, (w', n')) = exec (counted run) ctx t command args (w, n) in
      let now = observed k res in
      let more = exec-counted args w n h in
      elim (Bool-cases (passed now)) [
        | inl e ↦ rw e (Counts-first rounds k n n' now e (observed_attempts k res) more)
        | inr e ↦
            let (r, (_, starts)) =
              attempts_loop (counted run) rounds ctx t command args (k + 1) now (w', n') in
            rw e (
              Counts-later rounds k n n' starts r more
                (loop-Counts rounds args (k + 1) now w' n' h (λ _. e)))
      ]

Counts-all :
    (rounds starts : ℕ) (r : TestRun)
    → Counts (suc rounds) 1 0 r starts
    → ((passed r ≡ true) × (r.attempts ≡ starts) × (starts ≤ rounds + 1))
      ⊎ ((passed r ≡ false) × (r.attempts ≡ starts + 1) × (starts ≡ rounds + 1))
Counts-all rounds starts r (inl (p, l, c)) = inl (p, omega arith, omega arith)
Counts-all rounds starts r (inr (p, l, c)) = inr (p, omega arith, omega arith)

-- A command that the terminal permits is started at most once more than the retries ask for. If a run
-- passes, the reported attempts are the number of starts; if none does, they are one more than it.
pub run_tests-attempts :
    {W : Type 0} (run : Process W) (ctx : Context) (t : Terminal) (text command : Text)
    (args : List Text) (retries timeout_seconds : ℤ) (w : W)
    → fields text ≡ command ∷ args
    → refusal t command ≡ none
    → let (r, (w', starts)) =
        run_tests (counted run) ctx (some t) text retries timeout_seconds (w, 0) in
      ((passed r ≡ true) × (r.attempts ≡ starts) × (starts ≤ pos_part retries + 1))
      ⊎ ((passed r ≡ false) × (r.attempts ≡ starts + 1) × (starts ≡ pos_part retries + 1))
unfolding run_tests run_words
run_tests-attempts run ctx t text command args retries timeout_seconds w f h =
    let (r, (_, starts)) =
      attempts_loop (counted run) (suc (pos_part retries)) (attempt_context ctx timeout_seconds) t
        command args 1 start (w, 0) in
    rw f (
      Counts-all (pos_part retries) starts r (
        loop-Counts run (attempt_context ctx timeout_seconds) t command (suc (pos_part retries))
          args 1 start w 0 h (λ z. absurd (omega arith))))
