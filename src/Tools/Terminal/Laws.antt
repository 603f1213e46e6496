-- ===== src/Tools/Terminal/Laws.antt =====
-- The command policy of internal/tools/terminal.go against a plain reading of it.
use animus_coder.Base.{
  ◌≡◌, refl, sym, ◌≢◌, ◌↔◌, ◌⊎◌, inl, inr, true, false, none, some, List, [], ◌∷◌, arith,
  Bool-cases, Option-cases, Among, Text, text_eq, text_eq_refl, text_eq_iff, to_lower,
}
use animus_coder.Tools.Terminal.{
  Terminal, ExecError, Process, Context, with_timeout, no_result, disabled, command_required,
  listed, outside, validate_command, refusal, result_of, time_limit, exec,
}

-- Some entry is the command, without regard to the case of either.
abbrev pub Lists : List Text → Text → Type 0
Lists entries cmd = (entry : Text) × Among entry entries × (to_lower entry ≡ to_lower cmd)

-- The policy: no entry of the deny list, and an entry of the allow list unless that is empty.
abbrev pub Permits : Terminal → Text → Type 0
Permits t cmd = (¬ Lists t.denied cmd) × ((t.allowed ≡ []) ⊎ Lists t.allowed cmd)

listed→Lists :
    (cmd : Text) (entries : List Text) → listed (to_lower cmd) entries ≡ true → Lists entries cmd
unfolding listed
listed→Lists cmd [] h = cc
listed→Lists cmd (entry ∷ entries) h = elim (Bool-cases (text_eq (to_lower cmd) (to_lower entry))) [
  | inl e ↦ (entry, inl refl, sym ((text_eq_iff (to_lower cmd) (to_lower entry)).0 e))
  | inr e ↦ let (found, m, q) = listed→Lists cmd entries (ground arith) in (found, inr m, q)
]

Lists→listed :
    (cmd : Text) (entries : List Text) (entry : Text)
    → Among entry entries
    → to_lower entry ≡ to_lower cmd
    → listed (to_lower cmd) entries ≡ true
unfolding listed
Lists→listed cmd [] entry m q = elim m [ ]
Lists→listed cmd (x ∷ entries) entry (inl e) q = rw (e, q, text_eq_refl)
Lists→listed cmd (x ∷ entries) entry (inr m) q = ground (arith, Lists→listed cmd entries entry m q)

outside→Lists :
    (cmd : Text) (entries : List Text)
    → outside (to_lower cmd) entries ≡ false
    → (entries ≡ []) ⊎ Lists entries cmd
unfolding outside
outside→Lists cmd [] h = inl refl
outside→Lists cmd (x ∷ entries) h = inr (listed→Lists cmd (x ∷ entries) (ground arith))

not_outside :
    (cmd : Text) (entries : List Text)
    → (entries ≡ []) ⊎ Lists entries cmd
    → outside (to_lower cmd) entries ≡ false
unfolding outside
not_outside cmd [] h = refl
not_outside cmd (x ∷ entries) (inl e) = cc
not_outside cmd (x ∷ entries) (inr (entry, m, q)) = rw (Lists→listed cmd (x ∷ entries) entry m q)

not_listed :
    (cmd : Text) (entries : List Text) → ¬ Lists entries cmd → listed (to_lower cmd) entries ≡ false
not_listed cmd entries n = elim (Bool-cases (listed (to_lower cmd) entries)) [
  | inl e ↦ absurd (n (listed→Lists cmd entries e))
  | inr e ↦ e
]

-- The check accepts a command exactly if the policy permits it.
pub validate_command_iff :
    (t : Terminal) (cmd : Text) → (validate_command t cmd ≡ none) ↔ Permits t cmd
unfolding validate_command
validate_command_iff t cmd = (forth, back)
  where
    forth : validate_command t cmd ≡ none → Permits t cmd
    forth h = (
      λ (entry, m, q). cc (Lists→listed cmd t.denied entry m q, h),
      outside→Lists cmd t.allowed (ground arith),
    )

    back : Permits t cmd → validate_command t cmd ≡ none
    back (free, allowed) = rw (not_listed cmd t.denied free, not_outside cmd t.allowed allowed)

module _ {W : Type 0} (run : Process W) (ctx : Context) (t : Terminal) where
  -- Execution is on, the command is not empty and the policy permits it: the process runs once, in
  -- the terminal's directory, with no more time than the context and the terminal's limit leave, and
  -- the result is the one of the process.
  pub exec_permitted :
      (command : Text) (args : List Text) (w : W)
      → t.allow_execution ≡ true
      → command ≢ []
      → Permits t command
      → exec run ctx t command args w ≡ (
        result_of (run (with_timeout ctx (time_limit t)) t.working_dir command args w).0,
        (run (with_timeout ctx (time_limit t)) t.working_dir command args w).1,
      )
  unfolding exec refusal
  exec_permitted command args w a n p =
      ground (arith, text_eq_iff command [], (validate_command_iff t command).1 p)

  -- With execution switched off, an empty command or one that the policy does not permit, no process
  -- runs: the world is as before, the result is empty, and there is an error.
  pub exec_forbidden :
      (command : Text) (args : List Text) (w : W)
      → (t.allow_execution ≡ false) ⊎ ((command ≡ []) ⊎ (¬ Permits t command))
      → (e : ExecError) × (exec run ctx t command args w ≡ ((no_result, some e), w))
  unfolding exec refusal
  exec_forbidden command args w (inl a) = (disabled, rw a)
  exec_forbidden command args w (inr (inl n)) = elim (Bool-cases t.allow_execution) [
    | inr a ↦ (disabled, rw a)
    | inl a ↦ (command_required, ground (arith, text_eq_iff command []))
  ]
  exec_forbidden command args w (inr (inr n)) = elim (Option-cases (refusal t command)) [
    | inr (e, q) ↦ (e, ground arith)
    | inl q ↦ absurd (n ((validate_command_iff t command).0 (ground arith)))
  ]
