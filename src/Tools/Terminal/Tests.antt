-- ===== src/Tools/Terminal/Tests.antt =====
-- Checks of internal/tools/terminal.go at concrete inputs.
use animus_coder.Base.{
  pos, ℕ, suc, ◌≡◌, refl, inr, true, none, some, [], ◌∷◌, arith, is_some, codes, text_eq,
  text_eq→ne, to_lower,
}
use animus_coder.Tools.Terminal.{
  Terminal, Process, ExecError, no_result, with_timeout, time_limit, result_of, validate_command,
  exec,
}
use animus_coder.Tools.Terminal.Laws.{Permits, validate_command_iff, exec_permitted, exec_forbidden}

-- "rm" is denied, "ls" and "rm" are allowed.
abbrev terminal : Terminal
terminal = record {
  working_dir = codes "/w";
  allowed = codes "LS" ∷ codes "rm" ∷ [];
  denied = codes "Rm" ∷ [];
  timeout = pos 0;
  allow_execution = true;
}

-- A process that counts its starts.
abbrev counting : Process ℕ
counting ctx dir command args w = (record { stdout = command; stderr = []; error = none }, suc w)

ls_accepted : validate_command terminal (codes "ls") ≡ none
unfolding validate_command animus_coder.Tools.Terminal.listed text_eq to_lower
ls_accepted = refl

rm_refused : is_some (validate_command terminal (codes "rm")) ≡ true
unfolding validate_command animus_coder.Tools.Terminal.listed text_eq to_lower
rm_refused = refl

ls_is_run : exec counting none terminal (codes "ls") [] 0 ≡ (
  result_of
      (counting (with_timeout none (time_limit terminal)) terminal.working_dir (codes "ls") [] 0).0,
  (counting (with_timeout none (time_limit terminal)) terminal.working_dir (codes "ls") [] 0).1,
)
ls_is_run =
    exec_permitted counting none terminal (codes "ls") [] 0 refl
      (text_eq→ne (codes "ls") [] (unfold text_eq in refl))
      ((validate_command_iff terminal (codes "ls")).0 ls_accepted)

rm_not_permitted : ¬ Permits terminal (codes "rm")
rm_not_permitted p =
    let accepted = (validate_command_iff terminal (codes "rm")).1 p in
    absurd (ground (arith, rm_refused))

exec_forbidden_example :
    (e : ExecError) × (exec counting none terminal (codes "rm") [] 0 ≡ ((no_result, some e), 0))
exec_forbidden_example =
    exec_forbidden counting none terminal (codes "rm") [] 0 (inr (inr rm_not_permitted))
