-- ===== src/Tools/Sandbox/Laws.antt =====
-- What the settings of internal/tools/sandbox.go make of the command policy.
use animus_coder.Base.{
  ◌≡◌, ◌⊎◌, inl, inr, false, some, List, [], arith, Bool-cases, Among, Among-append_left,
  Among-append_right, Text, to_lower,
}
use animus_coder.Config.{SandboxConfig, ToolsConfig}
use animus_coder.Tools.Dedupe.Laws.{dedupe_strings-IsDistinct}
use animus_coder.Tools.Terminal.{ExecError, Process, Context, no_result, exec}
use animus_coder.Tools.Terminal.Laws.{Lists, exec_forbidden}
use animus_coder.Tools.Sandbox.{
  default_network_denied, allow_commands, denied_commands_of, new_sandbox,
}

module _ (base_dir : Text) (s : SandboxConfig) (t : ToolsConfig) where
  denied_listed :
      (entry cmd : Text)
      → Among entry (denied_commands_of s)
      → to_lower entry ≡ to_lower cmd
      → Lists (new_sandbox base_dir s t).terminal.denied cmd
  unfolding new_sandbox
  denied_listed entry cmd m q =
      (entry, ((dedupe_strings-IsDistinct (denied_commands_of s)).1 entry).1 m, q)

  network_denied :
      (entry : Text)
      → s.allow_network ≡ false
      → Among entry default_network_denied
      → Among entry (denied_commands_of s)
  unfolding denied_commands_of
  network_denied entry n m =
      rw n (Among-append_right entry s.denied_commands default_network_denied m)

  own_denied : (entry : Text) → Among entry s.denied_commands → Among entry (denied_commands_of s)
  unfolding denied_commands_of
  own_denied entry m = elim (Bool-cases s.allow_network) [
    | inl e ↦ rw e m
    | inr e ↦ rw e (Among-append_left entry s.denied_commands default_network_denied m)
  ]

  -- The sandbox never runs a command that the settings deny, nor, with the network off, a command
  -- of the built-in list of network programs, in whatever case it is written and whatever the allow
  -- list says: the world stays as it was and there is an error.
  pub new_sandbox-denies :
      {W : Type 0} (run : Process W) (ctx : Context) (entry cmd : Text) (args : List Text) (w : W)
      → Among entry s.denied_commands
        ⊎ ((s.allow_network ≡ false) × Among entry default_network_denied)
      → to_lower entry ≡ to_lower cmd
      → (e : ExecError) × (exec run ctx (new_sandbox base_dir s t).terminal cmd args w
          ≡ ((no_result, some e), w))
  new_sandbox-denies run ctx entry cmd args w m q =
      exec_forbidden run ctx (new_sandbox base_dir s t).terminal cmd args w
        (inr (inr (λ p. p.0 (denied_listed entry cmd among q))))
    where
      among : Among entry (denied_commands_of s)
      among = elim m [ inl a ↦ own_denied entry a | inr (n, a) ↦ network_denied entry n a ]

  -- Nothing runs at all while execution or the sandbox is switched off, or while the settings give
  -- neither a right to write, nor the network, nor a list of commands.
  pub new_sandbox-closed :
      {W : Type 0} (run : Process W) (ctx : Context) (cmd : Text) (args : List Text) (w : W)
      → (t.allow_exec ≡ false)
        ⊎ ((s.enabled ≡ false)
            ⊎ ((s.allow_write ≡ false)
                × (s.allow_network ≡ false)
                × (s.allowed_commands ≡ [])
                × (s.denied_commands ≡ [])))
      → (e : ExecError) × (exec run ctx (new_sandbox base_dir s t).terminal cmd args w
          ≡ ((no_result, some e), w))
  new_sandbox-closed run ctx cmd args w h =
      exec_forbidden run ctx (new_sandbox base_dir s t).terminal cmd args w (inl closed)
    where
      closed : (new_sandbox base_dir s t).terminal.allow_execution ≡ false
      closed = unfold new_sandbox allow_commands in ground arith
