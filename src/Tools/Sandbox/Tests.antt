-- ===== src/Tools/Sandbox/Tests.antt =====
-- Checks of internal/tools/sandbox.go at concrete settings.
use animus_coder.Base.{ℕ, suc, ◌≡◌, refl, inl, inr, false, none, some, [], codes, to_lower}
use animus_coder.Config.Sample.{sample_sandbox, sample_tools}
use animus_coder.Tools.Terminal.{Process, ExecError, no_result, exec}
use animus_coder.Tools.Sandbox.{default_network_denied, new_sandbox}
use animus_coder.Tools.Sandbox.Laws.{new_sandbox-denies, new_sandbox-closed}

abbrev counting : Process ℕ
counting ctx dir command args w = (record { stdout = command; stderr = []; error = none }, suc w)

-- The network is off, so "CURL" is refused.
new_sandbox-denies_example :
    (e : ExecError) × (exec counting none
        (new_sandbox (codes "/w") sample_sandbox sample_tools).terminal
        (codes "CURL")
        []
        0
      ≡ ((no_result, some e), 0))
new_sandbox-denies_example =
    new_sandbox-denies (codes "/w") sample_sandbox sample_tools counting none (codes "curl")
      (codes "CURL") [] 0 (inr (refl, unfold default_network_denied in inl refl))
      (unfold to_lower in refl)

closed_sandbox :
    (e : ExecError) × (exec counting none
        (new_sandbox (codes "/w") (record sample_sandbox { enabled = false }) sample_tools).terminal
        (codes "ls")
        []
        0
      ≡ ((no_result, some e), 0))
closed_sandbox =
    new_sandbox-closed (codes "/w") (record sample_sandbox { enabled = false }) sample_tools
      counting none (codes "ls") [] 0 (inr (inl refl))
