-- ===== src/Tools/Sandbox.antt =====
-- internal/tools/sandbox.go: the filesystem and terminal tools that the settings give.
-- `NewFilesystem` fails only where the current directory cannot be read.
pub mod Laws
mod Tests
use animus_coder.Base.{
  Bool, true, false, ◌&&◌, ◌||◌, not, List, [], ◌∷◌, ◌++◌, if◌then◌else◌, Text, codes,
}
use animus_coder.Config.{SandboxConfig, ToolsConfig}
use animus_coder.Tools.Dedupe.{dedupe_strings}
use animus_coder.Tools.Filesystem.{Filesystem, new_filesystem}
use animus_coder.Tools.Terminal.{Terminal}

unfoldable pub default_network_denied : List Text
default_network_denied =
    codes "curl"
    ∷ codes "wget"
    ∷ codes "ping"
    ∷ codes "nc"
    ∷ codes "netcat"
    ∷ codes "telnet"
    ∷ codes "ssh"
    ∷ codes "scp"
    ∷ codes "sftp"
    ∷ []

not_empty : List Text → Bool
not_empty [] = false
not_empty (x ∷ xs) = true

unfoldable pub allow_commands : SandboxConfig → Bool
unfolding not_empty
allow_commands s =
    s.allow_write
    || (not_empty s.allowed_commands || (not_empty s.denied_commands || s.allow_network))

-- `denied` of `NewSandbox` before its repetitions are removed.
unfoldable pub denied_commands_of : SandboxConfig → List Text
denied_commands_of s =
    if not s.allow_network then s.denied_commands ++ default_network_denied else s.denied_commands

pub record Sandbox : Type 0 where
  pub fs : Filesystem
  pub terminal : Terminal

unfoldable pub new_sandbox : Text → SandboxConfig → ToolsConfig → Sandbox
new_sandbox base_dir s t = record {
  fs = new_filesystem base_dir (s.allow_write && t.allow_file_write);
  terminal = record {
    working_dir = base_dir;
    allowed = s.allowed_commands;
    denied = dedupe_strings (denied_commands_of s);
    timeout = s.timeout_seconds;
    allow_execution = t.allow_exec && (s.enabled && allow_commands s);
  };
}
