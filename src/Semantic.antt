-- ===== src/Semantic.antt =====
-- internal/semantic/engine.go: the search engine that the tools hold.
pub mod Tokens
pub mod Rank
pub mod Search
mod Tests
use animus_coder.Base.{◌*◌, Option, if◌then◌else◌, ℤ, pos, is_positive}
use animus_coder.Tools.Filesystem.{Filesystem}

pub record Engine : Type 0 where
  pub fs : Option Filesystem
  pub max_files : ℤ
  pub max_file_bytes : ℤ

unfoldable pub new_engine : Option Filesystem → ℤ → ℤ → Engine
new_engine fs max_files max_file_bytes = record {
  fs = fs;
  max_files = if is_positive max_files then max_files else pos 200;
  max_file_bytes = if is_positive max_file_bytes then max_file_bytes else pos (64 * 1024);
}
