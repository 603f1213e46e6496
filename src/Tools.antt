-- ===== src/Tools.antt =====
-- internal/tools: the sandboxed tools that a run may use.
pub mod Dedupe
pub mod Terminal
pub mod Sandbox
pub mod Path
pub mod Disk
pub mod Walk
pub mod Filesystem
pub mod Value
pub mod PatchStack
pub mod Git
pub mod Schema
pub mod Validator
