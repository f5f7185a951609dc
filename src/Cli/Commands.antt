-- ===== src/Cli/Commands.antt =====
-- internal/cli/cmd: which document a command is about, and what it does to the local state.
pub mod Targets
pub mod Delete
