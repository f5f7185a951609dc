-- ===== src/Cli.antt =====
-- internal/cli: what the command line decides, uploads and keeps; files and HTTP are parameters.
pub mod Limits
pub mod Exit
pub mod Retry
pub mod Walk
pub mod LocalState
pub mod Commands
