-- ===== src/Cli.antt =====
-- The guarded file commands (src/roboz/shed/tools/cli_commands).
pub mod Contracts
pub mod Sequence
pub mod Zsh
pub mod Tokens
pub mod History
pub mod Process
pub mod Execute
pub mod Transfers
