-- ===== src/Tests.antt =====
-- Tests of the definitions, and the theorems at concrete inputs.
mod Guard
mod Cli
mod Truncation
mod Retry
mod Patch
mod Agent
mod Pipe
mod Compaction
mod Completion
mod Dependencies
mod Scripts
mod External
mod Calls
mod Transfers
