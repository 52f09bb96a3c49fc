-- ===== src/Tests.antt =====
-- A small database and concrete runs, at which the properties' hypotheses hold.
pub mod Data
mod Chunks
mod Context
mod Work
mod Found
mod Accounts
mod Evidence
mod Answers
