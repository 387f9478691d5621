-- ===== src/Circuit/Governance.antt =====
-- circuits/governance/src/lib.rs: proposals, the votes of the validators on them, and their execution.
pub mod Types
pub mod Validate
pub mod Submit
pub mod Vote
pub mod Execute
pub mod Outcome
pub mod Chamber
pub mod Rows
pub mod Changes
pub mod Once
pub mod Treasury
pub mod SoundParams
pub mod Decisions
pub mod Runs
mod Tests
