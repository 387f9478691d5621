-- ===== src/Circuit.antt =====
-- core/circuit: the typed keys and the read-only view, and circuits/*: the state transitions.
pub mod View
pub mod Ledger
pub mod Updates
pub mod Sample
pub mod Account
pub mod Staking
pub mod Token
pub mod Identity
pub mod Governance
