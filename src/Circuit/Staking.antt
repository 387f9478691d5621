-- ===== src/Circuit/Staking.antt =====
-- circuits/staking/src/lib.rs: rewards, stakes, unbonding and slashes.
pub mod Types
pub mod Reward
pub mod Stake
pub mod Slash
pub mod Unbond
