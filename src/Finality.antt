-- ===== src/Finality.antt =====
-- arxd/finality: what a validator may sign.
pub mod SignedVotes
