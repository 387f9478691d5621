-- ===== src/Runtime.antt =====
-- arxd/runtime: what the chain's runtime does around the circuits.
pub mod Epoch
