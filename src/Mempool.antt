-- ===== src/Mempool.antt =====
-- core/mempool/src/lib.rs: the queue of actions that wait for a block.
pub mod Pool
pub mod Indexes
pub mod Valid
pub mod Purge
pub mod Drain
pub mod Requeue
pub mod Signatures
pub mod SignatureRuns
pub mod Dropped
pub mod Runs
pub mod Admission
mod Tests
