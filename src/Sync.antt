-- ===== src/Sync.antt =====
-- `rivet/src/sync/`: the primitives of the cooperative tier.
pub mod Semaphore
pub mod Channel
pub mod Signal
pub mod Once
