-- ===== src/Coop.antt =====
-- The cooperative tier: task identities, wakers, the executor's queue.
pub mod TaskId
pub mod Waker
pub mod TaskCell
pub mod Executor
pub mod Sleep
