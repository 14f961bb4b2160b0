-- ===== src/Preempt.antt =====
-- `rivet/src/preempt/`: the preemptive tier.
pub mod Tcb
pub mod Sched
pub mod Registry
pub mod StackPool
pub mod Handle
pub mod Spawn
