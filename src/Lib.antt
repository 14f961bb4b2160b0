-- ===== src/Lib.antt =====
-- The kernel of rivet, an RTOS in Rust: its critical section, its preemptive scheduler, its mutex
-- with priority inheritance, its stack pool, its cooperative tier, and its output.
--
-- Rivet runs two tiers. Preemptive tasks have their own stacks; `rivet/src/preempt/sched.rs`
-- keeps them in bitmap queues by priority, and every timer tick or reschedule request asks it which
-- task runs next. Cooperative tasks are futures that an executor polls when `rivet/src/waker.rs`
-- says that they are ready. The timer wakes both; the mutex moves priorities between tasks. On
-- several harts, `rivet/src/critical.rs` lets one at a time change what they share.
--
-- Which file models what:
--   Config                rivet/build.rs: the configuration and its bounds
--   Word, Word/Align      the operations of `u32` on which the bitmaps and the stack pool stand
--   Critical              rivet/src/critical.rs
--   Preempt/Tcb           rivet/src/preempt/tcb.rs: `Tcb`, its held list
--   Preempt/Sched         rivet/src/preempt/sched.rs: the queues, `schedule`, the state changes of
--                         `Tcb` that go through the queues
--   Preempt/Registry      `register_full` and `register` of tcb.rs
--   Preempt/Handle        `TaskHandle` of rivet/src/preempt/mod.rs, rivet/src/preempt/lifecycle.rs
--   Preempt/StackPool     rivet/src/preempt/stack_pool.rs
--   Preempt/Spawn         `spawn`, `spawn_ptask_impl` and `stack_usage` of preempt/mod.rs
--   Mutex                 rivet/src/preempt/mutex.rs: `PriorityMutex` and its guard
--   Dispatch              `on_tick_locked`, `start` and `start_secondary_hart` of preempt/mod.rs,
--                         `on_fault` and `isolate` of rivet/src/fault.rs
--   Timer                 rivet/src/timer.rs
--   ExecTime, Deadlines   rivet/src/exec_time.rs, rivet/src/deadlines.rs, `sleep_until`, `sleep_ms`
--   Coop/TaskId, TaskCell `TaskId` and `TaskCell` of rivet/src/task.rs
--   Coop/Waker            rivet/src/waker.rs
--   Coop/Executor         rivet/src/executor.rs, and the registry of task.rs
--   Coop/Sleep            rivet/src/time.rs
--   Sync                  rivet/src/sync/semaphore.rs, channel.rs, signal.rs and once.rs
--   Watchdog, Irq         rivet/src/watchdog.rs, rivet/src/irq.rs
--   Console, Log, Decimal rivet/src/console.rs, rivet/src/log.rs, the printing of numbers there and
--                         in rivet/src/report.rs
--   Trace, Latency        rivet/src/trace.rs, rivet/src/latency.rs
--   Examples              concrete kernels, at which the theorems are applied
-- `Base` holds what the parts share.
--
-- How the code corresponds to the model:
--   * A static array is a function from its indices, and a store is `update`. `NO_TASK` is `none`.
--     Machine integers are natural numbers, with the wrap-around written out.
--   * An operation that changes statics takes and returns the record of them, and is one step. For
--     most operations the code has `critical::enter`, in the call or around it. Those without (the
--     joins, the exit up to its critical section, the flags of a handle, and the lock-free waker,
--     semaphore and channel) are taken one call at a time, so a compare-exchange loop ends at once.
--     `despawn` is two steps, since its critical section holds `ready_remove` only: other calls may
--     come before its stores, which Preempt/Handle/Race is about. `next_ready_around` is `next_ready`
--     with another call between its accesses.
--     The critical section, the signal, the channel and the semaphore are also modelled access by
--     access, in any interleaving, by step relations: `Critical.Step`, `Sync.Signal.Wakeup.Step`,
--     `Send` and `Recv` of Sync/Channel/Accesses, `Acquire` and `Release` of
--     Sync/Semaphore/Accesses. Accesses take effect in one order that all harts see.
--   * A future is a parameter of the executor, `Code`: a function that may change the waker and the
--     rest of the world. The first frame of a task (`Preempt.Spawn.Port`), the section of the linker
--     (`StackPool.Section`) and the text of a float (`display` of Log) are parameters too.
--   * A pointer is 32 bits in the stack pool. A nesting of critical sections is below 2^32.
--   * `hart` is the number of the processor that runs the call. The cycle counter, the clock and
--     memory are arguments.
--   * What a call asks of the port and of user code (a reschedule request, a switch of the memory
--     protection, the drop of a result, the fault hook) is logged in `Sched.effects`, in order.
--   * Of a call that gives up the processor and goes on later (`lock_timeout`, `join`,
--     `sleep_until`) the parts before and after are separate definitions; other calls may come
--     between them.
--   * Priorities are below 32: the arrays of queues have 32 entries, and the code panics beyond.
--     `IsConsistent` of Preempt/Sched/Invariant has this bound.
--   * A guard's data, its `Deref`, and the cargo features (tracing, histograms, loom) are left out.
--   * The fuel of `schedule_loop` and of `scan` is 33, one round more than a word has bits: each
--     round but the last clears a bit. `push_byte` has fuel 3: a byte is sent after at most one
--     byte was taken out. The flush of the console has one round for each of the 256 slots, and the
--     log fills at most as many holes as its text has characters.
--
-- Not modelled: the ports and boards; rivet/src/report.rs, which prints counters; the formatting of
-- `core::fmt`; the walk of the executor over the linker section, which is a list of priorities here;
-- the vtable of the raw waker; the macros, the tools and the examples.
pub mod Base
pub mod Word
pub mod Critical
pub mod Config
pub mod Preempt
pub mod Coop
pub mod Timer
pub mod Mutex
pub mod Sync
pub mod ExecTime
pub mod Deadlines
pub mod Dispatch
pub mod Latency
pub mod Watchdog
pub mod Console
pub mod Decimal
pub mod Log
pub mod Irq
pub mod Trace
pub mod Examples
