-- ===== src/Preempt/Spawn.antt =====
-- `spawn`, `spawn_ptask_impl` and `stack_usage` of `rivet/src/preempt/mod.rs`.
use rivet_rtos.Base.{
  ℕ, zero, suc, ◌+◌, ◌-◌, ◌%◌, ◌^◌, Bool, true, false, ◌&&◌, Option, none, some, List, [], ◌∷◌,
  ◌++◌, ◌==◌, ltb, if◌then◌else◌, Table,
}
use rivet_rtos.Config.{Config}
use rivet_rtos.Preempt.Tcb.{Tcb}
use rivet_rtos.Preempt.Sched.{Sched, set_task}
use rivet_rtos.Preempt.Registry.{register_full}
use rivet_rtos.Preempt.Handle.{TaskHandle}
use rivet_rtos.Preempt.StackPool.{
  Section, Slice, Pool, PortCall, scratch_open, scratch_close, fill, alloc_stack,
}
pub mod Errors
pub mod Watermark

-- What the port gives: `min_task_stack`, and `init_task_stack`, which builds the first frame in the
-- stack and returns its stack pointer.
pub record Port : Type 0 where
  pub min_task_stack : ℕ
  pub init_task_stack : Slice → ℕ → ℕ → Table ℕ → ℕ × Table ℕ

-- The task's function, its argument, and the size and drop function of its result's type; the drop
-- function is 0 for a type that needs none.
pub record Entry : Type 0 where
  pub entry : ℕ
  pub arg : ℕ
  pub size_of : ℕ
  pub drop_fn : ℕ

pub data SpawnError : Type 0 where
  registry_full stack_pool_full : SpawnError

pub data Spawned : Type 0 where
  ok : TaskHandle → Spawned
  err : SpawnError → Spawned
  -- the stack is below the minimum of the port, or with debug assertions the result is too large
  panicked : Spawned

-- The statics that a spawn changes.
pub record Kernel : Type 0 where
  pub sched : Sched
  pub pool : Pool

-- The stack is filled and gets its first frame, while the scratch window is open.
unfoldable pub init_stack : Port → Slice → Entry → Pool → ℕ × Pool
init_stack port stack e p =
    let r = port.init_task_stack stack e.entry e.arg (fill stack 0xaa p.memory) in
    (
      r.0,
      record p {
        memory = r.1;
        calls = p.calls ++ (scratch_open stack.addr stack.len ∷ scratch_close ∷ []);
      },
    )

-- How the critical section of `spawn` ends.
pub data Published : Type 0 where
  no_slot too_large : Published
  published : TaskHandle → Published

-- `debug_assert!(sz <= 8)`, and the stores of the size and the drop function of the result beside
-- the new task, which is registered already.
unfoldable pub with_result : Bool → Entry → Option ℕ × Sched → Published × Sched
with_result debug_assertions e (none, s) = (no_slot, s)
with_result debug_assertions e (some id, s) =
    let t = s.tasks id in
    if debug_assertions && ltb 8 e.size_of then (too_large, s) else (
      published (record { id = id % 2 ^ 16; generation = t.generation }),
      set_task id (record t { result_size = e.size_of % 2 ^ 8; result_drop = e.drop_fn }) s,
    )

unfoldable pub result_of : Pool → Published × Sched → Spawned × Kernel
result_of pool (no_slot, s) = (err registry_full, record { sched = s; pool = pool })
result_of pool (too_large, s) = (panicked, record { sched = s; pool = pool })
result_of pool (published h, s) = (ok h, record { sched = s; pool = pool })

module _ (debug_assertions : Bool) (cfg : Config) (port : Port) (hart : ℕ) where
  -- The registration and the metadata, in one critical section.
  unfoldable pub publish : ℕ → ℕ → Slice → Entry → Sched → Published × Sched
  publish sp priority stack e s =
      with_result debug_assertions e (register_full cfg hart sp priority stack.addr stack.len s)

  unfoldable pub spawn : Slice → ℕ → Entry → Kernel → Spawned × Kernel
  spawn stack priority e k =
      let (sp, pool) = init_stack port stack e k.pool in
      if ltb stack.len port.min_task_stack
      then (panicked, k)
      else result_of pool (publish sp priority stack e k.sched)

  -- On a board, where the pool is the only source of stacks.
  unfoldable pub spawn_with : ℕ → Entry → Sched → Option Slice × Pool → Spawned × Kernel
  spawn_with priority e s (none, pool) = (err stack_pool_full, record { sched = s; pool = pool })
  spawn_with priority e s (some stack, pool) =
      spawn stack priority e (record { sched = s; pool = pool })

  unfoldable pub spawn_ptask_impl : Section → ℕ → ℕ → Entry → Kernel → Spawned × Kernel
  spawn_ptask_impl sec stack_size priority e k =
      spawn_with priority e k.sched (alloc_stack sec stack_size k.pool)

-- The bytes of the slice from `addr` on that still hold 0xaa.
unfoldable pub untouched : Table ℕ → ℕ → ℕ → ℕ
untouched memory addr zero = 0
untouched memory addr (suc n) =
    let rest = untouched memory (addr + 1) n in if memory addr == 0xaa then suc rest else 0

unfoldable pub stack_usage : Table ℕ → Slice → ℕ
stack_usage memory stack = stack.len - untouched memory stack.addr stack.len
