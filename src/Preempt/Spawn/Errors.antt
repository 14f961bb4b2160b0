-- ===== src/Preempt/Spawn/Errors.antt =====
-- `spawn_ptask_impl` of `rivet/src/preempt/mod.rs`: what a call that succeeds or fails leaves behind.
use rivet_rtos.Base.{ℕ, ◌%◌, ◌^◌, ◌≤◌, ◌≡◌, ◌≢◌, none, some, refl, arith, ltb, Bool, false}
use rivet_rtos.Config
use rivet_rtos.Config.{Config}
use rivet_rtos.Preempt.Tcb.{Tcb}
use rivet_rtos.Preempt.Sched.{Sched}
use rivet_rtos.Preempt.Sched.Invariant.{IsConsistent}
use rivet_rtos.Preempt.Registry.{free_from, register_full, occupied}
use rivet_rtos.Preempt.Handle.{find}
use rivet_rtos.Preempt.StackPool.{Section, Slice, Pool, alloc_stack}
use rivet_rtos.Preempt.Spawn.{
  Port, Entry, spawn_with, with_result, result_of, err, registry_full, Kernel, init_stack, publish,
  spawn, spawn_ptask_impl,
}

module _ (cfg : Config) (hart sp priority base size : ℕ) (s : Sched) where
  register_none :
      free_from cfg.max_ptasks 0 s ≡ none
      → register_full cfg hart sp priority base size s ≡ (none, s)
  unfolding register_full
  register_none full = rw (full, register_full) refl

module _ (cfg : Config) (port : Port) (hart : ℕ) (sec : Section) (size priority : ℕ) (e : Entry)
    (k : Kernel) {stack : Slice} {pool : Pool}
    (given : alloc_stack sec size k.pool ≡ (some stack, pool))
    (large : port.min_task_stack ≤ stack.len) where
  -- When a large enough stack is given out and the registry has no free slot, spawning fails with
  -- `registry_full`, no task changes, and the pool stays as it is after the allocation and the
  -- writing of the first frame: the stack is not released.
  pub spawn_ptask_impl_leaks :
      (debug_assertions : Bool)
      → free_from cfg.max_ptasks 0 k.sched ≡ none
      → spawn_ptask_impl debug_assertions cfg port hart sec size priority e k
        ≡ (err registry_full, record { sched = k.sched; pool = (init_stack port stack e pool).1 })
  unfolding spawn_ptask_impl spawn_with spawn publish with_result result_of
  spawn_ptask_impl_leaks debug_assertions full =
      let enough : ltb stack.len port.min_task_stack ≡ false = ground arith in
      let (sp, _) = init_stack port stack e pool in
      rw (given, enough, register_none cfg hart sp priority stack.addr stack.len k.sched full) refl

  -- What a call that succeeds has done with the slot `id`.
  pub record Running (id : ℕ) (k' : Kernel) : Type 0 where
    pub holds :
        k'.sched.tasks id
        ≡ record (occupied
            (init_stack port stack e pool).0
            priority
            stack.addr
            stack.len
            (k.sched.tasks id)) { result_size = e.size_of % 2 ^ 8; result_drop = e.drop_fn }
    pub others : (j : ℕ) → j ≢ id → k'.sched.tasks j ≡ k.sched.tasks j
    pub consistent : IsConsistent cfg k'.sched
    pub stored : k'.pool ≡ (init_stack port stack e pool).1
    pub valid :
        find cfg (record { id = id; generation = (k'.sched.tasks id).generation }) k'.sched
        ≡ some (k'.sched.tasks id)
