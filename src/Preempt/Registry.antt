-- ===== src/Preempt/Registry.antt =====
-- `register_full` and `register` of `rivet/src/preempt/tcb.rs`.
use rivet_rtos.Base.{
  ℕ, zero, suc, ◌+◌, ◌%◌, ◌^◌, Bool, true, false, Option, none, some, ◌==◌, if◌then◌else◌,
}
use rivet_rtos.Config.{Config}
use rivet_rtos.Preempt.Tcb.{Tcb, RawState}
use rivet_rtos.Preempt.Sched.{Sched, drop_result, set_task, emit, ready_add}
use rivet_rtos.Preempt.Sched.Invariant.{is_ready}
pub mod Laws

-- `used` is false, and the compare-exchange of the state from READY to RESERVED succeeds.
abbrev pub is_free : Tcb → Bool
is_free t = if t.used then false else is_ready t.state

-- The first free slot among the `n` from `id` on.
unfoldable pub free_from : ℕ → ℕ → Sched → Option ℕ
free_from zero id s = none
free_from (suc n) id s =
    let rest = free_from n (id + 1) s in if is_free (s.tasks id) then some id else rest

-- The record that a task starts with, in a slot that held `t`. The held list, the result's bytes
-- and the time of the last check-in stay as they were.
unfoldable pub occupied : ℕ → ℕ → ℕ → ℕ → Tcb → Tcb
occupied sp priority stack_base stack_size t = record t {
  sp = sp;
  base_priority = priority;
  effective_priority = priority;
  stack_base = stack_base;
  stack_size = stack_size;
  result_drop = 0;
  joiner = none;
  exited = false;
  stop_requested = false;
  result_size = 0;
  held_count = 0;
  state = RawState.ready;
  used = true;
  generation = (t.generation + 1) % 2 ^ 32;
}

-- The drop function of a result that the slot still holds is called.
unfoldable pub drop_old : ℕ → Sched → Sched
drop_old id s =
    if (s.tasks id).result_drop == 0 then s else emit (drop_result (s.tasks id).result_drop id) s

module _ (cfg : Config) where
  unfoldable pub register_full : ℕ → ℕ → ℕ → ℕ → ℕ → Sched → Option ℕ × Sched
  register_full hart sp priority stack_base stack_size s = elim (free_from cfg.max_ptasks 0 s) [
    | none ↦ (none, s)
    | some id ↦ (
      some id,
      ready_add cfg hart id
          (set_task id (occupied sp priority stack_base stack_size (s.tasks id)) (drop_old id s)),
    )
  ]

  unfoldable pub register : ℕ → ℕ → ℕ → Sched → Option ℕ × Sched
  register hart sp priority s = register_full hart sp priority 0 0 s
