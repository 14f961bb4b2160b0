-- ===== src/Examples/Tasks.antt =====
-- The theorems on the preemptive tier, at concrete kernels.
use rivet_rtos.Base.{ℕ, ◌≡◌, refl, true, false, none, some, arith, ◌⊎◌}
use rivet_rtos.Config.{default, default-IsValid}
use rivet_rtos.Word.{bit}
use rivet_rtos.Preempt.Tcb
use rivet_rtos.Preempt.Tcb.{Tcb, TaskState, RawState}
use rivet_rtos.Preempt.Sched.{
  Sched, get, ready_add, ready_remove, dequeue, wake_other_harts, block_current, set_current,
  set_task, schedule, set_state, set_effective_priority,
}
use rivet_rtos.Preempt.Sched.Invariant.{IsConsistent}
use rivet_rtos.Preempt.Sched.Select.{Outcome}
use rivet_rtos.Preempt.Sched.Heal.{schedule-Outcome}
use rivet_rtos.Preempt.Sched.Choice.{runnable, IsBest, schedule-IsBest}
use rivet_rtos.Preempt.Sched.Fairness.{dispatched, wrapped_starves}
use rivet_rtos.Preempt.Registry.{register_full, free_from, occupied, drop_old}
use rivet_rtos.Preempt.Registry.Laws.{Registered, register_full-Registered}
use rivet_rtos.Preempt.Handle.{pause, resume, despawn, task_exit, join_wait}
use rivet_rtos.Preempt.Handle.Queues.{handle-IsConsistent, boosted_paused_queued}
use rivet_rtos.Preempt.Handle.Exit.{task_exit-joins}
use rivet_rtos.Dispatch.{sched_of, on_tick, save_running, overflowed}
use rivet_rtos.Dispatch.Consistent.{on_tick-IsConsistent}
use rivet_rtos.Dispatch.Choice.{on_tick-switches}
use rivet_rtos.Examples.{
  boot, two, two-eq, one-IsConsistent, two-IsConsistent, parked, parked-IsConsistent, machine_of,
}

schedule-IsBest_example :
    ((schedule default two ≡ (none, two)) × ((i : ℕ) → runnable default two i ≡ false))
    ⊎ ((i : ℕ) × (schedule default two ≡ (some i, two)) × IsBest default two i)
unfolding register_full free_from ready_add wake_other_harts set_task occupied drop_old get
schedule-IsBest_example = schedule-IsBest default two two-IsConsistent (λ i h. omega arith)

-- The bitmap has a stale bit.
abbrev stale : Sched
stale = record boot { ready_bitmap = 4 }

schedule-Outcome_example :
    Outcome default stale.dispatch_seq stale.queues (schedule default stale).0
schedule-Outcome_example = schedule-Outcome default stale (omega arith) (λ p h ne. absurd (ne refl))

on_tick-switches_example :
    (i : ℕ) × IsBest default (save_running default 4000 0 parked) i
    × ((sched_of (on_tick default 0 4000 (λ _. 2863311530) 200 50 (machine_of parked)).1).current 0
        ≡ some i)
    × (((sched_of (on_tick default 0 4000 (λ _. 2863311530) 200 50 (machine_of parked)).1).tasks
          i).state
        ≡ RawState.running)
unfolding register_full free_from ready_add wake_other_harts set_task occupied drop_old get
    block_current set_state set_current ready_remove dequeue save_running overflowed
on_tick-switches_example =
    on_tick-switches default default-IsValid 0 4000 (λ _. 2863311530) 200 50 0 (machine_of parked) 1
      parked-IsConsistent (λ i h. omega arith) refl refl refl refl refl

on_tick-IsConsistent_example :
    IsConsistent default (sched_of (on_tick default 0 4000 (λ _. 0) 200 50 (machine_of parked)).1)
on_tick-IsConsistent_example =
    on_tick-IsConsistent default default-IsValid 0 4000 (λ _. 0) 200 50 (machine_of parked)
      parked-IsConsistent

register_full-Registered_example : Registered default 0 8192 5 2048 512 one-IsConsistent 1 two
register_full-Registered_example =
    register_full-Registered default 0 8192 5 2048 512 one-IsConsistent default-IsValid
      (omega arith) two-eq

-- Every slot is in use.
abbrev pub full : Sched
full = record boot {
  tasks = λ _. record (Tcb.new default) { used = true; state = RawState.blocked };
}

handle-IsConsistent_example :
    IsConsistent default (pause default (record { id = 1; generation = 1 }) two).1
    × IsConsistent default (resume default 0 (record { id = 1; generation = 1 }) two).1
    × IsConsistent default (despawn default 0 (record { id = 1; generation = 1 }) two).1
handle-IsConsistent_example =
    handle-IsConsistent default default-IsValid 0 (record { id = 1; generation = 1 }) two
      two-IsConsistent

-- Task 0 exits while task 1 waits for it.
abbrev joined : Sched
joined =
    set_task 0 (record (two.tasks 0) { joiner = some 1; state = RawState.running })
      (set_task 1 (record (two.tasks 1) { state = RawState.blocked }) (set_current 0 0 two))

task_exit-joins_example :
    (((task_exit default 0 (λ _. 0) 7 0 joined).tasks 1).state ≡ RawState.ready)
    × (join_wait default 0 0 (task_exit default 0 (λ _. 0) 7 0 joined)
        ≡ (false, task_exit default 0 (λ _. 0) 7 0 joined))
unfolding register_full free_from ready_add wake_other_harts set_task occupied drop_old get
    set_current
task_exit-joins_example =
    task_exit-joins default 0 0 (λ _. 0) 7 0 0 1 joined refl refl refl refl (omega arith) refl

-- Task 0 is paused at priority 3, and boosted to 9.
abbrev paused : Sched
paused = set_task 0 (record (two.tasks 0) { state = RawState.suspended }) two

boosted_paused_queued_example :
    (bit ((set_effective_priority default 0 9 paused).queues 9) 0 ≡ true)
    × (((set_effective_priority default 0 9 paused).tasks 0).state ≡ RawState.suspended)
unfolding register_full free_from ready_add wake_other_harts set_task occupied drop_old get
boosted_paused_queued_example = boosted_paused_queued default 0 9 paused refl refl refl

-- The counter is about to wrap, and task 1 was last dispatched a little before.
abbrev wrapping : Sched
wrapping = record two {
  tasks = λ _. record (two.tasks 0) { used = true };
  dispatch_counter = 4294967295;
  dispatch_seq = λ _. 4294967000;
}

wrapped_starves_example : ¬ IsBest default (dispatched default 0 101 wrapping) 1
unfolding register_full free_from ready_add wake_other_harts set_task occupied drop_old get
wrapped_starves_example =
    wrapped_starves default wrapping 0 1 refl refl (ground arith) refl (omega arith) 100
      (omega arith)
