-- ===== src/Examples/Locks.antt =====
-- The theorems on the mutex, at a contended lock.
use rivet_rtos.Base.{◌≤◌, ◌≡◌, refl, false, none, arith}
use rivet_rtos.Config.{default}
use rivet_rtos.Preempt.Tcb.{RawState, remove_held, push_held, fill_slot}
use rivet_rtos.Preempt.Sched.{
  get, ready_add, wake_other_harts, set_task, set_current, emit, block_current, set_state,
  ready_remove, dequeue, set_effective_priority, on_effective_priority_change, enqueue,
  is_ready_state,
}
use rivet_rtos.Preempt.Tcb.{state_of}
use rivet_rtos.Preempt.Registry.{register_full, free_from, occupied, drop_old}
use rivet_rtos.Mutex.{
  System, waits, try_acquire_guarded, lock_slow, unlock, clear_waiters, boost, boost_holder,
  add_waiter, add_to, arm,
}
use rivet_rtos.Mutex.Lock.{
  Exclusive, try_acquire_guarded-Exclusive, lock_slow-inherits, lock_slow-stuck,
}
use rivet_rtos.Mutex.Inherit.{IsInherited}
use rivet_rtos.Mutex.Unlock.{unlock-wakes, unlock-IsInherited}
use rivet_rtos.Examples.{two, system_of}

-- Task 1 runs on hart 0.
abbrev free : System
free = system_of (set_current 0 1 two)

try_acquire_guarded-Exclusive_example : Exclusive 7 0 free (try_acquire_guarded default 7 0 free).1
unfolding register_full free_from ready_add wake_other_harts set_task occupied drop_old get
    set_current try_acquire_guarded push_held fill_slot
try_acquire_guarded-Exclusive_example = try_acquire_guarded-Exclusive default 7 0 free refl

-- Task 0 holds the mutex.
abbrev owned : System
owned = (try_acquire_guarded default 7 0 free).1

lock_slow-inherits_example :
    ((lock_slow default 0 7 1 none owned).0 ≡ waits)
    × (5 ≤ ((lock_slow default 0 7 1 none owned).1.kernel.sched.tasks 0).effective_priority)
    × (((lock_slow default 0 7 1 none owned).1.kernel.sched.tasks 1).state ≡ RawState.blocked)
unfolding register_full free_from ready_add wake_other_harts set_task occupied drop_old get
    set_current try_acquire_guarded push_held fill_slot
lock_slow-inherits_example = lock_slow-inherits default 0 7 1 0 none owned refl refl refl refl refl

-- Task 1 waits for it.
abbrev contended : System
contended = (lock_slow default 0 7 1 none owned).1

unlock-wakes_example :
    (((unlock default 0 7 contended).kernel.sched.tasks 1).state ≡ RawState.ready)
    × ((unlock default 0 7 contended).mutexes 7 ≡ record (contended.mutexes 7) {
      locked = false;
      owner = none;
      waiters = clear_waiters (contended.mutexes 7).waiters;
    })
unfolding register_full free_from ready_add wake_other_harts set_task occupied drop_old get
    set_current try_acquire_guarded push_held fill_slot lock_slow boost boost_holder add_waiter
    add_to arm set_effective_priority on_effective_priority_change is_ready_state state_of enqueue
    dequeue emit block_current set_state ready_remove
unlock-wakes_example = unlock-wakes default 0 7 contended 1 (omega arith) refl (0, refl)

unlock-IsInherited_example :
    IsInherited default contended
      (remove_held 7 (contended.kernel.sched.tasks 0)).held
      (remove_held 7 (contended.kernel.sched.tasks 0)).base_priority
      ((unlock default 0 7 contended).kernel.sched.tasks 0).effective_priority
unfolding register_full free_from ready_add wake_other_harts set_task occupied drop_old get
    set_current try_acquire_guarded push_held fill_slot lock_slow boost boost_holder add_waiter
    add_to arm set_effective_priority on_effective_priority_change is_ready_state state_of enqueue
    dequeue emit block_current set_state ready_remove
unlock-IsInherited_example = unlock-IsInherited default 0 7 contended 0 refl refl

-- Task 1 holds as many mutexes as its list has slots.
abbrev loaded : System
loaded = system_of (set_task 1 (record (two.tasks 1) { held_count = 4 }) (set_current 0 1 two))

lock_slow-stuck_example :
    ((lock_slow default 0 7 1 none loaded).0 ≡ waits)
    × (((lock_slow default 0 7 1 none loaded).1.mutexes 7).locked ≡ false)
    × (((lock_slow default 0 7 1 none loaded).1.mutexes 7).owner ≡ none)
    × (((lock_slow default 0 7 1 none loaded).1.kernel.sched.tasks 1).state ≡ RawState.blocked)
unfolding register_full free_from ready_add wake_other_harts set_task occupied drop_old get
    set_current
lock_slow-stuck_example =
    lock_slow-stuck default 0 7 1 none loaded refl refl refl (omega arith) refl
