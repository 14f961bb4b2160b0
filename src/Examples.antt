-- ===== src/Examples.antt =====
-- Concrete kernels for the tests: two registered tasks, and what they do next.
use rivet_rtos.Base.{
  ℕ, ◌^◌, ◌<◌, ◌≡◌, refl, Bool, true, false, Option, none, some, List, [], ◌==◌, arith, replicate,
}
use rivet_rtos.Config
use rivet_rtos.Config.{Config, default, default-IsValid}
use rivet_rtos.Word.{bits, bit}
use rivet_rtos.Word.Laws.{bit-zero}
use rivet_rtos.Preempt.Tcb
use rivet_rtos.Preempt.Tcb.{Tcb, RawState}
use rivet_rtos.Preempt.Sched.{
  Sched, set_current, block_current, ready_add, wake_other_harts, set_task, emit,
}
use rivet_rtos.Preempt.Sched.Invariant.{IsConsistent}
use rivet_rtos.Preempt.Sched.Transitions.{block_current-IsConsistent}
use rivet_rtos.Preempt.Registry.{register_full, free_from, occupied, drop_old}
use rivet_rtos.Preempt.Registry.Laws.{Registered, register_full-Registered}
use rivet_rtos.Coop.Waker.{Waker}
use rivet_rtos.Timer.{Kernel, Timers, TimerSlot}
use rivet_rtos.Mutex
use rivet_rtos.Mutex.{System}
use rivet_rtos.ExecTime.{ExecTime}
use rivet_rtos.Deadlines.{Periods}
use rivet_rtos.Dispatch.{Machine}
pub mod Tasks
pub mod Locks
pub mod Devices
pub mod Stacks
pub mod Futures
pub mod Output
pub mod Rings

abbrev pub boot : Sched
boot = record {
  ready_bitmap = 0;
  queues = λ _. 0;
  current = λ _. none;
  dispatch_counter = 0;
  dispatch_seq = λ _. 0;
  tasks = λ _. Tcb.new default;
  effects = [];
}

pub boot-IsConsistent : IsConsistent default boot
boot-IsConsistent = record {
  queued = record {
    bitmap_word = omega arith;
    words = λ p h. omega arith;
    summary = λ p h. bit-zero p;
    member = λ p i h. ground (arith, bit-zero i);
  };
  levels = λ i h. omega arith;
}

-- Task 0 at priority 3, and task 1 at priority 5.
abbrev pub one : Sched
one = (register_full default 0 4096 3 1024 512 boot).1

abbrev pub two : Sched
two = (register_full default 0 8192 5 2048 512 one).1

one-eq : register_full default 0 4096 3 1024 512 boot ≡ (some 0, one)
unfolding register_full free_from
one-eq = refl

pub two-eq : register_full default 0 8192 5 2048 512 one ≡ (some 1, two)
unfolding register_full free_from drop_old emit set_task occupied ready_add wake_other_harts
two-eq = refl

pub one-IsConsistent : IsConsistent default one
one-IsConsistent =
    (register_full-Registered default 0 4096 3 1024 512 boot-IsConsistent default-IsValid
      (omega arith) one-eq).consistent

pub two-IsConsistent : IsConsistent default two
two-IsConsistent =
    (register_full-Registered default 0 8192 5 2048 512 one-IsConsistent default-IsValid
      (omega arith) two-eq).consistent

-- Task 0 runs on hart 0, and blocks itself.
abbrev pub parked : Sched
parked = block_current default 0 (set_current 0 0 two)

current-IsConsistent : IsConsistent default (set_current 0 0 two)
unfolding set_current
current-IsConsistent = record { queued = two-IsConsistent.queued; levels = two-IsConsistent.levels }

pub parked-IsConsistent : IsConsistent default parked
parked-IsConsistent = block_current-IsConsistent default default-IsValid current-IsConsistent 0

abbrev pub no_timers : Timers
no_timers = record {
  slots = replicate 2 (record { deadline = 0; task = 0 });
  ptask_deadlines = λ _. 0;
}

abbrev pub idle_waker : Waker
idle_waker = record { ready_bitmap = 0; queues = λ _. 0; pend = 0 }

abbrev pub system_of : Sched → System
system_of s = record {
  kernel = record { sched = s; waker = idle_waker; timers = no_timers };
  mutexes = λ _. Mutex.new default;
}

abbrev pub fresh_time : ExecTime
fresh_time = record {
  busy = λ _. 0;
  last_dispatch = 100;
  boot_cycle = 100;
  wallclock_boot_us = 0;
  started = true;
}

abbrev pub no_periods : Periods
no_periods = record {
  period_us = λ _. 0;
  budget_us = λ _. 0;
  next_us = λ _. 0;
  budget_start_cycles = λ _. 0;
}

abbrev pub machine_of : Sched → Machine
machine_of s = record {
  system = system_of s;
  exec_time = fresh_time;
  periods = no_periods;
  isolates = true;
  has_hook = false;
}
