-- ===== src/Examples/Devices.antt =====
-- The theorems on the cooperative tier, the timers and the accounts, at concrete states.
use rivet_rtos.Base.{
  ℕ, ◌+◌, ◌/◌, ◌%◌, ◌<◌, ◌≡◌, refl, true, false, none, some, List, [], ◌∷◌, arith, ◌⊎◌,
}
use rivet_rtos.Config.{default, default-IsValid}
use rivet_rtos.Word.Laws.{bit-zero}
use rivet_rtos.Coop.TaskId
use rivet_rtos.Coop.TaskId.{TaskId}
use rivet_rtos.Coop.Waker.{mark_ready, next_ready}
use rivet_rtos.Coop.Waker.Laws.{Holds, Next, mark_ready-Holds, next_ready-Next}
use rivet_rtos.Preempt.Sched.Queues.{with_member}
use rivet_rtos.Timer.{Kernel, poll_timers}
use rivet_rtos.Timer.Poll.{Polled, poll_timers-Polled}
use rivet_rtos.Sync.Semaphore.{Semaphore, release}
use rivet_rtos.Sync.Semaphore.Laws.{Released, release-Released}
use rivet_rtos.Sync.Channel.{Channel, empty, value, try_send, try_recv}
use rivet_rtos.Sync.Channel.Fifo.{Represents, done, more, try_send-Represents, try_recv-Represents}
use rivet_rtos.ExecTime.{on_switch}
use rivet_rtos.ExecTime.Total.{IsExact, on_switch-IsExact, total}
use rivet_rtos.Deadlines.{Periods}
use rivet_rtos.Deadlines.Sleep.{waits, waits_no_drift}
use rivet_rtos.Examples.{two, two-IsConsistent, idle_waker, fresh_time, no_periods}

-- The task of priority 2 and index 1.
abbrev task : TaskId
task = 513

pub idle-Holds : Holds idle_waker (λ p i. false)
idle-Holds = record {
  bitmap_word = omega arith;
  words = λ p h. omega arith;
  summary = λ p h. bit-zero p;
  member = λ p i h. bit-zero i;
}

task-IsTask : (513 / 256 % 256 < 32) × (513 % 256 < 32)
task-IsTask = omega arith

woken-Holds : Holds (mark_ready task idle_waker) (with_member 2 1 true (λ p i. false))
unfolding TaskId.priority TaskId.index
woken-Holds =
    mark_ready-Holds idle_waker (λ p i. false) task
      (record { level = omega arith; place = omega arith }) idle-Holds

next_ready-Next_example :
    Next
      (with_member 2 1 true (λ p i. false))
      (next_ready (mark_ready task idle_waker)).0
      (next_ready (mark_ready task idle_waker)).1
next_ready-Next_example =
    next_ready-Next (mark_ready task idle_waker) (with_member 2 1 true (λ p i. false)) woken-Holds

-- One timer slot holds a deadline of the task, one is free; task 1 sleeps until 70.
abbrev sleeping : Kernel
sleeping = record {
  sched = two;
  waker = idle_waker;
  timers = record {
    slots = record { deadline = 50; task = 513 } ∷ record { deadline = 0; task = 0 } ∷ [];
    ptask_deadlines = λ _. 70;
  };
}

poll_timers-Polled_example :
    Polled default 0 60 sleeping (poll_timers default 0 60 sleeping) (λ p i. false)
unfolding TaskId.priority TaskId.index
poll_timers-Polled_example =
    poll_timers-Polled default 0 60 sleeping (λ p i. false) default-IsValid two-IsConsistent
      (
        record { level = omega arith; place = omega arith },
        (record { level = omega arith; place = omega arith }, tt),
      )
      idle-Holds

-- One task waits, and two tokens are left.
abbrev awaited : Semaphore
awaited = record { count = 2; waiters = λ _. 4 }

release-Released_example :
    Released 3 awaited idle_waker
      (release 3 default 0 awaited idle_waker).0
      (release 3 default 0 awaited idle_waker).1
release-Released_example = release-Released 3 default 0 awaited idle_waker (λ p. omega arith)

-- A channel of three slots.
abbrev fresh_channel : Channel ℕ
fresh_channel = record {
  buffer = λ _. none;
  head = 0;
  tail = 0;
  taken = true;
  recv_waiter = none;
  send_waiter = none;
}

fresh-Represents : Represents 3 fresh_channel []
fresh-Represents = record { head_lt = omega arith; fits = omega arith; holds = done }

try_send-Represents_example :
    ((try_send 3 42 fresh_channel ≡ (false, fresh_channel, none)) × (0 + 1 ≡ 3))
    ⊎ (((try_send 3 42 fresh_channel).0 ≡ true)
        × (0 + 1 < 3)
        × Represents 3 (try_send 3 42 fresh_channel).1 (42 ∷ []))
try_send-Represents_example = try_send-Represents 3 42 fresh_channel [] fresh-Represents

abbrev sent_values : List ℕ
sent_values = 42 ∷ []

-- The same channel after a send.
abbrev sent_channel : Channel ℕ
sent_channel = record fresh_channel { buffer = λ _. some 42; tail = 1 }

sent-Represents : Represents 3 sent_channel sent_values
sent-Represents = record { head_lt = omega arith; fits = omega arith; holds = more refl done }

try_recv-Represents_example :
    ((sent_values ≡ [])
      × ((try_recv 3 sent_channel).0 ≡ empty)
      × Represents 3 (try_recv 3 sent_channel).1 sent_values)
    ⊎ ((x : ℕ) × (ys : List ℕ) × (sent_values ≡ x ∷ ys)
        × ((try_recv 3 sent_channel).0 ≡ value x)
        × Represents 3 (try_recv 3 sent_channel).1 ys)
try_recv-Represents_example = try_recv-Represents 3 sent_channel sent_values sent-Represents

on_switch-IsExact_example : IsExact default (on_switch default 350 1 fresh_time)
unfolding total
on_switch-IsExact_example =
    on_switch-IsExact default 350 1 fresh_time (omega arith) (omega arith) refl

-- Task 1 has a period of 500, anchored at 1000.
abbrev periodic : Periods
periodic = record no_periods { period_us = λ _. 500; next_us = λ _. 1000 }

waits_no_drift_example : (waits default 1 (λ _. 7000) (λ _. fresh_time) 3 periodic).next_us 1 ≡ 2500
waits_no_drift_example =
    waits_no_drift default 1 (λ _. 7000) (λ _. fresh_time) 3 periodic (omega arith) (omega arith)
      (omega arith) (omega arith)
