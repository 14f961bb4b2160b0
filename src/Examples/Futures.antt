-- ===== src/Examples/Futures.antt =====
-- The theorems on the signal, the executor and the sleep, at concrete states.
use rivet_rtos.Base.{
  ℕ, ◌+◌, ◌≤◌, ◌≡◌, ◌≢◌, refl, true, false, none, some, List, [], ◌∷◌, arith, Option, if◌then◌else◌,
  ltb,
}
use mathlib.Core.Logic.{◌↔◌}
use rivet_rtos.Config.{default, default-IsValid}
use rivet_rtos.Coop.TaskId.{TaskId}
use rivet_rtos.Coop.Waker.{Waker}
use rivet_rtos.Coop.TaskCell.{Code}
use rivet_rtos.Coop.Executor.{
  Registry, empty_registry, Rest, init, run_step, undefined, mark_all, add_regs, add_reg, and_then,
}
use rivet_rtos.Coop.Executor.Live.{unfinished_below}
use rivet_rtos.Coop.Executor.Runs as Runs
use rivet_rtos.Coop.Executor.Runs.{started, Reach-polls_live}
use rivet_rtos.Coop.Sleep.{new, poll, first_poll, registered, wake_time, drop_sleep}
use rivet_rtos.Coop.Sleep.OnTime.{poll-OnTime}
use rivet_rtos.Timer.{Timers, register_deadline, register_from}
use rivet_rtos.Timer.Slots.{deadlines}
use rivet_rtos.Sync.Semaphore.{ready, pending}
use rivet_rtos.Sync.Signal.{swap_waiter, try_take, latch, is_some}
use rivet_rtos.Sync.Signal.Wakeup.{
  Run, Reach, start, fire, claim, move, begin, take_first, register, take_second, parked, finish,
  parked-woken,
}
use rivet_rtos.Examples.{idle_waker, no_timers}
use rivet_rtos.Examples.Devices.{idle-Holds}

-- Task 7 has polled its wait, and parks.
abbrev parked_run : Run
parked_run = record {
  sig = record { fired = false; waiter = some 7 };
  task = parked;
  signalling = 0;
  woken = false;
}

parked-Reach : Reach 7 parked_run
unfolding swap_waiter try_take
parked-Reach =
    move (move (move (move start (begin refl)) (take_first refl)) (register refl))
      (take_second refl)

-- A call of `signal` has come and gone.
abbrev woken_run : Run
woken_run = record {
  sig = record { fired = true; waiter = none };
  task = parked;
  signalling = 0;
  woken = true;
}

woken-Reach : Reach 7 woken_run
unfolding swap_waiter latch finish is_some
woken-Reach = move (move parked-Reach fire) (claim refl)

parked-woken_example :
    ((n : ℕ) → (finish n woken_run).woken ≡ true) × (true ≡ true → ◌≡◌ {A = ℕ} 0 0 → true ≡ true)
parked-woken_example = parked-woken woken-Reach refl

-- A future that counts its polls, and is ready at the third.
abbrev counting : Code ℕ (Rest ℕ)
counting = record {
  size_of = 4;
  align_of = 4;
  init = 0;
  poll = λ n rest. if ltb n 2 then (false, n + 1, rest) else (true, n, rest);
}

-- Two tasks, at the priorities 3 and 5.
abbrev regs : List ℕ
regs = 3 ∷ 5 ∷ []

abbrev registry : Registry
registry = elim (add_regs default 0 regs empty_registry) [ none ↦ empty_registry | some r ↦ r ]

abbrev marked : Waker
marked = mark_all 32 registry.count_per_priority idle_waker

init-eq : init default regs (empty_registry, idle_waker) ≡ some (registry, marked)
unfolding init and_then add_regs add_reg
init-eq = refl

two_tasks : Runs.Reach default (λ _. counting) regs (started (λ _. 16) registry marked 0)
two_tasks = Runs.boot idle_waker (λ _. 16) 0 idle-Holds init-eq

Reach-polls_live_example :
    (run_step default (λ _. counting) (started (λ _. 16) registry marked 0) ≢ undefined)
    × (registry.live
        ≡ unfinished_below {F = ℕ} 2 (started {F = ℕ} {W = ℕ} (λ _. 16) registry marked 0).cells)
Reach-polls_live_example =
    Reach-polls_live default default-IsValid (λ _. counting) regs (omega arith) two_tasks

-- A sleep of 500 microseconds that starts at 1000.
sleeps : (poll 500 1000 (some 513) new no_timers).0 ≡ pending
unfolding poll first_poll registered wake_time register_deadline register_from
sleeps = refl

poll-OnTime_example :
    ((t : ℕ) (current : Option TaskId) (timers' : Timers)
      → ((poll 500 t current (poll 500 1000 (some 513) new no_timers).1 timers').0 ≡ ready)
        ↔ (1500 ≤ t))
    × (deadlines
          (drop_sleep
            (poll 500 1000 (some 513) new no_timers).1
            (poll 500 1000 (some 513) new no_timers).2).slots
        ≡ deadlines no_timers.slots)
poll-OnTime_example = poll-OnTime 500 1000 513 no_timers sleeps (omega arith) (omega arith)
