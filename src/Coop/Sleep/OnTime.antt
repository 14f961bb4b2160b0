-- ===== src/Coop/Sleep/OnTime.antt =====
-- `Sleep` of `rivet/src/time.rs`: when a sleep ends, and what it leaves in the timer.
use rivet_rtos.Base.{
  ℕ, ◌+◌, ◌^◌, ◌≤◌, ◌<◌, ◌≡◌, refl, ap, sym, false, Option, none, some, arith, inl, inr, ◌==◌, leb,
  Bool-cases,
}
use mathlib.Core.Logic.{◌↔◌}
use rivet_rtos.Coop.TaskId.{TaskId}
use rivet_rtos.Sync.Semaphore.{ready, pending}
use rivet_rtos.Timer.{TimerHandle, Timers, register_deadline}
use rivet_rtos.Timer.Slots.{cancel-register, deadlines}
use rivet_rtos.Coop.Sleep.{Sleep, new, wake_time, registered, first_poll, poll, drop_sleep}

wake_time_lem :
    (micros now : ℕ)
    → now + micros < 2 ^ 64
    → 0 < now + micros
    → wake_time micros now ≡ now + micros
unfolding wake_time
wake_time_lem micros now h pos = ground arith

-- What a first poll that is pending has done.
record Waiting (micros t0 : ℕ) (id : TaskId) (timers : Timers) (s : Sleep) (timers' : Timers)
    : Type 0 where
  pub handle : TimerHandle
  pub sleep : s ≡ record { deadline = wake_time micros t0; slot = some handle }
  pub registration : (register_deadline (wake_time micros t0) id timers).0 ≡ some handle
  pub table : timers' ≡ (register_deadline (wake_time micros t0) id timers).1
  pub later : t0 < wake_time micros t0

module _ (micros t0 : ℕ) (id : TaskId) (timers : Timers)
    (waits : (poll micros t0 (some id) new timers).0 ≡ pending) where
  registered-Waiting :
      (r : Option TimerHandle × Timers)
      → r ≡ register_deadline (wake_time micros t0) id timers
      → (registered t0 (wake_time micros t0) r).0 ≡ pending
      → Waiting micros t0 id timers
          (registered t0 (wake_time micros t0) r).1
          (registered t0 (wake_time micros t0) r).2
  unfolding registered
  registered-Waiting (none, t) e h = cc
  registered-Waiting (some handle, t) e h = record {
    handle = handle;
    sleep = refl;
    registration = sym (ap (λ r. r.0) e);
    table = ap (λ r. r.1) e;
    later = ground arith;
  }

  first :
      Waiting micros t0 id timers
        (poll micros t0 (some id) new timers).1
        (poll micros t0 (some id) new timers).2
  unfolding poll first_poll
  first = registered-Waiting (register_deadline (wake_time micros t0) id timers) refl waits

  second :
      (t : ℕ) (current : Option TaskId) (timers' : Timers) (h : TimerHandle)
      → wake_time micros t0 ≡ t0 + micros
      → (wake_time micros t0 == 0) ≡ false
      → ((poll micros t current
            (record { deadline = wake_time micros t0; slot = some h })
            timers').0
          ≡ ready)
        ↔ (t0 + micros ≤ t)
  unfolding poll
  second t current timers' h d nonzero = elim (Bool-cases (leb (wake_time micros t0) t)) [
    | inl past ↦ rw (nonzero, past) (λ _. ground (arith, d), λ _. refl)
    | inr future ↦ rw (nonzero, future) (λ e. cc, λ le. ground (arith, d))
  ]

  drop_lem :
      (h : TimerHandle)
      → (register_deadline (wake_time micros t0) id timers).0 ≡ some h
      → deadlines
          (drop_sleep
            (record { deadline = wake_time micros t0; slot = some h })
            (register_deadline (wake_time micros t0) id timers).1).slots
        ≡ deadlines timers.slots
  unfolding drop_sleep
  drop_lem h e = (cancel-register (wake_time micros t0) id timers h e).1

  -- When the first poll of a sleep of `micros` at time `t0` waits, and `t0 + micros` is positive
  -- and below 2^64, a later poll at time `t` is ready exactly when `t` is at least `t0 + micros`,
  -- and a drop right after the first poll gives the slots of the timer their deadlines back.
  pub poll-OnTime :
      t0 + micros < 2 ^ 64
      → 0 < t0 + micros
      → ((t : ℕ) (current : Option TaskId) (timers' : Timers)
          → ((poll micros t current (poll micros t0 (some id) new timers).1 timers').0 ≡ ready)
            ↔ (t0 + micros ≤ t))
        × (deadlines
              (drop_sleep
                (poll micros t0 (some id) new timers).1
                (poll micros t0 (some id) new timers).2).slots
            ≡ deadlines timers.slots)
  poll-OnTime small pos =
      let f = first in
      let d = wake_time_lem micros t0 small pos in
      let nonzero : (wake_time micros t0 == 0) ≡ false = ground (arith, d) in
      (
        λ t current timers'. rw f.sleep (second t current timers' f.handle d nonzero),
        rw (f.sleep, f.table) (drop_lem f.handle f.registration),
      )
