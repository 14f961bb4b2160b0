-- ===== src/Sync/Signal.antt =====
-- `rivet/src/sync/signal.rs`: a latch with one waiter.
use rivet_rtos.Base.{
  ℕ, Bool, true, false, ◌&&◌, Option, none, some, List, [], ◌≡◌, if◌then◌else◌, suc, ◌==◌,
}
use rivet_rtos.Config.{Config}
use rivet_rtos.Coop.TaskId.{TaskId}
use rivet_rtos.Coop.Waker.{Waker, wake_task}
use rivet_rtos.Preempt.Sched.{Effect}
use rivet_rtos.Sync.Semaphore.{Poll, ready, pending, panics}
pub mod Laws
pub mod Wakeup

-- `NO_WAITER` is `none`.
pub record Signal : Type 0 where
  pub fired : Bool
  pub waiter : Option TaskId

abbrev pub new : Signal
new = record { fired = false; waiter = none }

-- The two accesses of `signal`, which other contexts can come between.
unfoldable pub latch : Signal → Signal
latch s = record s { fired = true }

unfoldable pub swap_waiter : Option TaskId → Signal → Option TaskId × Signal
swap_waiter id s = (s.waiter, record s { waiter = id })

unfoldable pub wake_waiter : Config → ℕ → Option TaskId → Waker → Waker × List Effect
wake_waiter cfg hart none w = (w, [])
wake_waiter cfg hart (some id) w = wake_task cfg hart id w

unfoldable pub signal : Config → ℕ → Signal → Waker → Signal × Waker × List Effect
signal cfg hart s w =
    let (claimed, s') = swap_waiter none (latch s) in
    let woken = wake_waiter cfg hart claimed w in (s', woken.0, woken.1)

unfoldable pub try_take : Signal → Bool × Signal
try_take s = (s.fired, record s { fired = false })

unfoldable pub reset : Signal → Signal
reset s = record s { fired = false }

-- `Wait`: the task that it is registered for.
abbrev pub Wait : Type 0
Wait = Option TaskId

unfoldable pub is_some : Option TaskId → Bool
is_some none = false
is_some (some id) = true

-- The store of `NO_WAITER` by a future that is registered.
unfoldable pub unregister : Wait → Signal → Signal
unregister none s = s
unregister (some id) s = record s { waiter = none }

unfoldable pub drop_wait : Wait → Signal → Signal
drop_wait registered s = unregister registered s

-- One poll with no other context in between. With debug assertions a waiter that is registered
-- already stops the program.
unfoldable pub poll : Bool → Option TaskId → Wait → Signal → Poll × Wait × Signal
poll debug_assertions current registered s =
    let (fired, s1) = try_take s in
    if fired then (ready, registered, s1) else elim current [
      | none ↦ (panics, registered, s1)
      | some id ↦
          let (prev, s2) = swap_waiter (some id) s1 in
          let (again, s3) = try_take s2 in
          if debug_assertions && is_some prev
          then (panics, registered, s2)
          else (if again then (ready, none, unregister (some id) s3) else (pending, some id, s3))
    ]
