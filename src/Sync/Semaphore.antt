-- ===== src/Sync/Semaphore.antt =====
-- `rivet/src/sync/semaphore.rs`. Each compare-exchange loop is one step here; Accesses takes
-- the calls apart.
use rivet_rtos.Base.{
  ℕ, zero, suc, ◌+◌, ◌-◌, ◌%◌, ◌^◌, Bool, true, false, Option, none, some, List, [], ◌==◌, leb,
  if◌then◌else◌, Table, update,
}
use Prim.Native.Nat.{bit_and}
use rivet_rtos.Config.{Config}
use rivet_rtos.Word.{set_bit, clear_bit, lowest_bit, complement, trailing_zeros}
use rivet_rtos.Coop.TaskId
use rivet_rtos.Coop.TaskId.{TaskId}
use rivet_rtos.Coop.Waker.{Waker, wake_task}
use rivet_rtos.Preempt.Sched.{Effect}
pub mod Accesses
pub mod Heard
pub mod Laws
pub mod Listed
pub mod LostWakeup
pub mod Tokens

pub record Semaphore : Type 0 where
  pub count : ℕ
  pub waiters : Table ℕ

unfoldable pub new : ℕ → Semaphore
new initial = record { count = initial; waiters = λ _. 0 }

unfoldable pub try_acquire : Semaphore → Bool × Semaphore
try_acquire s = if s.count == 0 then (false, s) else (true, record s { count = s.count - 1 })

-- The waiter that `release` claims among the priorities below `n`, the highest first.
unfoldable pub claim : ℕ → Semaphore → Option TaskId × Semaphore
claim zero s = (none, s)
claim (suc prio) s =
    let q = s.waiters prio in
    let bit = lowest_bit q in
    let rest = claim prio s in
    if q == 0 then rest else (
      some (TaskId.new prio (trailing_zeros bit)),
      record { count = 1; waiters = update s.waiters prio (bit_and q (complement bit)) },
    )

-- The token goes to the claimed task, or is added to the count up to the maximum.
unfoldable pub deliver :
    ℕ → Config → ℕ → Waker → Option TaskId × Semaphore → Semaphore × Waker × List Effect
deliver max cfg hart w (some id, s) = let woken = wake_task cfg hart id w in (s, woken.0, woken.1)
deliver max cfg hart w (none, s) =
    (if leb max s.count then s else record s { count = s.count + 1 }, w, [])

-- The semaphore, and what the call does to the waker.
unfoldable pub release : ℕ → Config → ℕ → Semaphore → Waker → Semaphore × Waker × List Effect
release max cfg hart s w = deliver max cfg hart w (claim 32 s)

-- The shift takes the index modulo 32.
unfoldable pub register_waiter : TaskId → Semaphore → Semaphore
register_waiter id s =
    let p = TaskId.priority id in
    record s { waiters = update s.waiters p (set_bit (s.waiters p) (TaskId.index id % 2 ^ 5)) }

unfoldable pub remove_waiter : TaskId → Semaphore → Semaphore
remove_waiter id s =
    let p = TaskId.priority id in
    record s { waiters = update s.waiters p (clear_bit (s.waiters p) (TaskId.index id % 2 ^ 5)) }

-- `Acquire`: the task that it is registered for.
abbrev pub Acquire : Type 0
Acquire = Option TaskId

pub data Poll : Type 0 where
  ready pending panics : Poll

-- One poll, in the given task. Outside of a task it panics when no token is left.
unfoldable pub poll : Option TaskId → Acquire → Semaphore → Poll × Acquire × Semaphore
poll current registered s =
    let tried = try_acquire s in
    if tried.0 then (ready, registered, tried.1) else elim current [
      | none ↦ (panics, registered, tried.1)
      | some id ↦
          let again = try_acquire (register_waiter id tried.1) in
          if again.0 then (ready, none, remove_waiter id again.1) else (pending, some id, again.1)
    ]

unfoldable pub drop_acquire : Acquire → Semaphore → Semaphore
drop_acquire none s = s
drop_acquire (some id) s = remove_waiter id s
