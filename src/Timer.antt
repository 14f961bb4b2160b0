-- ===== src/Timer.antt =====
-- `rivet/src/timer.rs`: the deadlines of cooperative sleeps and of blocked preemptive tasks.
use rivet_rtos.Base.{
  ℕ, zero, suc, ◌+◌, Bool, true, false, not, ◌&&◌, ◌||◌, Option, none, some, List, [], ◌∷◌, ◌++◌,
  ◌==◌, ltb, leb, if◌then◌else◌, Table, update, get_elem?, set,
}
use rivet_rtos.Config.{Config}
use rivet_rtos.Coop.TaskId.{TaskId}
use rivet_rtos.Coop.Waker.{Waker, mark_ready, broadcast_reschedule}
use rivet_rtos.Preempt.Sched.{Sched, unblock}
pub mod Slots
pub mod Due
pub mod Poll
pub mod Woken

-- A deadline in microseconds, 0 when the slot is not used.
pub record TimerSlot : Type 0 where
  pub deadline : ℕ
  pub task : TaskId

pub record TimerHandle : Type 0 where
  pub slot : ℕ
  pub deadline : ℕ

-- `TIMER_SLOTS` and `PTASK_DEADLINES`.
pub record Timers : Type 0 where
  pub slots : List TimerSlot
  pub ptask_deadlines : Table ℕ

-- The first unused slot takes the deadline. `none` is `TimerQueueFull`.
unfoldable pub register_from : ℕ → ℕ → TaskId → List TimerSlot → Option TimerHandle × List TimerSlot
register_from i deadline_us task [] = (none, [])
register_from i deadline_us task (slot ∷ slots) =
    let rest = register_from (i + 1) deadline_us task slots in
    if slot.deadline == 0
    then (
      some (record { slot = i; deadline = deadline_us }),
      record { deadline = deadline_us; task = task } ∷ slots,
    )
    else (rest.0, slot ∷ rest.1)

unfoldable pub register_deadline : ℕ → TaskId → Timers → Option TimerHandle × Timers
register_deadline deadline_us task t =
    let r = register_from 0 deadline_us task t.slots in (r.0, record t { slots = r.1 })

-- A slot is freed only if it still holds the deadline of the handle.
unfoldable pub cancel_deadline : TimerHandle → Timers → Timers
cancel_deadline handle t = elim (get_elem? t.slots handle.slot) [
  | none ↦ t
  | some slot ↦
      if slot.deadline == handle.deadline
      then record t { slots = set t.slots handle.slot (record slot { deadline = 0 }) }
      else t
]

abbrev pub expired : ℕ → ℕ → Bool
expired now_us d = not (d == 0) && leb d now_us

-- The scan of `poll_timers`: the expired slots are freed and their tasks marked ready.
unfoldable pub poll_slots : ℕ → List TimerSlot → Waker → Bool × List TimerSlot × Waker
poll_slots now_us [] w = (false, [], w)
poll_slots now_us (slot ∷ slots) w =
    let late = expired now_us slot.deadline in
    let rest = poll_slots now_us slots (if late then mark_ready slot.task w else w) in
    (late || rest.0, (if late then record slot { deadline = 0 } else slot) ∷ rest.1, rest.2)

-- What an interrupt of the timer works on.
pub record Kernel : Type 0 where
  pub sched : Sched
  pub waker : Waker
  pub timers : Timers

unfoldable pub broadcast : Config → ℕ → Sched → Sched
broadcast cfg hart s = record s { effects = s.effects ++ broadcast_reschedule cfg hart }

-- `none` is `TimerQueueFull`, for an id that is no task's.
unfoldable pub register_ptask_deadline : Config → ℕ → ℕ → Timers → Option Timers
register_ptask_deadline cfg deadline_us task t =
    if ltb task cfg.max_ptasks
    then some (record t { ptask_deadlines = update t.ptask_deadlines task deadline_us })
    else none

unfoldable pub cancel_ptask_deadline : Config → ℕ → Timers → Timers
cancel_ptask_deadline cfg task t =
    if ltb task cfg.max_ptasks
    then record t { ptask_deadlines = update t.ptask_deadlines task 0 }
    else t

-- One task of the scan of `poll_ptask_deadlines`.
unfoldable pub poll_ptask : Config → ℕ → ℕ → ℕ → Kernel → Kernel
poll_ptask cfg hart now_us task k =
    if expired now_us (k.timers.ptask_deadlines task)
    then record k {
      timers = record (k.timers) { ptask_deadlines = update k.timers.ptask_deadlines task 0 };
      sched = unblock cfg hart task k.sched;
    }
    else k

-- The scan over the `n` tasks from `task` on, with whether one was woken.
unfoldable pub poll_ptasks : Config → ℕ → ℕ → ℕ → ℕ → Kernel → Bool × Kernel
poll_ptasks cfg hart now_us zero task k = (false, k)
poll_ptasks cfg hart now_us (suc n) task k =
    let late = expired now_us (k.timers.ptask_deadlines task) in
    let rest = poll_ptasks cfg hart now_us n (task + 1) (poll_ptask cfg hart now_us task k) in
    (late || rest.0, rest.1)

unfoldable pub poll_ptask_deadlines : Config → ℕ → ℕ → Kernel → Kernel
poll_ptask_deadlines cfg hart now_us k =
    let r = poll_ptasks cfg hart now_us cfg.max_ptasks 0 k in
    if r.0 then record (r.1) { sched = broadcast cfg hart r.1.sched } else r.1

unfoldable pub poll_timers : Config → ℕ → ℕ → Kernel → Kernel
poll_timers cfg hart now_us k =
    let r = poll_slots now_us k.timers.slots k.waker in
    let k' = record k {
      timers = record (k.timers) { slots = r.1 };
      waker = r.2;
      sched = if r.0 then broadcast cfg hart k.sched else k.sched;
    } in
    poll_ptask_deadlines cfg hart now_us k'
