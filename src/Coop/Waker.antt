-- ===== src/Coop/Waker.antt =====
-- `rivet/src/waker.rs`: the bitmaps of ready cooperative tasks.
use rivet_rtos.Base.{
  ℕ, zero, suc, ◌+◌, ◌-◌, ◌%◌, ◌^◌, Bool, true, false, not, ◌||◌, Option, none, some, List, [],
  ◌++◌, ◌==◌, ltb, if◌then◌else◌, Table, update,
}
use rivet_rtos.Config.{Config}
use rivet_rtos.Word.{set_bit, clear_bit, lowest_bit, complement, trailing_zeros, leading_zeros}
use Prim.Native.Nat.{bit_and}
use rivet_rtos.Coop.TaskId
use rivet_rtos.Coop.TaskId.{TaskId}
use rivet_rtos.Preempt.Sched.{Effect, others}
pub mod Laws
pub mod Race

pub record Waker : Type 0 where
  pub ready_bitmap : ℕ
  pub queues : Table ℕ
  -- `EXECUTOR_PEND_FLAG`
  pub pend : ℕ

unfoldable pub reset : Waker → Waker
reset w = record { ready_bitmap = 0; queues = λ _. 0; pend = 0 }

unfoldable pub mark_ready : TaskId → Waker → Waker
mark_ready id w =
    let prio = TaskId.priority id in
    record {
      ready_bitmap = set_bit w.ready_bitmap prio;
      queues = update w.queues prio (set_bit (w.queues prio) (TaskId.index id % 2 ^ 5));
      pend = 1;
    }

unfoldable pub has_pending : Waker → Bool
has_pending w = not (w.pend == 0) || not (w.ready_bitmap == 0)

unfoldable pub clear_pend : Waker → Waker
clear_pend w = record w { pend = 0 }

unfoldable pub next_ready : Waker → Option TaskId × Waker
next_ready w =
    let prio = 31 - leading_zeros w.ready_bitmap in
    let queue = w.queues prio in
    let bit = lowest_bit queue in
    let index = trailing_zeros bit in
    let left = record w {
      queues = update w.queues prio (bit_and queue (complement bit));
      ready_bitmap = if queue == bit then clear_bit w.ready_bitmap prio else w.ready_bitmap;
    } in
    if w.ready_bitmap == 0
    then (none, w)
    else (if queue == 0
        then (none, record w { ready_bitmap = clear_bit w.ready_bitmap prio })
        else (some (TaskId.new prio index), left))

-- `next_ready`, where `other` is what another context does between the `fetch_and` of the queue and
-- that of the bitmap.
unfoldable pub next_ready_around : (Waker → Waker) → Waker → Option TaskId × Waker
next_ready_around other w =
    let prio = 31 - leading_zeros w.ready_bitmap in
    let queue = w.queues prio in
    let bit = lowest_bit queue in
    let index = trailing_zeros bit in
    let left =
      other (record w { queues = update w.queues prio (bit_and queue (complement bit)) }) in
    if w.ready_bitmap == 0
    then (none, w)
    else (if queue == 0
        then (none, record w { ready_bitmap = clear_bit w.ready_bitmap prio })
        else (
          some (TaskId.new prio index),
          if queue == bit
              then record left { ready_bitmap = clear_bit left.ready_bitmap prio }
              else left,
        ))

-- The reschedule requests of `broadcast_reschedule`: one for each other hart.
unfoldable pub broadcast_reschedule : Config → ℕ → List Effect
broadcast_reschedule cfg hart = others hart cfg.max_harts

unfoldable pub wake_task : Config → ℕ → TaskId → Waker → Waker × List Effect
wake_task cfg hart id w = (mark_ready id w, broadcast_reschedule cfg hart)
