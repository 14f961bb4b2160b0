-- ===== src/Timer/Due.antt =====
-- `poll_timers` of `rivet/src/timer.rs`: the slots that have run out, and the tasks they wake.
use rivet_rtos.Base.{
  ℕ, ◌≡◌, refl, Bool, true, false, ◌&&◌, ◌||◌, ◌==◌, arith, Bool-cases, inl, inr, List, [], ◌∷◌,
}
use rivet_rtos.Preempt.Sched.Queues.{Members, with_member, Queues-ext}
use rivet_rtos.Coop.TaskId
use rivet_rtos.Coop.TaskId.{TaskId}
use rivet_rtos.Coop.Waker.{Waker, mark_ready}
use rivet_rtos.Coop.Waker.Laws.{Holds, IsTask, mark_ready-Holds}
use rivet_rtos.Timer.{TimerSlot, poll_slots, expired}

-- Whether a slot that has run out wakes task `(p, i)`.
abbrev is_due : ℕ → ℕ → ℕ → TimerSlot → Bool
is_due now_us p i slot =
    expired now_us slot.deadline && (TaskId.priority slot.task == p && TaskId.index slot.task == i)

pub due : ℕ → List TimerSlot → ℕ → ℕ → Bool
due now_us [] p i = false
due now_us (slot ∷ slots) p i = is_due now_us p i slot || due now_us slots p i

abbrev pub AllTasks : List TimerSlot → Type 0
AllTasks [] = Unit
AllTasks (slot ∷ slots) = IsTask slot.task × AllTasks slots

abbrev pub NoneExpired : ℕ → List TimerSlot → Type 0
NoneExpired now_us [] = Unit
NoneExpired now_us (slot ∷ slots) =
    (expired now_us slot.deadline ≡ false) × NoneExpired now_us slots

pub poll_slots-NoneExpired :
    (now_us : ℕ) (slots : List TimerSlot) (w : Waker)
    → NoneExpired now_us (poll_slots now_us slots w).1
unfolding poll_slots
poll_slots-NoneExpired now_us [] w = tt
poll_slots-NoneExpired now_us (slot ∷ slots) w = elim (Bool-cases (expired now_us slot.deadline)) [
  | inl e ↦ rw e (refl, poll_slots-NoneExpired now_us slots (mark_ready slot.task w))
  | inr e ↦ rw e (e, poll_slots-NoneExpired now_us slots w)
]

-- Exactly the tasks of the expired slots are added to the ready tasks.
pub poll_slots-Holds :
    (now_us : ℕ) (slots : List TimerSlot) (w : Waker) (R : Members)
    → AllTasks slots
    → Holds w R
    → Holds (poll_slots now_us slots w).2 (λ p i. R p i || due now_us slots p i)
unfolding poll_slots due
poll_slots-Holds now_us [] w R all q = Queues-ext q _ (λ p i hp. ground arith)
poll_slots-Holds now_us (slot ∷ slots) w R all q =
    elim (Bool-cases (expired now_us slot.deadline)) [
      | inl e ↦ rw e (
          Queues-ext
            (poll_slots-Holds now_us slots (mark_ready slot.task w)
              (with_member (TaskId.priority slot.task) (TaskId.index slot.task) true R) all.1
              (mark_ready-Holds w R slot.task all.0 q))
            _ (λ p i hp. ground arith))
      | inr e ↦ rw e (poll_slots-Holds now_us slots w R all.1 q)
    ]
