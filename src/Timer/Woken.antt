-- ===== src/Timer/Woken.antt =====
-- `poll_timers` of `rivet/src/timer.rs`: the slots it keeps, and the preemptive tasks it wakes.
use rivet_rtos.Base.{
  ℕ, zero, suc, ◌+◌, ◌<◌, ◌≡◌, ◌≢◌, refl, ap, ◌∙◌, true, false, ◌&&◌, ◌==◌, ltb, leb, if◌then◌else◌,
  arith, Bool-cases, Option-cases, inl, inr, none, List, [], ◌∷◌,
}
use native.Mathlib.Decide.{ℕ_discrete}
use rivet_rtos.Config.{Config}
use rivet_rtos.Preempt.Tcb.{Tcb, RawState}
use rivet_rtos.Preempt.Sched.{Sched, get, set_task, set_state, unblock}
use rivet_rtos.Preempt.Sched.Transitions.{get-some}
use rivet_rtos.Preempt.Sched.Frame.{ready_add-tasks}
use rivet_rtos.Coop.Waker.{Waker, mark_ready}
use rivet_rtos.Timer.{TimerSlot, Kernel, poll_slots, expired, poll_ptask, poll_ptasks}

-- The slots after a poll: those that have run out are free, the others are as they were.
abbrev pub Left : ℕ → List TimerSlot → List TimerSlot → Type 0
Left now_us [] [] = Unit {0}
Left now_us (slot ∷ slots) (slot' ∷ slots') =
    (slot' ≡ (if expired now_us slot.deadline then record slot { deadline = 0 } else slot))
    × Left now_us slots slots'
Left now_us _ _ = ⊥

pub poll_slots-Left :
    (now_us : ℕ) (slots : List TimerSlot) (w : Waker)
    → Left now_us slots (poll_slots now_us slots w).1
unfolding poll_slots
poll_slots-Left now_us [] w = tt
poll_slots-Left now_us (slot ∷ slots) w = (
  refl,
  poll_slots-Left now_us slots (if expired now_us slot.deadline then mark_ready slot.task w else w),
)

-- A task in use whose deadline has passed is ready.
abbrev pub after_deadline : ℕ → ℕ → Tcb → Tcb
after_deadline now_us d t =
    if expired now_us d && t.used then record t { state = RawState.ready } else t

module _ (cfg : Config) (hart : ℕ) where
  get-none :
      (id : ℕ) (s : Sched)
      → get cfg id s ≡ none
      → (ltb id cfg.max_ptasks && (s.tasks id).used) ≡ false
  unfolding get
  get-none id s e = ground arith

  unblock-tasks :
      (id : ℕ) (s : Sched) (j : ℕ)
      → (unblock cfg hart id s).tasks j ≡ (
          if id == j && (ltb j cfg.max_ptasks && (s.tasks j).used)
          then record (s.tasks j) { state = RawState.ready }
          else s.tasks j)
  unfolding unblock set_state set_task
  unblock-tasks id s j = elim (Option-cases (get cfg id s)) [
    | inl e ↦
        rw (e, unblock)
          (elim (ℕ_discrete id j) [
            | yes same ↦ ground (arith, get-none id s e, same, ap s.tasks same)
            | no ne ↦ ground arith
          ])
    | inr (t, e) ↦
        rw
          (
            e,
            unblock,
            ready_add-tasks cfg hart id
                (set_task id (record (s.tasks id) { state = RawState.ready }) s),
          )
          (elim (ℕ_discrete id j) [
            | yes same ↦ ground (arith, get-some cfg id s e, same, ap s.tasks same)
            | no ne ↦ ground arith
          ])
  ]

  module _ (now_us : ℕ) where
    poll_ptask-tasks :
        (task : ℕ) (k : Kernel) (j : ℕ)
        → j < cfg.max_ptasks
        → (poll_ptask cfg hart now_us task k).sched.tasks j ≡ (
            if task == j
            then after_deadline now_us (k.timers.ptask_deadlines j) (k.sched.tasks j)
            else k.sched.tasks j)
    unfolding poll_ptask
    poll_ptask-tasks task k j hj =
        elim (Bool-cases (expired now_us (k.timers.ptask_deadlines task))) [
          | inl e ↦
              rw (e, unblock-tasks task k.sched j)
                (elim (ℕ_discrete task j) [
                  | yes same ↦ ground (arith, ap k.timers.ptask_deadlines same)
                  | no ne ↦ ground arith
                ])
          | inr e ↦ rw e (elim (ℕ_discrete task j) [
            | yes same ↦ ground (arith, ap k.timers.ptask_deadlines same)
            | no ne ↦ ground arith
          ])
        ]

    poll_ptask-deadline :
        (task : ℕ) (k : Kernel) (j : ℕ)
        → task ≢ j
        → (poll_ptask cfg hart now_us task k).timers.ptask_deadlines j ≡ k.timers.ptask_deadlines j
    unfolding poll_ptask
    poll_ptask-deadline task k j ne = ground arith

    pub poll_ptasks-tasks :
        (n task : ℕ) (k : Kernel) (j : ℕ)
        → j < cfg.max_ptasks
        → (poll_ptasks cfg hart now_us n task k).1.sched.tasks j ≡ (
            if leb task j && ltb j (task + n)
            then after_deadline now_us (k.timers.ptask_deadlines j) (k.sched.tasks j)
            else k.sched.tasks j)
    unfolding poll_ptasks
    poll_ptasks-tasks zero task k j hj = ground arith
    poll_ptasks-tasks (suc n) task k j hj =
        poll_ptasks-tasks n (task + 1) (poll_ptask cfg hart now_us task k) j hj
        ∙ (elim (ℕ_discrete task j) [
          | yes e ↦
              let past : (leb (task + 1) j && ltb j (task + 1 + n)) ≡ false = ground (arith, e) in
              let here : (leb task j && ltb j (task + suc n)) ≡ true = ground (arith, e) in
              let me : (task == j) ≡ true = ground (arith, e) in
              rw (past, here) (poll_ptask-tasks task k j hj ∙ rw me refl)
          | no ne ↦
              let same : (leb (task + 1) j && ltb j (task + 1 + n))
                  ≡ (leb task j && ltb j (task + suc n)) =
                ground (arith, ne) in
              let other : (task == j) ≡ false = ground (arith, ne) in
              let kept : (poll_ptask cfg hart now_us task k).sched.tasks j ≡ k.sched.tasks j =
                poll_ptask-tasks task k j hj ∙ rw other refl in
              rw (same, kept, poll_ptask-deadline task k j ne) refl
        ])
