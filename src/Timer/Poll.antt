-- ===== src/Timer/Poll.antt =====
-- `poll_timers` of `rivet/src/timer.rs`: what an interrupt of the timer leaves.
use rivet_rtos.Base.{
  ℕ, zero, suc, ◌+◌, ◌<◌, ◌≡◌, refl, sym, ap, ◌∙◌, subst, true, ◌&&◌, ◌||◌, ◌==◌, ltb, leb,
  if◌then◌else◌, arith, Bool-cases, inl, inr,
}
use native.Mathlib.Decide.{ℕ_discrete}
use rivet_rtos.Config
use rivet_rtos.Config.{Config}
use rivet_rtos.Preempt.Sched.{Sched}
use rivet_rtos.Preempt.Sched.Queues.{Members}
use rivet_rtos.Preempt.Sched.Invariant.{IsConsistent}
use rivet_rtos.Preempt.Sched.Transitions.{unblock-IsConsistent}
use rivet_rtos.Coop.Waker.Laws.{Holds}
use rivet_rtos.Timer.Woken.{Left, poll_slots-Left, after_deadline, poll_ptasks-tasks}
use rivet_rtos.Timer.{
  Kernel, poll_slots, expired, poll_ptask, poll_ptasks, poll_ptask_deadlines, poll_timers,
  broadcast,
}
use rivet_rtos.Timer.Due.{due, AllTasks, NoneExpired, poll_slots-NoneExpired, poll_slots-Holds}

module _ (cfg : Config) (hart now_us : ℕ) where
  poll_ptask-IsConsistent :
      (task : ℕ) (k : Kernel)
      → Config.IsValid cfg
      → IsConsistent cfg k.sched
      → IsConsistent cfg (poll_ptask cfg hart now_us task k).sched
  unfolding poll_ptask
  poll_ptask-IsConsistent task k valid c =
      elim (Bool-cases (expired now_us (k.timers.ptask_deadlines task))) [
        | inl e ↦ rw e (unblock-IsConsistent cfg valid c hart task)
        | inr e ↦ rw e c
      ]

  poll_ptasks-IsConsistent :
      (n task : ℕ) (k : Kernel)
      → Config.IsValid cfg
      → IsConsistent cfg k.sched
      → IsConsistent cfg (poll_ptasks cfg hart now_us n task k).1.sched
  unfolding poll_ptasks
  poll_ptasks-IsConsistent zero task k valid c = c
  poll_ptasks-IsConsistent (suc n) task k valid c =
      poll_ptasks-IsConsistent n (task + 1) (poll_ptask cfg hart now_us task k) valid
        (poll_ptask-IsConsistent task k valid c)

  poll_ptask-deadlines :
      (task : ℕ) (k : Kernel) (j : ℕ)
      → (poll_ptask cfg hart now_us task k).timers.ptask_deadlines j ≡ (
          if task == j && expired now_us (k.timers.ptask_deadlines j)
          then 0
          else k.timers.ptask_deadlines j)
  unfolding poll_ptask
  poll_ptask-deadlines task k j = elim (ℕ_discrete task j) [
    | yes e ↦ ground (arith, ap k.timers.ptask_deadlines e)
    | no ne ↦ ground arith
  ]

  -- The scan clears the expired deadlines of its range, and touches no other.
  poll_ptasks-deadlines :
      (n task : ℕ) (k : Kernel) (j : ℕ)
      → (poll_ptasks cfg hart now_us n task k).1.timers.ptask_deadlines j ≡ (
          if leb task j && ltb j (task + n) && expired now_us (k.timers.ptask_deadlines j)
          then 0
          else k.timers.ptask_deadlines j)
  unfolding poll_ptasks
  poll_ptasks-deadlines zero task k j = ground arith
  poll_ptasks-deadlines (suc n) task k j =
      poll_ptasks-deadlines n (task + 1) (poll_ptask cfg hart now_us task k) j
      ∙ (elim (ℕ_discrete task j) [
        | yes e ↦ rw (poll_ptask-deadlines task k j) (ground (arith, ap k.timers.ptask_deadlines e))
        | no ne ↦ rw (poll_ptask-deadlines task k j) (ground arith)
      ])

  broadcast-IsConsistent :
      (s : Sched) → IsConsistent cfg s → IsConsistent cfg (broadcast cfg hart s)
  unfolding broadcast
  broadcast-IsConsistent s c = record { queued = c.queued; levels = c.levels }

  poll_ptasks-keeps :
      (n task : ℕ) (k : Kernel)
      → ((poll_ptasks cfg hart now_us n task k).1.timers.slots ≡ k.timers.slots)
        × ((poll_ptasks cfg hart now_us n task k).1.waker ≡ k.waker)
  unfolding poll_ptasks poll_ptask
  poll_ptasks-keeps zero task k = (refl, refl)
  poll_ptasks-keeps (suc n) task k =
      let ih = poll_ptasks-keeps n (task + 1) (poll_ptask cfg hart now_us task k) in
      elim (Bool-cases (expired now_us (k.timers.ptask_deadlines task))) [
        | inl e ↦ (ih.0 ∙ rw e refl, ih.1 ∙ rw e refl)
        | inr e ↦ (ih.0 ∙ rw e refl, ih.1 ∙ rw e refl)
      ]

  -- What `poll_ptask_deadlines` leaves of `k`.
  record PtasksPolled (k k' : Kernel) : Type 0 where
    slots : k'.timers.slots ≡ k.timers.slots
    waker : k'.waker ≡ k.waker
    deadlines_left :
        (j : ℕ)
        → j < cfg.max_ptasks
        → k'.timers.ptask_deadlines j
          ≡ (if expired now_us (k.timers.ptask_deadlines j) then 0 else k.timers.ptask_deadlines j)
    tasks_left :
        (j : ℕ)
        → j < cfg.max_ptasks
        → k'.sched.tasks j ≡ after_deadline now_us (k.timers.ptask_deadlines j) (k.sched.tasks j)
    consistent : IsConsistent cfg k'.sched

  poll_ptask_deadlines-PtasksPolled :
      (k : Kernel)
      → Config.IsValid cfg
      → IsConsistent cfg k.sched
      → PtasksPolled k (poll_ptask_deadlines cfg hart now_us k)
  unfolding poll_ptask_deadlines broadcast
  poll_ptask_deadlines-PtasksPolled k valid c =
      let r = poll_ptasks cfg hart now_us cfg.max_ptasks 0 k in
      let kept = poll_ptasks-keeps cfg.max_ptasks 0 k in
      let c' = poll_ptasks-IsConsistent cfg.max_ptasks 0 k valid c in
      let left : (j : ℕ)
          → j < cfg.max_ptasks
          → r.1.timers.ptask_deadlines j ≡ (
              if expired now_us (k.timers.ptask_deadlines j)
              then 0
              else k.timers.ptask_deadlines j) =
        λ j hj. poll_ptasks-deadlines cfg.max_ptasks 0 k j ∙ ground arith in
      let woken : (j : ℕ)
          → j < cfg.max_ptasks
          → r.1.sched.tasks j
            ≡ after_deadline now_us (k.timers.ptask_deadlines j) (k.sched.tasks j) =
        λ j hj.
          let inside : (leb 0 j && ltb j (0 + cfg.max_ptasks)) ≡ true = ground (arith, hj) in
          poll_ptasks-tasks cfg hart now_us cfg.max_ptasks 0 k j hj ∙ rw inside refl in
      elim (Bool-cases (poll_ptasks cfg hart now_us cfg.max_ptasks 0 k).0) [
        | inl e ↦ rw e (record {
          slots = kept.0;
          waker = kept.1;
          deadlines_left = left;
          tasks_left = woken;
          consistent = broadcast-IsConsistent r.1.sched c';
        })
        | inr e ↦ rw e (record {
          slots = kept.0;
          waker = kept.1;
          deadlines_left = left;
          tasks_left = woken;
          consistent = c';
        })
      ]

  -- What the interrupt at `now_us` leaves of `k`.
  pub record Polled (k k' : Kernel) (R : Members) : Type 0 where
    pub none_late : NoneExpired now_us k'.timers.slots
    pub slots_left : Left now_us k.timers.slots k'.timers.slots
    pub woken : Holds k'.waker (λ p i. R p i || due now_us k.timers.slots p i)
    pub deadlines_left :
        (j : ℕ)
        → j < cfg.max_ptasks
        → k'.timers.ptask_deadlines j
          ≡ (if expired now_us (k.timers.ptask_deadlines j) then 0 else k.timers.ptask_deadlines j)
    pub tasks_left :
        (j : ℕ)
        → j < cfg.max_ptasks
        → k'.sched.tasks j ≡ after_deadline now_us (k.timers.ptask_deadlines j) (k.sched.tasks j)
    pub consistent : IsConsistent cfg k'.sched

  -- With a valid configuration, consistent queues, a waker that represents a set of tasks, and
  -- identities within the bounds in all slots, an interrupt of the timer frees exactly the slots
  -- whose deadline has passed and adds their tasks to the waker's; it clears exactly the passed
  -- deadlines of preemptive tasks, and makes exactly those of these tasks ready that are in use;
  -- and the ready queues are consistent.
  pub poll_timers-Polled :
      (k : Kernel) (R : Members)
      → Config.IsValid cfg
      → IsConsistent cfg k.sched
      → AllTasks k.timers.slots
      → Holds k.waker R
      → Polled k (poll_timers cfg hart now_us k) R
  unfolding poll_timers broadcast
  poll_timers-Polled k R valid c tasks q =
      let r = poll_slots now_us k.timers.slots k.waker in
      let s' : Sched = if r.0 then broadcast cfg hart k.sched else k.sched in
      let c' : IsConsistent cfg (if r.0 then broadcast cfg hart k.sched else k.sched) =
        elim (Bool-cases (poll_slots now_us k.timers.slots k.waker).0) [
          | inl e ↦ rw e (broadcast-IsConsistent k.sched c)
          | inr e ↦ rw e c
        ] in
      let same : (j : ℕ) → s'.tasks j ≡ k.sched.tasks j = λ j.
        elim (Bool-cases (poll_slots now_us k.timers.slots k.waker).0) [
          | inl e ↦ rw e refl
          | inr e ↦ rw e refl
        ] in
      let done =
        poll_ptask_deadlines-PtasksPolled
          (record k { timers = record (k.timers) { slots = r.1 }; waker = r.2; sched = s' }) valid
          c' in
      record {
        slots_left =
            subst (Left now_us k.timers.slots) (sym done.slots)
              (poll_slots-Left now_us k.timers.slots k.waker);
        none_late =
            subst (NoneExpired now_us) (sym done.slots)
              (poll_slots-NoneExpired now_us k.timers.slots k.waker);
        woken =
            subst (λ w. Holds w (λ p i. R p i || due now_us k.timers.slots p i)) (sym done.waker)
              (poll_slots-Holds now_us k.timers.slots k.waker R tasks q);
        deadlines_left = done.deadlines_left;
        tasks_left = λ j hj.
            done.tasks_left j hj ∙ ap (after_deadline now_us (k.timers.ptask_deadlines j)) (same j);
        consistent = done.consistent;
      }
