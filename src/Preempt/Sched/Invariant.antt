-- ===== src/Preempt/Sched/Invariant.antt =====
-- When the ready queues of `rivet/src/preempt/sched.rs` agree with the states of the tasks.
use rivet_rtos.Base.{
  ℕ, ◌<◌, ◌≡◌, subst, Bool, true, false, ◌&&◌, ◌==◌, ltb, leb, arith, Bool-cases, inl, inr, Table,
  update,
}
use native.Mathlib.Decide.{ℕ_discrete}
use rivet_rtos.Config
use rivet_rtos.Config.{Config}
use rivet_rtos.Word.{bits}
use rivet_rtos.Preempt.Tcb.{Tcb, RawState}
use rivet_rtos.Preempt.Sched.{
  Sched, set_task, wake_other_harts, ready_add, ready_remove, dequeue, enqueue,
}
use rivet_rtos.Preempt.Sched.Queues.{
  Members, with_member, Queues, Queues-ext, add-Queues, remove-Queues,
}

abbrev pub is_ready : RawState → Bool
is_ready RawState.ready = true
is_ready _ = false

-- A task in use and ready waits in the queue of its effective priority.
abbrev pub is_queued : Tcb → ℕ → Bool
is_queued t p = t.used && (is_ready t.state && t.effective_priority == p)

abbrev pub members : Config → Table Tcb → Members
members cfg tasks p i = ltb i cfg.max_ptasks && is_queued (tasks i) p

pub record IsConsistent (cfg : Config) (s : Sched) : Type 0 where
  pub queued : Queues s.queues s.ready_bitmap (members cfg s.tasks)
  pub levels : (i : ℕ) → i < cfg.max_ptasks → (s.tasks i).effective_priority < bits

pub ==_refl : (n : ℕ) → (n == n) ≡ true
==_refl n = ground arith

-- The task is not queued at any priority but that of its new record.
abbrev pub NotElsewhere : Tcb → Tcb → Type 0
NotElsewhere old t = (p : ℕ) → (t.effective_priority == p) ≡ false → is_queued old p ≡ false

module _ (cfg : Config) where
  -- A task is put into the queue of its priority, or taken out, as its record says.
  pub members-update :
      (tasks : Table Tcb) (id : ℕ) (t : Tcb) (b : Bool)
      → id < cfg.max_ptasks
      → NotElsewhere (tasks id) t
      → (t.used && is_ready t.state) ≡ b
      → (p i : ℕ)
      → with_member t.effective_priority id b (members cfg tasks) p i
        ≡ members cfg (update tasks id t) p i
  members-update tasks id t b h away e p i = elim (ℕ_discrete id i) [
    | yes same ↦
        subst
          (λ j.
            with_member t.effective_priority id b (members cfg tasks) p j
            ≡ members cfg (update tasks id t) p j)
          same (rw ==_refl (ground (arith, away p)))
    | no ne ↦ ground arith
  ]

  pub levels-update :
      (tasks : Table Tcb) (id : ℕ) (t : Tcb)
      → t.effective_priority < bits
      → ((i : ℕ) → i < cfg.max_ptasks → (tasks i).effective_priority < bits)
      → (i : ℕ) → i < cfg.max_ptasks
      → (update tasks id t i).effective_priority < bits
  levels-update tasks id t ht h i hi = ground (arith, h i hi)

  module _ {s : Sched} (c : IsConsistent cfg s) where
    pub wake-IsConsistent : (me : ℕ) → IsConsistent cfg (wake_other_harts cfg me s)
    unfolding wake_other_harts
    wake-IsConsistent me = elim (Bool-cases (ltb 1 cfg.max_harts)) [
      | inl e ↦ rw e (record { queued = c.queued; levels = c.levels })
      | inr e ↦ rw e c
    ]

  module _ (valid : Config.IsValid cfg) {s : Sched} (c : IsConsistent cfg s) (id : ℕ)
      (hid : id < cfg.max_ptasks) (t : Tcb) (ht : t.effective_priority < bits)
      (away : NotElsewhere (s.tasks id) t) where
    -- A task that becomes ready is queued.
    pub enqueue-IsConsistent :
        (t.used && is_ready t.state) ≡ true
        → IsConsistent cfg (enqueue t.effective_priority id (set_task id t s))
    unfolding enqueue set_task
    enqueue-IsConsistent b = record {
      queued =
          Queues-ext
            (add-Queues c.queued t.effective_priority id ht (omega (arith, hid, valid.ptasks)))
            (members cfg (update s.tasks id t))
            (λ p i hp. members-update s.tasks id t true hid away b p i);
      levels = levels-update s.tasks id t ht c.levels;
    }

    -- A task that stops being ready leaves its queue.
    pub dequeue-IsConsistent :
        (t.used && is_ready t.state) ≡ false
        → IsConsistent cfg (dequeue t.effective_priority id (set_task id t s))
    unfolding dequeue set_task
    dequeue-IsConsistent b = record {
      queued =
          Queues-ext
            (remove-Queues c.queued t.effective_priority id ht (omega (arith, hid, valid.ptasks)))
            (members cfg (update s.tasks id t))
            (λ p i hp. members-update s.tasks id t false hid away b p i);
      levels = levels-update s.tasks id t ht c.levels;
    }

    pub ready_add-IsConsistent :
        (hart : ℕ)
        → (t.used && is_ready t.state) ≡ true
        → IsConsistent cfg (ready_add cfg hart id (set_task id t s))
    unfolding ready_add enqueue set_task
    ready_add-IsConsistent hart b =
        let e : leb cfg.max_ptasks id ≡ false = ground arith in
        rw (e, ==_refl id) (wake-IsConsistent (enqueue-IsConsistent b) hart)

    pub ready_remove-IsConsistent :
        (t.used && is_ready t.state) ≡ false
        → IsConsistent cfg (ready_remove cfg id (set_task id t s))
    unfolding ready_remove set_task
    ready_remove-IsConsistent b =
        let e : leb cfg.max_ptasks id ≡ false = ground arith in
        rw (e, ==_refl id) (dequeue-IsConsistent b)
