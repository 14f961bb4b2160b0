-- ===== src/Preempt/Handle/Exit.antt =====
-- Exit and join, of `rivet/src/preempt/lifecycle.rs`.
use rivet_rtos.Base.{
  ℕ, ◌<◌, ◌≡◌, refl, ◌∙◌, true, false, ◌==◌, arith, Option-cases, inl, inr, some, none,
}
use rivet_rtos.Config.{Config}
use rivet_rtos.Preempt.Tcb.{Tcb, RawState}
use rivet_rtos.Preempt.Sched.{Sched, set_task, get, unblock, set_state}
use rivet_rtos.Preempt.Sched.Invariant.{==_refl}
use rivet_rtos.Preempt.Sched.Frame.{unblock-ready, get-used, ready_add-tasks}
use rivet_rtos.Preempt.Handle.{task_exit, wake_joiner, join_wait, stored_result}

module _ (cfg : Config) (hart : ℕ) where
  unblock-exited :
      (id : ℕ) (s : Sched) (i : ℕ) → ((unblock cfg hart id s).tasks i).exited ≡ (s.tasks i).exited
  unfolding unblock set_state set_task
  unblock-exited id s i = elim (Option-cases (get cfg id s)) [
    | inl e ↦ rw (e, unblock) refl
    | inr (t, e) ↦
        rw
          (
            e,
            unblock,
            ready_add-tasks cfg hart id
                (set_task id (record (s.tasks id) { state = RawState.ready }) s),
          )
          (ground arith)
  ]

  -- The slot of the exiting task, after its exit, as the joiner reads it.
  exit-lem :
      (memory : ℕ → ℕ) (val_lo val_hi id joiner : ℕ) (s : Sched) {t : Tcb}
      → s.current hart ≡ some id
      → get cfg id s ≡ some t
      → t.joiner ≡ some joiner
      → (id == joiner) ≡ false
      → joiner < cfg.max_ptasks
      → (s.tasks joiner).used ≡ true
      → (((task_exit cfg hart memory val_lo val_hi s).tasks joiner).state ≡ RawState.ready)
        × (((task_exit cfg hart memory val_lo val_hi s).tasks id).exited ≡ true)
  unfolding task_exit wake_joiner set_task stored_result
  exit-lem memory val_lo val_hi id joiner s {t} here found joins other h live =
      rw (here, task_exit, found, task_exit, joins)
        (
          unblock-ready cfg hart joiner left joiner
              (inl (refl, (left.tasks joiner, get-used cfg joiner left h (rw other live)))),
          unblock-exited joiner left id ∙ rw (==_refl id) refl,
        )
    where
      left : Sched
      left =
          set_task id
            (record t {
              result_buf = stored_result memory val_lo val_hi t;
              exited = true;
              joiner = none;
            })
            s

-- When a task whose joiner is registered and is another task in use exits, the joiner is ready and
-- the next round of its loop does not wait: the wakeup is not lost.
pub task_exit-joins :
    (cfg : Config) (hart joiner_hart : ℕ) (memory : ℕ → ℕ) (val_lo val_hi id joiner : ℕ) (s : Sched)
    {t : Tcb}
    → s.current hart ≡ some id
    → get cfg id s ≡ some t
    → t.joiner ≡ some joiner
    → (id == joiner) ≡ false
    → joiner < cfg.max_ptasks
    → (s.tasks joiner).used ≡ true
    → (((task_exit cfg hart memory val_lo val_hi s).tasks joiner).state ≡ RawState.ready)
      × (join_wait cfg joiner_hart id (task_exit cfg hart memory val_lo val_hi s)
          ≡ (false, task_exit cfg hart memory val_lo val_hi s))
unfolding join_wait
task_exit-joins cfg hart joiner_hart memory val_lo val_hi id joiner s a b c d h live =
    let (awake, gone) = exit-lem cfg hart memory val_lo val_hi id joiner s a b c d h live in
    (awake, rw gone refl)
