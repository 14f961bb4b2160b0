-- ===== src/Preempt/Sched/Frame.antt =====
-- What the state and priority changes of `rivet/src/preempt/tcb.rs` do to the table of tasks.
use rivet_rtos.Base.{
  ℕ, ◌<◌, ◌≡◌, refl, true, not, ◌||◌, ◌==◌, ltb, leb, arith, Bool-cases, Option-cases, ◌⊎◌, inl,
  inr, update, some,
}
use rivet_rtos.Config.{Config}
use rivet_rtos.Preempt.Tcb.{Tcb, TaskState, RawState, state_of}
use rivet_rtos.Preempt.Sched.{
  Sched, set_task, get, ready_add, ready_remove, dequeue, enqueue, set_state, wake_other_harts,
  on_effective_priority_change, set_effective_priority, is_ready_state, unblock, block_current,
}
use rivet_rtos.Preempt.Sched.Invariant.{==_refl}

module _ (cfg : Config) (hart : ℕ) where
  pub ready_add-tasks : (id : ℕ) (s : Sched) → (ready_add cfg hart id s).tasks ≡ s.tasks
  unfolding ready_add wake_other_harts
  ready_add-tasks id s = elim (Bool-cases (leb cfg.max_ptasks id)) [
    | inl e ↦ rw e refl
    | inr e ↦ elim (Bool-cases (ltb 1 cfg.max_harts)) [
      | inl f ↦ rw (e, f) refl
      | inr f ↦ rw (e, f) refl
    ]
  ]

  pub ready_remove-tasks : (id : ℕ) (s : Sched) → (ready_remove cfg id s).tasks ≡ s.tasks
  unfolding ready_remove dequeue
  ready_remove-tasks id s = elim (Bool-cases (leb cfg.max_ptasks id)) [
    | inl e ↦ rw e refl
    | inr e ↦ rw e refl
  ]

  -- A change of state keeps every task's priorities.
  pub set_state-priority :
      (id : ℕ) (st : TaskState) (s : Sched) (i : ℕ)
      → ((set_state cfg hart id st s).tasks i).effective_priority ≡ (s.tasks i).effective_priority
  unfolding set_state set_task
  set_state-priority id TaskState.ready s i =
      rw (ready_add-tasks id (set_task id (record (s.tasks id) { state = RawState.ready }) s))
        (ground arith)
  set_state-priority id TaskState.running s i =
      rw (ready_remove-tasks id (set_task id (record (s.tasks id) { state = RawState.running }) s))
        (ground arith)
  set_state-priority id TaskState.blocked s i =
      rw (ready_remove-tasks id (set_task id (record (s.tasks id) { state = RawState.blocked }) s))
        (ground arith)

  pub unblock-priority :
      (id : ℕ) (s : Sched) (i : ℕ)
      → ((unblock cfg hart id s).tasks i).effective_priority ≡ (s.tasks i).effective_priority
  unfolding unblock
  unblock-priority id s i = elim (Option-cases (get cfg id s)) [
    | inl e ↦ rw (e, unblock) refl
    | inr (t, e) ↦ rw (e, unblock) (set_state-priority id TaskState.ready s i)
  ]

  pub block_current-priority :
      (s : Sched) (i : ℕ)
      → ((block_current cfg hart s).tasks i).effective_priority ≡ (s.tasks i).effective_priority
  unfolding block_current
  block_current-priority s i = elim (Option-cases (s.current hart)) [
    | inl e ↦ rw (e, block_current) refl
    | inr (id, e) ↦ elim (Option-cases (get cfg id s)) [
      | inl f ↦ rw (e, block_current, f, block_current) refl
      | inr (t, f) ↦
          rw (e, block_current, f, block_current) (set_state-priority id TaskState.blocked s i)
    ]
  ]

  -- A task that is blocked by the call has its state set, and its queue left.
  pub block_current-state :
      (s : Sched) (id : ℕ) (t : Tcb)
      → s.current hart ≡ some id
      → get cfg id s ≡ some t
      → ((block_current cfg hart s).tasks id).state ≡ RawState.blocked
  unfolding block_current set_state set_task
  block_current-state s id t e f =
      rw
        (
          e,
          block_current,
          f,
          block_current,
          ready_remove-tasks id (set_task id (record (s.tasks id) { state = RawState.blocked }) s),
        )
        (ground arith)

module _ (cfg : Config) where
  pub set_effective_priority-tasks :
      (id new : ℕ) (s : Sched)
      → (set_effective_priority cfg id new s).tasks
        ≡ update s.tasks id (record (s.tasks id) { effective_priority = new })
  unfolding set_effective_priority on_effective_priority_change set_task enqueue dequeue
  set_effective_priority-tasks id new s =
      elim (Bool-cases (leb cfg.max_ptasks id || (s.tasks id).effective_priority == new)) [
        | inl e ↦ rw e refl
        | inr e ↦ elim (Bool-cases (not (is_ready_state (state_of (s.tasks id).state)))) [
          | inl f ↦ rw (e, ==_refl id, f) refl
          | inr f ↦ rw (e, ==_refl id, f) refl
        ]
      ]

  -- An unblocked task that is in use is ready, and a ready task stays so.
  pub unblock-ready :
      (hart id : ℕ) (s : Sched) (i : ℕ)
      → ((id ≡ i) × ((t : Tcb) × (get cfg id s ≡ some t))) ⊎ ((s.tasks i).state ≡ RawState.ready)
      → ((unblock cfg hart id s).tasks i).state ≡ RawState.ready
  unfolding unblock set_state set_task
  unblock-ready hart id s i (inl (same, (t, e))) =
      rw
        (
          e,
          unblock,
          ready_add-tasks cfg hart id
              (set_task id (record (s.tasks id) { state = RawState.ready }) s),
        )
        (ground (arith, same))
  unblock-ready hart id s i (inr h) = elim (Option-cases (get cfg id s)) [
    | inl e ↦ rw (e, unblock) h
    | inr (t, e) ↦
        rw
          (
            e,
            unblock,
            ready_add-tasks cfg hart id
                (set_task id (record (s.tasks id) { state = RawState.ready }) s),
          )
          (ground (arith, h))
  ]

  pub unblock-used :
      (hart id : ℕ) (s : Sched) (i : ℕ) → ((unblock cfg hart id s).tasks i).used ≡ (s.tasks i).used
  unfolding unblock set_state set_task
  unblock-used hart id s i = elim (Option-cases (get cfg id s)) [
    | inl e ↦ rw (e, unblock) refl
    | inr (t, e) ↦
        rw
          (
            e,
            unblock,
            ready_add-tasks cfg hart id
                (set_task id (record (s.tasks id) { state = RawState.ready }) s),
          )
          (ground arith)
  ]

  -- A slot in use is found, whatever else its record holds.
  pub get-used :
      (id : ℕ) (s : Sched)
      → id < cfg.max_ptasks
      → (s.tasks id).used ≡ true
      → get cfg id s ≡ some (s.tasks id)
  unfolding get
  get-used id s h e = ground (arith, h, e)

  pub set_effective_priority-current :
      (id new : ℕ) (s : Sched) → (set_effective_priority cfg id new s).current ≡ s.current
  unfolding set_effective_priority on_effective_priority_change set_task enqueue dequeue
  set_effective_priority-current id new s =
      elim (Bool-cases (leb cfg.max_ptasks id || (s.tasks id).effective_priority == new)) [
        | inl e ↦ rw e refl
        | inr e ↦ elim (Bool-cases (not (is_ready_state (state_of (s.tasks id).state)))) [
          | inl f ↦ rw (e, ==_refl id, f) refl
          | inr f ↦ rw (e, ==_refl id, f) refl
        ]
      ]
