-- ===== src/Preempt/Sched/Transitions.antt =====
-- The state and priority changes of `rivet/src/preempt/tcb.rs`, and the ready queues.
use rivet_rtos.Base.{
  ℕ, ◌<◌, ◌≡◌, ◌≢◌, refl, ap, subst, true, false, ◌&&◌, ◌==◌, ltb, leb, arith, Bool-cases,
  Option-cases, inl, inr, update, some,
}
use native.Mathlib.Decide.{ℕ_discrete}
use rivet_rtos.Config
use rivet_rtos.Config.{Config}
use rivet_rtos.Word.{bits}
use rivet_rtos.Preempt.Tcb.{Tcb, TaskState, RawState, state_of}
use rivet_rtos.Preempt.Sched.{
  Sched, set_task, get, dequeue, enqueue, set_state, on_effective_priority_change,
  set_effective_priority, is_ready_state, unblock, block_current,
}
use rivet_rtos.Preempt.Sched.Queues.{with_member, Queues-ext, add-Queues, remove-Queues}
use rivet_rtos.Preempt.Sched.Invariant.{
  is_ready, is_queued, members, IsConsistent, ==_refl, levels-update, ready_add-IsConsistent,
  ready_remove-IsConsistent,
}

state_of-ready :
    (r : RawState)
    → r ≢ RawState.suspended
    → r ≢ RawState.reserved
    → is_ready_state (state_of r) ≡ is_ready r
unfolding is_ready_state state_of
state_of-ready RawState.ready a b = refl
state_of-ready RawState.running a b = refl
state_of-ready RawState.blocked a b = refl
state_of-ready RawState.reserved a b = absurd (b refl)
state_of-ready RawState.suspended a b = absurd (a refl)

module _ (cfg : Config) where
  -- A ready task that changes its priority leaves one queue and enters another.
  requeue-IsConsistent :
      Config.IsValid cfg
      → {s : Sched} → IsConsistent cfg s
      → (id new : ℕ) → id < cfg.max_ptasks
      → new < bits
      → ((s.tasks id).used && is_ready (s.tasks id).state) ≡ true
      → ((s.tasks id).effective_priority == new) ≡ false
      → IsConsistent cfg (
          enqueue new id (
            dequeue
              (s.tasks id).effective_priority
              id
              (set_task id (record (s.tasks id) { effective_priority = new }) s)))
  unfolding enqueue dequeue set_task
  requeue-IsConsistent valid {s} c id new hid hn on moved = record {
    queued =
        Queues-ext
          (add-Queues
            (remove-Queues c.queued (s.tasks id).effective_priority id (c.levels id hid)
              (omega (arith, hid, valid.ptasks)))
            new id hn (omega (arith, hid, valid.ptasks)))
          (members cfg (update s.tasks id (record (s.tasks id) { effective_priority = new })))
          (λ p i hp. moved_member p i);
    levels =
        levels-update cfg s.tasks id (record (s.tasks id) { effective_priority = new }) hn c.levels;
  }
    where
      moved_member :
          (p i : ℕ)
          → with_member new id true
              (with_member (s.tasks id).effective_priority id false (members cfg s.tasks))
              p
              i
            ≡ members cfg (update s.tasks id (record (s.tasks id) { effective_priority = new })) p i
      moved_member p i = elim (ℕ_discrete id i) [
        | yes same ↦
            subst
              (λ j.
                with_member new id true
                  (with_member (s.tasks id).effective_priority id false (members cfg s.tasks)) p j
                ≡ members cfg (update s.tasks id (record (s.tasks id) { effective_priority = new }))
                    p j)
              same (rw ==_refl (ground arith))
        | no ne ↦ ground arith
      ]

  pub get-some :
      (id : ℕ) (s : Sched) {t : Tcb}
      → get cfg id s ≡ some t
      → (id < cfg.max_ptasks) × ((s.tasks id).used ≡ true) × (s.tasks id ≡ t)
  unfolding get
  get-some id s h = ground arith

  module _ (valid : Config.IsValid cfg) {s : Sched} (c : IsConsistent cfg s) where
    -- A record that is queued where the old one was changes nothing.
    pub set_task-IsConsistent :
        (id : ℕ) (t : Tcb)
        → t.effective_priority < bits
        → ((p : ℕ) → is_queued (s.tasks id) p ≡ is_queued t p)
        → IsConsistent cfg (set_task id t s)
    unfolding set_task
    set_task-IsConsistent id t ht h = record {
      queued = Queues-ext c.queued (members cfg (update s.tasks id t)) (λ p i hp.
          elim (ℕ_discrete id i) [
            | yes same ↦
                subst (λ j. members cfg s.tasks p j ≡ members cfg (update s.tasks id t) p j) same
                  (rw ==_refl (ap (λ b. ltb id cfg.max_ptasks && b) (h p)))
            | no ne ↦ ground arith
          ]);
      levels = levels-update cfg s.tasks id t ht c.levels;
    }

    module _ (id : ℕ) {t : Tcb} (found : get cfg id s ≡ some t) where
      -- A change of the state of a task in use keeps the ready queues in agreement with the states
      -- of the tasks, whatever the old and the new state are.
      pub set_state-IsConsistent :
          (hart : ℕ) (st : TaskState) → IsConsistent cfg (set_state cfg hart id st s)
      unfolding set_state
      set_state-IsConsistent hart TaskState.ready =
          let (hid, live, _) = get-some id s found in
          ready_add-IsConsistent cfg valid c id hid (record (s.tasks id) { state = RawState.ready })
            (c.levels id hid) (λ p e. ground arith) hart (ground arith)
      set_state-IsConsistent hart TaskState.running =
          let (hid, live, _) = get-some id s found in
          ready_remove-IsConsistent cfg valid c id hid
            (record (s.tasks id) { state = RawState.running }) (c.levels id hid)
            (λ p e. ground arith) (ground arith)
      set_state-IsConsistent hart TaskState.blocked =
          let (hid, live, _) = get-some id s found in
          ready_remove-IsConsistent cfg valid c id hid
            (record (s.tasks id) { state = RawState.blocked }) (c.levels id hid)
            (λ p e. ground arith) (ground arith)

    pub unblock-IsConsistent : (hart id : ℕ) → IsConsistent cfg (unblock cfg hart id s)
    unfolding unblock
    unblock-IsConsistent hart id = elim (Option-cases (get cfg id s)) [
      | inl e ↦ rw (e, unblock) c
      | inr (t, e) ↦ rw (e, unblock) (set_state-IsConsistent id e hart TaskState.ready)
    ]

    pub block_current-IsConsistent : (hart : ℕ) → IsConsistent cfg (block_current cfg hart s)
    unfolding block_current
    block_current-IsConsistent hart = elim (Option-cases (s.current hart)) [
      | inl e ↦ rw (e, block_current) c
      | inr (id, e) ↦ elim (Option-cases (get cfg id s)) [
        | inl f ↦ rw (e, block_current, f, block_current) c
        | inr (t, f) ↦
            rw (e, block_current, f, block_current)
              (set_state-IsConsistent id f hart TaskState.blocked)
      ]
    ]

    -- A change of the effective priority, to one below 32, of a task in use that is not suspended
    -- or reserved keeps the ready queues in agreement with the states of the tasks.
    set_effective_priority-IsConsistent :
        (id new : ℕ) {t : Tcb}
        → get cfg id s ≡ some t
        → new < bits
        → t.state ≢ RawState.suspended
        → t.state ≢ RawState.reserved
        → IsConsistent cfg (set_effective_priority cfg id new s)
    unfolding set_effective_priority on_effective_priority_change set_task
    set_effective_priority-IsConsistent id new {t} found hn awake published =
        elim (Bool-cases (old == new)) [
          | inl same ↦ rw (below, same) (set_task-IsConsistent id boosted hn (λ p. ground arith))
          | inr moved ↦ elim (Bool-cases (is_ready (s.tasks id).state)) [
            | inl e ↦
                rw (below, moved, ==_refl id, plain, e)
                  (requeue-IsConsistent valid c id new hid hn (rw ((get-some id s found).1) e)
                    moved)
            | inr e ↦
                rw (below, moved, ==_refl id, plain, e)
                  (set_task-IsConsistent id boosted hn (λ p. ground arith))
          ]
        ]
      where
        old : ℕ
        old = (s.tasks id).effective_priority

        boosted : Tcb
        boosted = record (s.tasks id) { effective_priority = new }

        hid : id < cfg.max_ptasks
        hid = (get-some id s found).0

        below : leb cfg.max_ptasks id ≡ false
        below = ground (arith, hid)

        plain : is_ready_state (state_of (s.tasks id).state) ≡ is_ready (s.tasks id).state
        plain = rw ((get-some id s found).2) (state_of-ready t.state awake published)
