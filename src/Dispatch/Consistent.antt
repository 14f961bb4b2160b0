-- ===== src/Dispatch/Consistent.antt =====
-- `on_tick` of `rivet/src/preempt/mod.rs`, and the ready queues.
use rivet_rtos.Base.{
  ℕ, ◌≡◌, refl, sym, ◌∙◌, not, ◌&&◌, List, [], ◌∷◌, ◌==◌, ltb, Bool-cases, Option-cases, inl, inr,
  Option, some, none,
}
use rivet_rtos.Config
use rivet_rtos.Config.{Config}
use rivet_rtos.Preempt.Tcb.{Tcb, TaskState, TaskRef, HeldMutex, state_of}
use rivet_rtos.Preempt.Sched.{
  Sched, fault_hook, get, set_current, schedule, on_dispatch, should_preempt,
}
use rivet_rtos.Preempt.Sched.Invariant.{IsConsistent}
use rivet_rtos.Preempt.Sched.Transitions.{
  get-some, set_task-IsConsistent, set_state-IsConsistent, unblock-IsConsistent,
}
use rivet_rtos.Preempt.Sched.Heal.{schedule_pure}
use rivet_rtos.Preempt.Handle.Queues.{emit-IsConsistent}
use rivet_rtos.Timer.{Kernel}
use rivet_rtos.Mutex.{System, poison_mutex, wake_all_waiters, wake_waiters}
use rivet_rtos.Dispatch.{
  Machine, sched_of, map_sched, is_running, poison_held, expel, switch_memory, resume_next, isolate,
  on_fault, yield_running, commit, switch, running_blocked, decide, has_fault, save_running,
  save_sp, tick_running, on_tick,
}
use rivet_rtos.Preempt.Sched.Frame.{unblock-used, get-used}

module _ (cfg : Config) (valid : Config.IsValid cfg) (hart : ℕ) where
  schedule-IsConsistent : (s : Sched) → IsConsistent cfg s → IsConsistent cfg (schedule cfg s).1
  schedule-IsConsistent s c = rw (schedule_pure cfg s c.queued.bitmap_word c.queued.summary) c

  set_current-IsConsistent :
      (id : ℕ) (s : Sched) → IsConsistent cfg s → IsConsistent cfg (set_current hart id s)
  unfolding set_current
  set_current-IsConsistent id s c = record { queued = c.queued; levels = c.levels }

  on_dispatch-IsConsistent :
      (id : ℕ) (s : Sched) → IsConsistent cfg s → IsConsistent cfg (on_dispatch cfg id s)
  unfolding on_dispatch
  on_dispatch-IsConsistent id s c = elim (Bool-cases (ltb id cfg.max_ptasks)) [
    | inl e ↦ rw e (record { queued = c.queued; levels = c.levels })
    | inr e ↦ rw e c
  ]

  commit-IsConsistent :
      (id : ℕ) (s : Sched) {t : Tcb}
      → get cfg id s ≡ some t
      → IsConsistent cfg s
      → IsConsistent cfg (commit cfg hart id s)
  unfolding commit
  commit-IsConsistent id s e c = on_dispatch-IsConsistent id _ (
      set_current-IsConsistent id _
        (set_state-IsConsistent cfg valid c id e hart TaskState.running))

  yield_running-IsConsistent :
      (id : ℕ) (s : Sched) → IsConsistent cfg s → IsConsistent cfg (yield_running cfg hart id s)
  unfolding yield_running
  yield_running-IsConsistent id s c = elim (Option-cases (get cfg id s)) [
    | inl e ↦ rw (e, yield_running) c
    | inr (t, e) ↦ elim (Bool-cases (is_running (state_of t.state))) [
      | inl f ↦
          rw (e, yield_running, f) (set_state-IsConsistent cfg valid c id e hart TaskState.ready)
      | inr f ↦ rw (e, yield_running, f) c
    ]
  ]

  pub save_running-IsConsistent :
      (sp id : ℕ) (s : Sched) → IsConsistent cfg s → IsConsistent cfg (save_running cfg sp id s)
  unfolding save_running
  save_running-IsConsistent sp id s c = elim (Option-cases (get cfg id s)) [
    | inl e ↦ rw (e, save_running) c
    | inr (t, e) ↦
        let (h, live, same) = get-some cfg id s e in
        rw (e, save_running, sym same)
          (set_task-IsConsistent cfg valid c id (save_sp sp (s.tasks id)) (c.levels id h)
            (λ p. refl))
  ]

  wake_waiters-IsConsistent :
      (ws : List TaskRef) (k : Kernel)
      → IsConsistent cfg k.sched
      → IsConsistent cfg (wake_waiters cfg hart ws k).sched
  unfolding wake_waiters
  wake_waiters-IsConsistent [] k c = c
  wake_waiters-IsConsistent (none ∷ ws) k c = wake_waiters-IsConsistent ws k c
  wake_waiters-IsConsistent (some id ∷ ws) k c =
      wake_waiters-IsConsistent ws _ (unblock-IsConsistent cfg valid c hart id)

  poison_held-IsConsistent :
      (slots : List HeldMutex) (w : System)
      → IsConsistent cfg w.kernel.sched
      → IsConsistent cfg (poison_held cfg hart slots w).kernel.sched
  unfolding poison_held poison_mutex wake_all_waiters
  poison_held-IsConsistent [] w c = c
  poison_held-IsConsistent (none ∷ slots) w c = poison_held-IsConsistent slots w c
  poison_held-IsConsistent (some m ∷ slots) w c =
      poison_held-IsConsistent slots (poison_mutex cfg hart m w)
        (wake_waiters-IsConsistent _ w.kernel c)

  switch_memory-IsConsistent :
      (t : Tcb) (s : Sched) → IsConsistent cfg s → IsConsistent cfg (switch_memory t s)
  unfolding switch_memory
  switch_memory-IsConsistent t s c = emit-IsConsistent cfg _ c

  resume_next-IsConsistent :
      (o : Option ℕ) (s : Sched)
      → IsConsistent cfg s
      → IsConsistent cfg (resume_next cfg hart (o, s)).1
  unfolding resume_next
  resume_next-IsConsistent none s c = c
  resume_next-IsConsistent (some next) s c = elim (Option-cases (get cfg next s)) [
    | inl e ↦ rw (e, resume_next) c
    | inr (t, e) ↦
        rw (e, resume_next)
          (switch_memory-IsConsistent t _ (
            set_current-IsConsistent next _
              (set_state-IsConsistent cfg valid c next e hart TaskState.running)))
  ]

  wake_waiters-used :
      (ws : List TaskRef) (k : Kernel) (i : ℕ)
      → ((wake_waiters cfg hart ws k).sched.tasks i).used ≡ (k.sched.tasks i).used
  unfolding wake_waiters
  wake_waiters-used [] k i = refl
  wake_waiters-used (none ∷ ws) k i = wake_waiters-used ws k i
  wake_waiters-used (some id ∷ ws) k i =
      wake_waiters-used ws _ i ∙ unblock-used cfg hart id k.sched i

  poison_held-used :
      (slots : List HeldMutex) (w : System) (i : ℕ)
      → ((poison_held cfg hart slots w).kernel.sched.tasks i).used ≡ (w.kernel.sched.tasks i).used
  unfolding poison_held poison_mutex wake_all_waiters
  poison_held-used [] w i = refl
  poison_held-used (none ∷ slots) w i = poison_held-used slots w i
  poison_held-used (some m ∷ slots) w i =
      poison_held-used slots (poison_mutex cfg hart m w) i ∙ wake_waiters-used _ w.kernel i

  expel-IsConsistent :
      (id : ℕ) (w : System)
      → IsConsistent cfg w.kernel.sched
      → IsConsistent cfg (expel cfg hart id w).kernel.sched
  unfolding expel
  expel-IsConsistent id w c = elim (Option-cases (get cfg id w.kernel.sched)) [
    | inl e ↦ rw (e, expel) c
    | inr (t, e) ↦
        let (h, live, _) = get-some cfg id w.kernel.sched e in
        let poisoned = poison_held cfg hart t.held w in
        rw (e, expel)
          (set_state-IsConsistent cfg valid (poison_held-IsConsistent t.held w c) id
            (get-used cfg id poisoned.kernel.sched h (poison_held-used t.held w id ∙ live)) hart
            TaskState.blocked)
  ]

  on_fault-IsConsistent :
      (id : ℕ) (m : Machine)
      → IsConsistent cfg (sched_of m)
      → IsConsistent cfg (sched_of (on_fault cfg hart id m).1)
  unfolding on_fault isolate
  on_fault-IsConsistent id m c = elim (Bool-cases (m.isolates)) [
    | inr e ↦ rw (on_fault, e) c
    | inl e ↦ elim (Bool-cases (m.has_hook)) [
      | inl f ↦
          rw (on_fault, e, f)
            (resume_next-IsConsistent _ _ (
              schedule-IsConsistent _
                (emit-IsConsistent cfg (fault_hook id) (expel-IsConsistent id m.system c))))
      | inr f ↦
          rw (on_fault, e, f)
            (resume_next-IsConsistent _ _
              (schedule-IsConsistent _ (expel-IsConsistent id m.system c)))
    ]
  ]

  switch-IsConsistent :
      (cycles running candidate : ℕ) (m : Machine)
      → IsConsistent cfg (sched_of m)
      → IsConsistent cfg (sched_of (switch cfg hart cycles running candidate m).1)
  unfolding switch
  switch-IsConsistent cycles running candidate m c =
      let yielded = yield_running cfg hart running (sched_of m) in
      let kept = yield_running-IsConsistent running (sched_of m) c in
      elim (Option-cases (get cfg candidate yielded)) [
        | inl e ↦ rw (switch, e, switch) kept
        | inr (t, e) ↦
            rw (switch, e, switch)
              (switch_memory-IsConsistent t _ (commit-IsConsistent candidate yielded e kept))
      ]

  decide-IsConsistent :
      (sp cycles running candidate : ℕ) (m : Machine)
      → IsConsistent cfg (sched_of m)
      → IsConsistent cfg (sched_of (decide cfg hart sp cycles running candidate m).1)
  unfolding decide
  decide-IsConsistent sp cycles running candidate m c =
      let blocked = running_blocked cfg running (sched_of m) in
      elim (Bool-cases (not blocked && not (should_preempt candidate running (sched_of m)))) [
        | inl e ↦ rw e c
        | inr e ↦ elim (Bool-cases (blocked && candidate == running)) [
          | inl f ↦ rw (e, f) c
          | inr f ↦ rw (e, f) (switch-IsConsistent cycles running candidate m c)
        ]
      ]

  tick_running-IsConsistent :
      (sp : ℕ) (word : ℕ → ℕ) (cycles now_us running : ℕ) (m : Machine)
      → IsConsistent cfg (sched_of m)
      → IsConsistent cfg (sched_of (tick_running cfg hart sp word cycles now_us running m).1)
  unfolding tick_running
  tick_running-IsConsistent sp word cycles now_us running m c =
      let chosen = schedule cfg (save_running cfg sp running (sched_of m)) in
      let saved = map_sched (λ _. chosen.1) m in
      let kept = schedule-IsConsistent _ (save_running-IsConsistent sp running (sched_of m) c) in
      elim (Option-cases (chosen.0)) [
        | inl e ↦ rw (tick_running, e, tick_running) kept
        | inr (candidate, e) ↦ elim (Bool-cases (has_fault cfg word cycles now_us running saved)) [
          | inl f ↦ rw (tick_running, e, tick_running, f) (on_fault-IsConsistent running saved kept)
          | inr f ↦
              rw (tick_running, e, tick_running, f)
                (decide-IsConsistent sp cycles running candidate saved kept)
        ]
      ]

-- A tick keeps the ready queues in agreement with the states of the tasks, whether it stays,
-- switches, or isolates a task whose stack has overflowed or whose budget is spent.
pub on_tick-IsConsistent :
    (cfg : Config)
    → Config.IsValid cfg
    → (hart sp : ℕ) (word : ℕ → ℕ) (cycles now_us : ℕ) (m : Machine) → IsConsistent cfg (sched_of m)
    → IsConsistent cfg (sched_of (on_tick cfg hart sp word cycles now_us m).1)
unfolding on_tick
on_tick-IsConsistent cfg valid hart sp word cycles now_us m c =
    elim (Option-cases ((sched_of m).current hart)) [
      | inl e ↦ rw (e, on_tick) c
      | inr (running, e) ↦
          rw (e, on_tick)
            (tick_running-IsConsistent cfg valid hart sp word cycles now_us running m c)
    ]
