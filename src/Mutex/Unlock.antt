-- ===== src/Mutex/Unlock.antt =====
-- The drop of the guard, of `rivet/src/preempt/mutex.rs`.
use rivet_rtos.Base.{
  ℕ, ◌<◌, ◌≡◌, refl, sym, ap, ◌∙◌, subst, true, false, none, some, List, arith, Option-cases, inl,
  inr,
}
use native.Mathlib.Decide.{ℕ_discrete}
use rivet_rtos.Config.{Config}
use rivet_rtos.Preempt.Tcb.{Tcb, TaskRef, RawState, HeldMutex, remove_held, empty_slot}
use rivet_rtos.Preempt.Sched.{reschedule, get, set_task, emit}
use rivet_rtos.Preempt.Sched.Transitions.{get-some}
use rivet_rtos.Preempt.Sched.Invariant.{==_refl}
use rivet_rtos.Preempt.Sched.Frame.{set_effective_priority-tasks}
use rivet_rtos.Mutex.{
  System, set_mutex, with_sched, highest_waiter, highest_waiter_priority, wake_waiters,
  clear_waiters, wake_all_waiters, inherited, disinherit, give_back, unlock,
}
use rivet_rtos.Mutex.Waiters.{Listed, wake_waiters-priority, wake_waiters-ready}
use rivet_rtos.Mutex.Inherit.{IsInherited, inherited-IsInherited}

module _ (cfg : Config) (m : ℕ) where
  give_back-mutexes : (o : TaskRef) (w : System) → (give_back cfg m o w).mutexes ≡ w.mutexes
  unfolding give_back disinherit
  give_back-mutexes none w = refl
  give_back-mutexes (some id) w = elim (Option-cases (get cfg id w.kernel.sched)) [
    | inl e ↦ rw (e, disinherit) refl
    | inr (t, e) ↦ rw (e, disinherit) refl
  ]

  remove_held-used : (t : Tcb) → (remove_held m t).used ≡ t.used
  unfolding remove_held
  remove_held-used t = elim (Option-cases (empty_slot m t.held)) [
    | inl e ↦ rw (e, remove_held) refl
    | inr (slots, e) ↦ rw (e, remove_held) refl
  ]

  give_back-used :
      (o : TaskRef) (w : System) (i : ℕ)
      → ((give_back cfg m o w).kernel.sched.tasks i).used ≡ (w.kernel.sched.tasks i).used
  unfolding give_back disinherit set_task
  give_back-used none w i = refl
  give_back-used (some id) w i = elim (Option-cases (get cfg id w.kernel.sched)) [
    | inl e ↦ rw (e, disinherit) refl
    | inr (t, e) ↦
        let (_, live, same) = get-some cfg id w.kernel.sched e in
        let kept = remove_held-used t in
        rw (e, disinherit, set_effective_priority-tasks cfg id) (ground (arith, kept, live, same))
  ]

  -- The owner's effective priority becomes the one that its other mutexes give it.
  give_back-priority :
      (id : ℕ) (w : System) {t : Tcb}
      → get cfg id w.kernel.sched ≡ some t
      → ((give_back cfg m (some id) w).kernel.sched.tasks id).effective_priority
        ≡ inherited cfg w (remove_held m t).held (remove_held m t).base_priority
  unfolding give_back disinherit set_task
  give_back-priority id w e =
      rw (e, disinherit, set_effective_priority-tasks cfg id, ==_refl id) refl

module _ (cfg : Config) (hart m : ℕ) (w : System) where
  freed : System
  freed = set_mutex m (record (w.mutexes m) { owner = none }) w

  given : System
  given = give_back cfg m (w.mutexes m).owner freed

  given-mutex : given.mutexes m ≡ record (w.mutexes m) { owner = none }
  unfolding given freed
  given-mutex = rw (give_back-mutexes cfg m (w.mutexes m).owner freed, ==_refl m) refl

  unlock-kernel :
      (unlock cfg hart m w).kernel
      ≡ with_sched (emit reschedule) (wake_waiters cfg hart (w.mutexes m).waiters given.kernel)
  unfolding unlock given freed wake_all_waiters
  unlock-kernel = rw (unlock, ==_refl m, given-mutex) refl

  unlock-mutex : (unlock cfg hart m w).mutexes m ≡ record (w.mutexes m) {
    locked = false;
    owner = none;
    waiters = clear_waiters (w.mutexes m).waiters;
  }
  unfolding unlock given freed wake_all_waiters
  unlock-mutex = rw (unlock, ==_refl m, given-mutex) refl

  freed-waiters : (k : ℕ) → (freed.mutexes k).waiters ≡ (w.mutexes k).waiters
  unfolding freed
  freed-waiters k = elim (ℕ_discrete m k) [
    | yes same ↦
        subst (λ j. (freed.mutexes j).waiters ≡ (w.mutexes j).waiters) same (rw (==_refl m) refl)
    | no ne ↦ ground arith
  ]

  freed-highest : (k : ℕ) → highest_waiter_priority cfg k freed ≡ highest_waiter_priority cfg k w
  unfolding highest_waiter_priority freed
  freed-highest k = ap (λ ws. highest_waiter cfg w.kernel.sched ws 0) (freed-waiters k)

  freed-IsInherited :
      {slots : List HeldMutex} {base eff : ℕ}
      → IsInherited cfg freed slots base eff
      → IsInherited cfg w slots base eff
  freed-IsInherited r = record {
    above_base = r.above_base;
    above_waiters = λ i k e. rw (sym (freed-highest k)) (r.above_waiters i k e);
    attained = elim (r.attained) [
      | inl e ↦ inl e
      | inr (i, k, e, f) ↦ inr (i, k, e, f ∙ freed-highest k)
    ];
  }

  owner_priority :
      (id : ℕ) {t : Tcb}
      → (w.mutexes m).owner ≡ some id
      → get cfg id w.kernel.sched ≡ some t
      → ((unlock cfg hart m w).kernel.sched.tasks id).effective_priority
        ≡ inherited cfg freed (remove_held m t).held (remove_held m t).base_priority
  unfolding given freed emit
  owner_priority id owned e =
      rw
        (
          unlock-kernel,
          wake_waiters-priority cfg hart (w.mutexes m).waiters given.kernel id,
          given,
          owned,
        )
        (give_back-priority cfg m id freed e)

  waiter_ready :
      (id : ℕ)
      → id < cfg.max_ptasks
      → (w.kernel.sched.tasks id).used ≡ true
      → Listed (w.mutexes m).waiters id
      → ((unlock cfg hart m w).kernel.sched.tasks id).state ≡ RawState.ready
  unfolding given freed emit
  waiter_ready id h live listed = rw unlock-kernel (
      wake_waiters-ready cfg hart (w.mutexes m).waiters given.kernel id h
        (give_back-used cfg m (w.mutexes m).owner freed id ∙ live) (inl listed))

-- After the guard of a mutex is dropped, the mutex is unlocked with no owner and an empty waiter
-- list, and a task in use that was on the waiter list is ready: no wakeup is lost.
pub unlock-wakes :
    (cfg : Config) (hart m : ℕ) (w : System) (id : ℕ)
    → id < cfg.max_ptasks
    → (w.kernel.sched.tasks id).used ≡ true
    → Listed (w.mutexes m).waiters id
    → (((unlock cfg hart m w).kernel.sched.tasks id).state ≡ RawState.ready)
      × ((unlock cfg hart m w).mutexes m ≡ record (w.mutexes m) {
        locked = false;
        owner = none;
        waiters = clear_waiters (w.mutexes m).waiters;
      })
unlock-wakes cfg hart m w id h live listed =
    (waiter_ready cfg hart m w id h live listed, unlock-mutex cfg hart m w)

-- After the guard of a mutex is dropped, the effective priority of its owner, whose slot is in
-- use, is the largest of its base priority and the highest waiters of the mutexes that stay in its
-- held list.
pub unlock-IsInherited :
    (cfg : Config) (hart m : ℕ) (w : System) (id : ℕ) {t : Tcb}
    → (w.mutexes m).owner ≡ some id
    → get cfg id w.kernel.sched ≡ some t
    → IsInherited cfg w
        (remove_held m t).held
        (remove_held m t).base_priority
        ((unlock cfg hart m w).kernel.sched.tasks id).effective_priority
unlock-IsInherited cfg hart m w id {t} owned e = rw (owner_priority cfg hart m w id owned e) (
    freed-IsInherited cfg hart m w (
      inherited-IsInherited cfg (freed cfg hart m w) (remove_held m t).held
        (remove_held m t).base_priority))
