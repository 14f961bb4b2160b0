-- ===== src/Mutex/Lock.antt =====
-- `lock_timeout` of `rivet/src/preempt/mutex.rs`: the attempt, the boost and the wait.
use rivet_rtos.Base.{
  ℕ, ◌≤◌, ◌≡◌, refl, ◌∙◌, Bool, true, false, Option, none, some, ltb, leb, arith, Bool-cases,
  Option-cases, inl, inr, update, ◌==◌,
}
use rivet_rtos.Config.{Config}
use rivet_rtos.Preempt.Tcb.{Tcb, TaskRef, RawState, push_held}
use rivet_rtos.Preempt.Sched.{Sched, reschedule, get, set_task, emit, block_current}
use rivet_rtos.Preempt.Sched.Transitions.{get-some}
use rivet_rtos.Mutex.{
  System, waits, try_acquire_guarded, boost, boost_holder, add_waiter, lock_slow, arm, set_mutex,
  with_sched,
}
use rivet_rtos.Timer.{Kernel, register_ptask_deadline}
use rivet_rtos.Preempt.Sched.Frame.{
  set_effective_priority-tasks, block_current-priority, block_current-state, get-used,
  set_effective_priority-current,
}
use rivet_rtos.Preempt.Sched.Invariant.{==_refl}

-- What a successful acquire finds, and what it leaves.
pub record Exclusive (m me : ℕ) (w w2 : System) : Type 0 where
  pub was_free : (w.mutexes m).locked ≡ false
  pub was_sound : (w.mutexes m).is_poisoned ≡ false
  pub is_locked : (w2.mutexes m).locked ≡ true
  pub is_owner : (w2.mutexes m).owner ≡ some me
  pub others_same : (k : ℕ) → (k == m) ≡ false → w2.mutexes k ≡ w.mutexes k

-- The mutex as a failed attempt leaves it.
abbrev pub rolled_back : ℕ → System → System
rolled_back m w = set_mutex m (record (w.mutexes m) { locked = false; owner = none }) w

module _ (cfg : Config) (m me : ℕ) (w : System) where
  abbrev pub taken : Tcb → System
  taken t = record {
    kernel = with_sched (set_task me t) w.kernel;
    mutexes = update w.mutexes m (record (w.mutexes m) { locked = true; owner = some me });
  }

  -- The ways an attempt ends.
  pub data Attempt : Bool × System → Type 0 where
    refused : Attempt (false, w)
    rolls_back :
        (w.mutexes m).locked ≡ false
        → (w.mutexes m).is_poisoned ≡ false
        → Attempt (false, rolled_back m w)
    wins :
        {t : Tcb}
        → (w.mutexes m).locked ≡ false
        → (w.mutexes m).is_poisoned ≡ false
        → get cfg me w.kernel.sched ≡ some t
        → (push_held cfg m t).0 ≡ true
        → Attempt (true, taken (push_held cfg m t).1)

  pub try-Attempt : Attempt (try_acquire_guarded cfg m me w)
  unfolding try_acquire_guarded
  try-Attempt = elim (Bool-cases (w.mutexes m).is_poisoned) [
    | inl e ↦ rw e refused
    | inr e ↦ elim (Bool-cases (w.mutexes m).locked) [
      | inl f ↦ rw (e, f) refused
      | inr f ↦ elim (Option-cases (get cfg me w.kernel.sched)) [
        | inl g ↦ rw (e, f, g, try_acquire_guarded) (rolls_back f e)
        | inr (t, g) ↦ elim (Bool-cases (push_held cfg m t).0) [
          | inl p ↦ rw (e, f, g, try_acquire_guarded, p) (wins f e g p)
          | inr p ↦ rw (e, f, g, try_acquire_guarded, p) (rolls_back f e)
        ]
      ]
    ]
  ]

  won-Exclusive : {r : Bool × System} → Attempt r → r.0 ≡ true → Exclusive m me w r.1
  won-Exclusive refused h = absurd (ground (arith, h))
  won-Exclusive (rolls_back f e) h = absurd (ground (arith, h))
  won-Exclusive (wins f e g p) h = record {
    was_free = f;
    was_sound = e;
    is_locked = ground arith;
    is_owner = ground arith;
    others_same = λ k ne. ground arith;
  }

-- A call that acquires the mutex found it unlocked and not poisoned, and leaves it locked with the
-- caller as its owner, and every other mutex as it was.
pub try_acquire_guarded-Exclusive :
    (cfg : Config) (m me : ℕ) (w : System)
    → (try_acquire_guarded cfg m me w).0 ≡ true
    → Exclusive m me w (try_acquire_guarded cfg m me w).1
try_acquire_guarded-Exclusive cfg m me w won = won-Exclusive cfg m me w (try-Attempt cfg m me w) won

module _ (cfg : Config) where
  -- A boost raises the holder at least to the waiter's base priority, and lowers nobody.
  pub boost-ge :
      (me owner : ℕ) (s : Sched) {mine t : Tcb}
      → get cfg me s ≡ some mine
      → get cfg owner s ≡ some t
      → mine.base_priority ≤ ((boost cfg me (some owner) s).tasks owner).effective_priority
  unfolding boost
  boost-ge me owner s {mine} {t} f g =
      elim (Bool-cases (ltb t.effective_priority mine.base_priority)) [
        | inl e ↦
            rw
              (
                f,
                boost,
                g,
                boost,
                e,
                set_effective_priority-tasks cfg owner mine.base_priority s,
                ==_refl owner,
              )
              (omega arith)
        | inr e ↦ rw (f, boost, g, boost, e, (get-some cfg owner s g).2) (ground (arith, e))
      ]

  pub arm-sched :
      (me : ℕ) (deadline : Option ℕ) (k : Kernel) → (arm cfg me deadline k).sched ≡ k.sched
  unfolding arm
  arm-sched me none k = refl
  arm-sched me (some d) k = elim (Option-cases (register_ptask_deadline cfg d me k.timers)) [
    | inl e ↦ rw (e, arm) refl
    | inr (t, e) ↦ rw (e, arm) refl
  ]

  pub refused_lem :
      (m me : ℕ) (w : System)
      → (w.mutexes m).locked ≡ true
      → try_acquire_guarded cfg m me w ≡ (false, w)
  unfolding try_acquire_guarded
  refused_lem m me w e = elim (Bool-cases (w.mutexes m).is_poisoned) [
    | inl f ↦ rw f refl
    | inr f ↦ rw (f, e) refl
  ]

  pub boost-used :
      (me : ℕ) (o : TaskRef) (s : Sched) (i : ℕ)
      → ((boost cfg me o s).tasks i).used ≡ (s.tasks i).used
  unfolding boost
  boost-used me none s i = refl
  boost-used me (some owner) s i = elim (Option-cases (get cfg me s)) [
    | inl f ↦ rw (f, boost) refl
    | inr (mine, f) ↦ elim (Option-cases (get cfg owner s)) [
      | inl g ↦ rw (f, boost, g, boost) refl
      | inr (t, g) ↦ elim (Bool-cases (ltb t.effective_priority mine.base_priority)) [
        | inl e ↦
            rw (f, boost, g, boost, e, set_effective_priority-tasks cfg owner mine.base_priority s)
              (ground arith)
        | inr e ↦ rw (f, boost, g, boost, e) refl
      ]
    ]
  ]

  pub boost-current :
      (me : ℕ) (o : TaskRef) (s : Sched) (hart : ℕ)
      → (boost cfg me o s).current hart ≡ s.current hart
  unfolding boost
  boost-current me none s hart = refl
  boost-current me (some owner) s hart = elim (Option-cases (get cfg me s)) [
    | inl f ↦ rw (f, boost) refl
    | inr (mine, f) ↦ elim (Option-cases (get cfg owner s)) [
      | inl g ↦ rw (f, boost, g, boost) refl
      | inr (t, g) ↦ elim (Bool-cases (ltb t.effective_priority mine.base_priority)) [
        | inl e ↦
            rw
              (f, boost, g, boost, e, set_effective_priority-current cfg owner mine.base_priority s)
              refl
        | inr e ↦ rw (f, boost, g, boost, e) refl
      ]
    ]
  ]

  pub full_held : (m : ℕ) (t : Tcb) → cfg.max_held ≤ t.held_count → (push_held cfg m t).0 ≡ false
  unfolding push_held
  full_held m t h = let e : leb cfg.max_held t.held_count ≡ true = ground (arith, h) in rw e refl

  pub rolled_back_lem :
      (m me : ℕ) (w : System) {t : Tcb}
      → (w.mutexes m).locked ≡ false
      → (w.mutexes m).is_poisoned ≡ false
      → get cfg me w.kernel.sched ≡ some t
      → (push_held cfg m t).0 ≡ false
      → try_acquire_guarded cfg m me w ≡ (false, rolled_back m w)
  unfolding try_acquire_guarded
  rolled_back_lem m me w f e g p = rw (f, e, g, try_acquire_guarded, p, e) refl

  module _ (hart m me owner : ℕ) (deadline : Option ℕ) (w : System) {mine t : Tcb}
      (is_locked : (w.mutexes m).locked ≡ true) (is_owned : (w.mutexes m).owner ≡ some owner)
      (found_me : get cfg me w.kernel.sched ≡ some mine)
      (found_owner : get cfg owner w.kernel.sched ≡ some t) where
    boosted : Sched
    boosted = boost cfg me (some owner) w.kernel.sched

    after : Sched
    after = (lock_slow cfg hart m me deadline w).1.kernel.sched

    after-eq : after ≡ emit reschedule (block_current cfg hart boosted)
    unfolding after boosted lock_slow boost_holder add_waiter
    after-eq =
        rw
          (
            after,
            refused_lem m me w is_locked,
            is_owned,
            arm-sched me deadline (with_sched (boost cfg me (some owner)) w.kernel),
          )
          refl

    slow_waits : (lock_slow cfg hart m me deadline w).0 ≡ waits
    unfolding lock_slow
    slow_waits = rw (refused_lem m me w is_locked) refl

    owner_raised : mine.base_priority ≤ (after.tasks owner).effective_priority
    unfolding boosted emit
    owner_raised =
        rw (after-eq, block_current-priority cfg hart boosted owner)
          (boost-ge me owner w.kernel.sched found_me found_owner)

    me_blocks : w.kernel.sched.current hart ≡ some me → (after.tasks me).state ≡ RawState.blocked
    unfolding boosted emit
    me_blocks here =
        let (h, live, _) = get-some cfg me w.kernel.sched found_me in
        rw after-eq (
          block_current-state cfg hart boosted me (boosted.tasks me)
            (boost-current me (some owner) w.kernel.sched hart ∙ here)
            (get-used cfg me boosted h (boost-used me (some owner) w.kernel.sched me ∙ live)))

    pub slow_lem :
        w.kernel.sched.current hart ≡ some me
        → ((lock_slow cfg hart m me deadline w).0 ≡ waits)
          × (mine.base_priority
              ≤ ((lock_slow cfg hart m me deadline w).1.kernel.sched.tasks
                  owner).effective_priority)
          × (((lock_slow cfg hart m me deadline w).1.kernel.sched.tasks me).state
              ≡ RawState.blocked)
    unfolding after
    slow_lem here = (slow_waits, owner_raised, me_blocks here)

-- A task that finds the mutex locked blocks itself in the critical section, and the owner, whose
-- slot is in use, then has an effective priority that is not below the task's base priority.
pub lock_slow-inherits :
    (cfg : Config) (hart m me owner : ℕ) (deadline : Option ℕ) (w : System) {mine t : Tcb}
    → (w.mutexes m).locked ≡ true
    → (w.mutexes m).owner ≡ some owner
    → get cfg me w.kernel.sched ≡ some mine
    → get cfg owner w.kernel.sched ≡ some t
    → w.kernel.sched.current hart ≡ some me
    → ((lock_slow cfg hart m me deadline w).0 ≡ waits)
      × (mine.base_priority
          ≤ ((lock_slow cfg hart m me deadline w).1.kernel.sched.tasks owner).effective_priority)
      × (((lock_slow cfg hart m me deadline w).1.kernel.sched.tasks me).state ≡ RawState.blocked)
lock_slow-inherits cfg hart m me owner deadline w a b c d here =
    slow_lem cfg hart m me owner deadline w a b c d here

-- A task whose held list is full blocks in the critical section on a mutex that is free and not
-- poisoned, and no task holds the mutex afterwards: the call does not return
-- `too_many_held_mutexes`.
pub lock_slow-stuck :
    (cfg : Config) (hart m me : ℕ) (deadline : Option ℕ) (w : System) {mine : Tcb}
    → (w.mutexes m).locked ≡ false
    → (w.mutexes m).is_poisoned ≡ false
    → get cfg me w.kernel.sched ≡ some mine
    → cfg.max_held ≤ mine.held_count
    → w.kernel.sched.current hart ≡ some me
    → ((lock_slow cfg hart m me deadline w).0 ≡ waits)
      × (((lock_slow cfg hart m me deadline w).1.mutexes m).locked ≡ false)
      × (((lock_slow cfg hart m me deadline w).1.mutexes m).owner ≡ none)
      × (((lock_slow cfg hart m me deadline w).1.kernel.sched.tasks me).state ≡ RawState.blocked)
unfolding lock_slow boost_holder add_waiter boost emit
lock_slow-stuck cfg hart m me deadline w {mine} a b c d here =
    let p = full_held cfg m mine d in
    let e = rolled_back_lem cfg m me w a b c p in
    rw (e, ==_refl m, arm-sched cfg me deadline w.kernel)
      (refl, refl, refl, block_current-state cfg hart w.kernel.sched me mine here c)
