-- ===== src/Dispatch/Choice.antt =====
-- `on_tick` of `rivet/src/preempt/mod.rs`, for a running task that is blocked.
use rivet_rtos.Base.{
  ℕ, ◌≡◌, refl, ap, ◌∙◌, true, false, ◌==◌, ltb, arith, Bool-cases, Option-cases, inl, inr, some,
  update_self,
}
use native.Mathlib.Decide.{ℕ_discrete}
use rivet_rtos.Config
use rivet_rtos.Config.{Config}
use rivet_rtos.Preempt.Tcb.{Tcb, RawState, state_of}
use rivet_rtos.Preempt.Sched.{
  Sched, get, set_task, emit, set_state, set_current, schedule, on_dispatch,
}
use rivet_rtos.Preempt.Sched.Invariant.{IsConsistent, ==_refl}
use rivet_rtos.Preempt.Sched.Transitions.{get-some}
use rivet_rtos.Preempt.Sched.Frame.{get-used, ready_remove-tasks}
use rivet_rtos.Preempt.Sched.Choice.{runnable, StampsFresh, IsBest, schedule-IsBest}
use rivet_rtos.Dispatch.Consistent.{save_running-IsConsistent}
use rivet_rtos.Dispatch.{
  Machine, resume, sched_of, map_sched, is_running, is_blocked, switch_memory, yield_running,
  commit, switch, running_blocked, decide, has_fault, save_running, save_sp, tick_running, on_tick,
  overflowed,
}

module _ (cfg : Config) (hart : ℕ) where
  commit-current : (id : ℕ) (s : Sched) → (commit cfg hart id s).current hart ≡ some id
  unfolding commit on_dispatch set_current
  commit-current id s = elim (Bool-cases (ltb id cfg.max_ptasks)) [
    | inl e ↦ rw (e, ==_refl hart) refl
    | inr e ↦ rw (e, ==_refl hart) refl
  ]

  commit-state : (id : ℕ) (s : Sched) → ((commit cfg hart id s).tasks id).state ≡ RawState.running
  unfolding commit on_dispatch set_current set_state set_task
  commit-state id s = elim (Bool-cases (ltb id cfg.max_ptasks)) [
    | inl e ↦
        rw
          (
            commit,
            e,
            ready_remove-tasks cfg 0 id
                (set_task id (record (s.tasks id) { state = RawState.running }) s),
            ==_refl id,
          )
          refl
    | inr e ↦
        rw
          (
            commit,
            e,
            ready_remove-tasks cfg 0 id
                (set_task id (record (s.tasks id) { state = RawState.running }) s),
            ==_refl id,
          )
          refl
  ]

  yield-blocked :
      (running : ℕ) (s : Sched) {t : Tcb}
      → get cfg running s ≡ some t
      → t.state ≡ RawState.blocked
      → yield_running cfg hart running s ≡ s
  unfolding yield_running is_running state_of
  yield-blocked running s e b = rw (e, yield_running, b) refl

  switch-lem :
      (cycles running candidate : ℕ) (m : Machine) {u : Tcb}
      → get cfg candidate (yield_running cfg hart running (sched_of m)) ≡ some u
      → ((switch cfg hart cycles running candidate m).0 ≡ resume u.sp)
        × ((sched_of (switch cfg hart cycles running candidate m).1).current hart ≡ some candidate)
        × (((sched_of (switch cfg hart cycles running candidate m).1).tasks candidate).state
            ≡ RawState.running)
  unfolding switch switch_memory emit
  switch-lem cycles running candidate m f =
      let yielded = yield_running cfg hart running (sched_of m) in
      rw (switch, f, switch)
        (refl, commit-current candidate yielded, commit-state candidate yielded)

  -- The tick of a blocked task, once `schedule` has chosen another one.
  decide-blocked :
      (sp cycles running candidate : ℕ) (m : Machine) {t : Tcb}
      → get cfg running (sched_of m) ≡ some t
      → t.state ≡ RawState.blocked
      → (candidate == running) ≡ false
      → decide cfg hart sp cycles running candidate m ≡ switch cfg hart cycles running candidate m
  unfolding decide running_blocked is_blocked state_of
  decide-blocked sp cycles running candidate m e b ne = rw (decide, e, running_blocked, b, ne) refl

save_running-stamps :
    (cfg : Config) (sp running : ℕ) (s : Sched)
    → (save_running cfg sp running s).dispatch_seq ≡ s.dispatch_seq
unfolding save_running set_task
save_running-stamps cfg sp running s = elim (Option-cases (get cfg running s)) [
  | inl e ↦ rw (e, save_running) refl
  | inr (t, e) ↦ rw (e, save_running) refl
]

module _ (cfg : Config) (hart sp : ℕ) (word : ℕ → ℕ) (cycles now_us running : ℕ) (m : Machine)
    {t : Tcb} (here : (sched_of m).current hart ≡ some running)
    (found : get cfg running (sched_of m) ≡ some t) (blocked : t.state ≡ RawState.blocked)
    (sound : overflowed word t ≡ false) where
  saved : Sched
  saved = save_running cfg sp running (sched_of m)

  saved-eq : saved ≡ set_task running (save_sp sp t) (sched_of m)
  unfolding saved save_running
  saved-eq = rw (saved, found, save_running) refl

  saved-found : get cfg running saved ≡ some (save_sp sp t)
  unfolding set_task
  saved-found =
      let (h, live, same) = get-some cfg running (sched_of m) found in
      rw saved-eq (
        get-used cfg running (set_task running (save_sp sp t) (sched_of m)) h
          (rw (==_refl running) (ground (arith, live, same)))
        ∙ ap some (update_self (sched_of m).tasks running (save_sp sp t)))

  no_fault : (k : Machine) → sched_of k ≡ saved → has_fault cfg word cycles now_us running k ≡ false
  unfolding has_fault overflowed is_running state_of
  no_fault k e = rw (has_fault, e, saved-found, has_fault, sound, blocked) refl

  after_save : Machine
  after_save = map_sched (λ _. saved) m

  tick-eq :
      (candidate : ℕ)
      → schedule cfg saved ≡ (some candidate, saved)
      → (candidate == running) ≡ false
      → on_tick cfg hart sp word cycles now_us m
        ≡ switch cfg hart cycles running candidate after_save
  unfolding on_tick tick_running after_save saved
  tick-eq candidate e apart =
      let tick : on_tick cfg hart sp word cycles now_us m
          ≡ tick_running cfg hart sp word cycles now_us running m =
        rw (here, on_tick) refl in
      let ran : tick_running cfg hart sp word cycles now_us running m
          ≡ decide cfg hart sp cycles running candidate after_save =
        rw (tick_running, e, tick_running, e, no_fault after_save refl) refl in
      tick
      ∙ ran
      ∙ decide-blocked cfg hart sp cycles running candidate after_save saved-found blocked apart

  blocked_not_runnable : runnable cfg saved running ≡ false
  unfolding set_task
  blocked_not_runnable = rw (saved-eq, ==_refl running, blocked) (ground arith)

  switched :
      (candidate : ℕ)
      → schedule cfg saved ≡ (some candidate, saved)
      → runnable cfg saved candidate ≡ true
      → ((sched_of (on_tick cfg hart sp word cycles now_us m).1).current hart ≡ some candidate)
        × (((sched_of (on_tick cfg hart sp word cycles now_us m).1).tasks candidate).state
            ≡ RawState.running)
  unfolding after_save
  switched candidate e runs =
      let apart : (candidate == running) ≡ false = elim (ℕ_discrete candidate running) [
        | yes same ↦
            absurd (ground (arith, runs, blocked_not_runnable, ap (λ i. runnable cfg saved i) same))
        | no ne ↦ ground (arith, ne)
      ] in
      let same = yield-blocked cfg hart running saved saved-found blocked in
      let live : get cfg candidate saved ≡ some (saved.tasks candidate) =
        get-used cfg candidate saved (ground (arith, runs)) (ground (arith, runs)) in
      let kept : get cfg candidate (yield_running cfg hart running saved)
          ≡ some (saved.tasks candidate) =
        rw same live in
      let (_, now_current, now_running) =
        switch-lem cfg hart cycles running candidate after_save kept in
      rw (tick-eq candidate e apart) (now_current, now_running)

-- When the running task has blocked itself, its stack is sound, the queues are consistent, the
-- stamps are below the largest 32-bit value and some task is runnable, a tick makes a best task
-- the current one, and running. A best task has the highest priority, and among those the oldest
-- dispatch stamp.
pub on_tick-switches :
    (cfg : Config)
    → Config.IsValid cfg
    → (hart sp : ℕ) (word : ℕ → ℕ) (cycles now_us running : ℕ) (m : Machine) {t : Tcb} (j : ℕ)
    → IsConsistent cfg (sched_of m)
    → StampsFresh cfg (sched_of m)
    → (sched_of m).current hart ≡ some running
    → get cfg running (sched_of m) ≡ some t
    → t.state ≡ RawState.blocked
    → overflowed word t ≡ false
    → runnable cfg (save_running cfg sp running (sched_of m)) j ≡ true
    → (i : ℕ) × IsBest cfg (save_running cfg sp running (sched_of m)) i
      × ((sched_of (on_tick cfg hart sp word cycles now_us m).1).current hart ≡ some i)
      × (((sched_of (on_tick cfg hart sp word cycles now_us m).1).tasks i).state ≡ RawState.running)
unfolding saved
on_tick-switches cfg valid hart sp word cycles now_us running m {t} j c fresh here found b sound
      ready =
    elim (schedule-IsBest cfg (save_running cfg sp running (sched_of m))
      (save_running-IsConsistent cfg valid hart sp running (sched_of m) c)
      (rw (save_running-stamps cfg sp running (sched_of m)) fresh)) [
        | inl (e, off) ↦ absurd (ground (arith, ready, off j))
        | inr (i, e, best) ↦
            let (a, r) =
              switched cfg hart sp word cycles now_us running m here found b sound i e best.runs in
            (i, best, a, r)
      ]
