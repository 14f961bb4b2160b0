-- ===== src/Preempt/Registry/Laws.antt =====
-- `register_full` of `rivet/src/preempt/tcb.rs`: which slot it takes, and what it writes.
use rivet_rtos.Base.{
  ℕ, zero, suc, ◌+◌, ◌≤◌, ◌<◌, ◌≡◌, ◌≢◌, refl, ap, subst, true, false, ◌==◌, arith, Bool-cases,
  Option-cases, inl, inr, some, none,
}
use mathlib.Core.Path.{subst₂}
use native.Mathlib.Decide.{ℕ_discrete}
use rivet_rtos.Config
use rivet_rtos.Config.{Config}
use rivet_rtos.Word.{bits}
use rivet_rtos.Preempt.Sched.{Sched, set_task, emit, ready_add, wake_other_harts}
use rivet_rtos.Preempt.Sched.Invariant.{IsConsistent, ready_add-IsConsistent, ==_refl}
use rivet_rtos.Preempt.Registry.{is_free, free_from, occupied, drop_old, register_full}

-- The slot that `free_from` finds is the first free one of its range.
pub free_from-some :
    (n id : ℕ) (s : Sched) {k : ℕ}
    → free_from n id s ≡ some k
    → (id ≤ k)
      × (k < id + n)
      × (is_free (s.tasks k) ≡ true)
      × ((j : ℕ) → id ≤ j → j < k → is_free (s.tasks j) ≡ false)
unfolding free_from
free_from-some zero id s h = cc
free_from-some (suc n) id s {k} h = elim (Bool-cases (is_free (s.tasks id))) [
  | inl free ↦
      let h' : some id ≡ some k = rw free at h in
      let e : id ≡ k = cc in
      (
        omega arith,
        omega arith,
        subst (λ i. is_free (s.tasks i) ≡ true) e free,
        λ j le lt. absurd (omega arith),
      )
  | inr busy ↦
      let (from, below, free, first) = free_from-some n (id + 1) s (rw busy at h) in
      (
        omega arith,
        omega arith,
        free,
        λ j le lt. elim (ℕ_discrete id j) [
          | yes e ↦ subst (λ i. is_free (s.tasks i) ≡ false) e busy
          | no ne ↦ first j (omega arith) lt
        ],
      )
]

pub free_from-none :
    (n id : ℕ) (s : Sched)
    → free_from n id s ≡ none
    → (j : ℕ) → id ≤ j
    → j < id + n
    → is_free (s.tasks j) ≡ false
unfolding free_from
free_from-none zero id s h j le lt = absurd (omega arith)
free_from-none (suc n) id s h j le lt = elim (Bool-cases (is_free (s.tasks id))) [
  | inl free ↦ absurd (let bad : some id ≡ none = rw free at h in cc)
  | inr busy ↦ elim (ℕ_discrete id j) [
    | yes e ↦ subst (λ i. is_free (s.tasks i) ≡ false) e busy
    | no ne ↦ free_from-none n (id + 1) s (rw busy at h) j (omega arith) (omega arith)
  ]
]

drop_old-IsConsistent :
    (cfg : Config) (id : ℕ) {s : Sched} → IsConsistent cfg s → IsConsistent cfg (drop_old id s)
unfolding drop_old emit
drop_old-IsConsistent cfg id {s} c = elim (Bool-cases ((s.tasks id).result_drop == 0)) [
  | inl e ↦ rw e c
  | inr e ↦ rw e (record { queued = c.queued; levels = c.levels })
]

drop_old-tasks : (id : ℕ) (s : Sched) → (drop_old id s).tasks ≡ s.tasks
unfolding drop_old emit
drop_old-tasks id s = elim (Bool-cases ((s.tasks id).result_drop == 0)) [
  | inl e ↦ rw e refl
  | inr e ↦ rw e refl
]

ready_add-tasks :
    (cfg : Config) (hart id : ℕ) (s : Sched) → (ready_add cfg hart id s).tasks ≡ s.tasks
unfolding ready_add wake_other_harts
ready_add-tasks cfg hart id s = ground arith

module _ (cfg : Config) (hart sp priority base size : ℕ) {s : Sched} (c : IsConsistent cfg s) where
  -- What a successful registration has done.
  pub record Registered (id : ℕ) (t : Sched) : Type 0 where
    pub in_range : id < cfg.max_ptasks
    pub was_free : is_free (s.tasks id) ≡ true
    pub first : (j : ℕ) → j < id → is_free (s.tasks j) ≡ false
    pub holds : t.tasks id ≡ occupied sp priority base size (s.tasks id)
    pub others : (j : ℕ) → j ≢ id → t.tasks j ≡ s.tasks j
    pub consistent : IsConsistent cfg t

  Registered-slot :
      Config.IsValid cfg
      → priority < bits
      → (id : ℕ) → free_from cfg.max_ptasks 0 s ≡ some id
      → Registered id (
          ready_add cfg hart id
            (set_task id (occupied sp priority base size (s.tasks id)) (drop_old id s)))
  unfolding set_task occupied
  Registered-slot valid level id e =
      let (_, below, free, first) = free_from-some cfg.max_ptasks 0 s e in
      let hid : id < cfg.max_ptasks = omega arith in
      let old : (drop_old id s).tasks ≡ s.tasks = drop_old-tasks id s in
      record {
        in_range = hid;
        was_free = free;
        first = λ j lt. first j (omega arith) lt;
        holds = rw (ready_add-tasks, ==_refl id) refl;
        others = λ j ne. rw (ready_add-tasks, old) (ground arith);
        consistent =
            ready_add-IsConsistent cfg valid (drop_old-IsConsistent cfg id c) id hid
              (occupied sp priority base size (s.tasks id)) level (λ p q. rw old (ground arith))
              hart refl;
      }

  -- A successful registration, at a priority below 32 and with consistent queues, takes the first
  -- free slot, fills it, leaves the other tasks alone, and keeps the queues consistent.
  pub register_full-Registered :
      Config.IsValid cfg
      → priority < bits
      → {id : ℕ} {t : Sched} → register_full cfg hart sp priority base size s ≡ (some id, t)
      → Registered id t
  unfolding register_full
  register_full-Registered valid level {id} {t} h =
      elim (Option-cases (free_from cfg.max_ptasks 0 s)) [
        | inl e ↦ absurd (let bad = rw (e, register_full) at h in cc)
        | inr (k, e) ↦
            let done = rw (e, register_full) at h in
            let same : k ≡ id = cc (ap (λ r. r.0) done) in
            subst₂ Registered same (ap (λ r. r.1) done) (Registered-slot valid level k e)
      ]

  -- A registration that fails has found no free slot, and has changed nothing.
  register_full_fails :
      (register_full cfg hart sp priority base size s).0 ≡ none
      → ((register_full cfg hart sp priority base size s).1 ≡ s)
        × ((j : ℕ) → j < cfg.max_ptasks → is_free (s.tasks j) ≡ false)
  unfolding register_full
  register_full_fails h = elim (Option-cases (free_from cfg.max_ptasks 0 s)) [
    | inl e ↦ (
      rw (e, register_full) refl,
      λ j hj. free_from-none cfg.max_ptasks 0 s e j (omega arith) (omega arith),
    )
    | inr (id, e) ↦ absurd (let bad = rw (e, register_full) at h in cc)
  ]
