-- ===== src/Watchdog/Overdue.antt =====
-- `check_task_checkins` of `rivet/src/watchdog.rs`: which task it finds.
use rivet_rtos.Base.{
  ℕ, zero, suc, ◌+◌, ◌-◌, ◌%◌, ◌^◌, ◌≤◌, ◌<◌, ◌≡◌, ◌≢◌, refl, subst, true, false, ◌&&◌, none, some,
  ◌==◌, ltb, arith, Bool-cases, Option-cases, inl, inr, ◌⊎◌,
}
use native.Mathlib.Decide.{ℕ_discrete}
use rivet_rtos.Config
use rivet_rtos.Config.{Config}
use rivet_rtos.Word.{bits}
use rivet_rtos.Preempt.Sched.{Sched}
use rivet_rtos.Preempt.Sched.Invariant.{IsConsistent}
use rivet_rtos.Preempt.Registry.{register_full, occupied}
use rivet_rtos.Preempt.Registry.Laws.{register_full-Registered}
use rivet_rtos.Watchdog.{Watchdog, as_u32, is_overdue, overdue_from, check_task_checkins}

-- The test on wrapping times is the one on true times, over less than 2^32 microseconds.
pub is_overdue-since :
    (timeout since now : ℕ)
    → since ≤ now
    → now < since + 2 ^ 32
    → as_u32 since ≢ 0
    → is_overdue (as_u32 now) timeout (as_u32 since) ≡ ltb timeout (now - since)
unfolding is_overdue
is_overdue-since timeout since now le lt ne =
    let age : (as_u32 now + 2 ^ 32 - as_u32 since) % 2 ^ 32 ≡ now - since = omega arith in
    let stamped : (as_u32 since == 0) ≡ false = ground (arith, ne) in rw (age, stamped) refl

overdue_from-none :
    (n id now timeout : ℕ) (s : Sched)
    → overdue_from n id now timeout s ≡ none
    → (j : ℕ) → id ≤ j
    → j < id + n
    → ((s.tasks j).used && is_overdue now timeout (s.tasks j).last_checkin) ≡ false
unfolding overdue_from
overdue_from-none zero id now timeout s e j le lt = absurd (omega arith)
overdue_from-none (suc n) id now timeout s e j le lt =
    elim (Bool-cases ((s.tasks id).used && is_overdue now timeout (s.tasks id).last_checkin)) [
      | inl late ↦ absurd (let bad : some id ≡ none = rw late at e in cc)
      | inr fine ↦ elim (ℕ_discrete id j) [
        | yes same ↦
            subst
              (λ i. ((s.tasks i).used && is_overdue now timeout (s.tasks i).last_checkin) ≡ false)
              same fine
        | no ne ↦
            overdue_from-none n (id + 1) now timeout s (rw fine at e) j (omega arith) (omega arith)
      ]
    ]

overdue_from-some :
    (n id now timeout : ℕ) (s : Sched) {k : ℕ}
    → overdue_from n id now timeout s ≡ some k
    → (k < id + n)
      × ((s.tasks k).used ≡ true)
      × (is_overdue now timeout (s.tasks k).last_checkin ≡ true)
unfolding overdue_from
overdue_from-some zero id now timeout s e = cc
overdue_from-some (suc n) id now timeout s {k} e =
    elim (Bool-cases ((s.tasks id).used && is_overdue now timeout (s.tasks id).last_checkin)) [
      | inl late ↦
          let found : some id ≡ some k = rw late at e in
          let same : id ≡ k = cc in
          subst
            (λ i.
              (i < id + suc n)
              × ((s.tasks i).used ≡ true)
              × (is_overdue now timeout (s.tasks i).last_checkin ≡ true))
            same (ground arith)
      | inr fine ↦
          let (lt, used, late) = overdue_from-some n (id + 1) now timeout s (rw fine at e) in
          (omega arith, used, late)
    ]

-- What a check of an armed watchdog does: it resets the board for a task in use that is overdue, or
-- every task in use has checked in in time, or never.
abbrev pub Checked : Config → ℕ → Watchdog → Sched → Type 0
Checked cfg now_us w s =
    (((check_task_checkins cfg now_us w s).0 ≡ none)
      × ((check_task_checkins cfg now_us w s).1 ≡ w)
      × ((j : ℕ)
          → j < cfg.max_ptasks
          → (s.tasks j).used ≡ true
          → is_overdue (as_u32 now_us) w.timeout_us (s.tasks j).last_checkin ≡ false))
    ⊎ ((k : ℕ) × (k < cfg.max_ptasks)
        × ((check_task_checkins cfg now_us w s).0 ≡ some k)
        × ((check_task_checkins cfg now_us w s).1.reset ≡ true)
        × ((s.tasks k).used ≡ true)
        × (is_overdue (as_u32 now_us) w.timeout_us (s.tasks k).last_checkin ≡ true))

pub check_task_checkins-Checked :
    (cfg : Config) (now_us : ℕ) (w : Watchdog) (s : Sched)
    → 0 < w.timeout_us
    → Checked cfg now_us w s
unfolding check_task_checkins
check_task_checkins-Checked cfg now_us w s pos =
    let armed : (w.timeout_us == 0) ≡ false = ground arith in
    elim (Option-cases (overdue_from cfg.max_ptasks 0 (as_u32 now_us) w.timeout_us s)) [
      | inl fine ↦ inl (
        rw (armed, fine) refl,
        rw (armed, fine) refl,
        λ j lt used. ground (
          arith,
          overdue_from-none cfg.max_ptasks 0 (as_u32 now_us) w.timeout_us s fine j (omega arith)
              (omega arith),
        ),
      )
      | inr (k, late) ↦
          let (lt, used, over) =
            overdue_from-some cfg.max_ptasks 0 (as_u32 now_us) w.timeout_us s late in
          inr (k, omega arith, rw (armed, late) refl, rw (armed, late) refl, used, over)
    ]

-- A task that is registered, at a priority below 32 and with a valid configuration and consistent
-- queues, in a slot whose last task is overdue is in use and overdue itself, although it has never
-- checked in.
pub respawned_overdue :
    (cfg : Config) (hart sp priority base size now timeout : ℕ) {s : Sched}
    → Config.IsValid cfg
    → IsConsistent cfg s
    → priority < bits
    → {id : ℕ} {t : Sched} → register_full cfg hart sp priority base size s ≡ (some id, t)
    → is_overdue now timeout (s.tasks id).last_checkin ≡ true
    → ((t.tasks id).used ≡ true) × (is_overdue now timeout (t.tasks id).last_checkin ≡ true)
unfolding occupied
respawned_overdue cfg hart sp priority base size now timeout valid c level e late =
    let r = register_full-Registered cfg hart sp priority base size c valid level e in
    rw r.holds (refl, late)
