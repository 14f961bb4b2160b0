-- ===== src/Deadlines/Sleep.antt =====
-- The boundaries of a periodic task, of `rivet/src/deadlines.rs`.
use rivet_rtos.Base.{
  ℕ, zero, suc, ◌+◌, ◌*◌, ◌^◌, ◌<◌, ◌≡◌, ◌≢◌, refl, ap, false, some, ◌==◌, arith, Bool-cases, inl,
  inr,
}
use rivet_rtos.Config.{Config}
use rivet_rtos.ExecTime.{ExecTime}
use rivet_rtos.Deadlines.{Periods, wait_period, period_of, next_boundary}
use rivet_rtos.Preempt.Sched.Invariant.{==_refl}

-- The state after `n` calls, at the times and with the accounts of each call.
unfoldable pub waits : Config → ℕ → (ℕ → ℕ) → (ℕ → ExecTime) → ℕ → Periods → Periods
waits cfg me now e zero p = p
waits cfg me now e (suc n) p = (wait_period cfg (now n) (some me) (e n) (waits cfg me now e n p)).1

waits-period :
    (cfg : Config) (me : ℕ) (now : ℕ → ℕ) (e : ℕ → ExecTime) (n : ℕ) (p : Periods)
    → (waits cfg me now e n p).period_us ≡ p.period_us
unfolding waits wait_period
waits-period cfg me now e zero p = refl
waits-period cfg me now e (suc n) p =
    let before = waits cfg me now e n p in
    elim (Bool-cases (period_of cfg me before == 0)) [
      | inl z ↦ rw (waits, z) (waits-period cfg me now e n p)
      | inr z ↦ rw (waits, z) (waits-period cfg me now e n p)
    ]

-- However late the calls of `wait_period` come, the boundary of a periodic task that is anchored
-- is the anchor plus a whole number of periods, as long as this is below 2^64: lateness does not
-- accumulate.
pub waits_no_drift :
    (cfg : Config) (me : ℕ) (now : ℕ → ℕ) (e : ℕ → ExecTime) (n : ℕ) (p : Periods)
    → me < cfg.max_ptasks
    → p.next_us me ≢ 0
    → p.period_us me ≢ 0
    → p.next_us me + n * p.period_us me < 2 ^ 64
    → (waits cfg me now e n p).next_us me ≡ p.next_us me + n * p.period_us me
unfolding waits wait_period next_boundary period_of
waits_no_drift cfg me now e zero p hm anchored periodic fits = omega arith
waits_no_drift cfg me now e (suc n) p hm anchored periodic fits =
    let before = waits cfg me now e n p in
    let more : suc n * p.period_us me ≡ n * p.period_us me + p.period_us me = omega arith in
    let ih = waits_no_drift cfg me now e n p hm anchored periodic (omega (arith, fits, more)) in
    let same : period_of cfg me before ≡ p.period_us me =
      ground (arith, hm, ap (λ f. f me) (waits-period cfg me now e n p)) in
    let z : (p.period_us me == 0) ≡ false = ground (arith, periodic) in
    let z2 : (before.next_us me == 0) ≡ false = ground (arith, ih, anchored) in
    rw (waits, same, z, ==_refl me, z2) (omega (arith, ih, more, fits))
