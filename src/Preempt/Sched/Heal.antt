-- ===== src/Preempt/Sched/Heal.antt =====
-- The loop of `schedule` in `rivet/src/preempt/sched.rs`, and stale bits of the bitmap.
use rivet_rtos.Base.{
  ℕ, zero, suc, ◌+◌, ◌-◌, ◌^◌, ◌≤◌, ◌<◌, ◌≡◌, ◌≢◌, refl, subst, true, false, not, ◌==◌, arith,
}
use native.Mathlib.Decide.{ℕ_discrete}
use rivet_rtos.Config.{Config}
use rivet_rtos.Word.{bits, bit, clear_bit, leading_zeros}
use rivet_rtos.Word.Laws.{bit-clear_bit, bit-zero, bit_of_lt}
use rivet_rtos.Word.Update.{highest_bit, clear_bit-lt}
use rivet_rtos.Preempt.Sched.{Sched, schedule_loop, schedule}
use rivet_rtos.Preempt.Sched.Select.{Outcome, idle, runs}

-- Every queue that is not empty has its bit. The converse may fail: a bit may be stale.
abbrev pub Covers : Sched → Type 0
Covers s = (p : ℕ) → p < bits → s.queues p ≢ 0 → bit s.ready_bitmap p ≡ true

empty_of_bit :
    (s : Sched) → Covers s → (p : ℕ) → p < bits → bit s.ready_bitmap p ≡ false → s.queues p ≡ 0
empty_of_bit s covers p hp off = elim (ℕ_discrete (s.queues p) 0) [
  | yes e ↦ e
  | no ne ↦ absurd (ground (arith, covers p hp ne))
]

-- Clearing the bit of an empty queue.
abbrev heal : ℕ → Sched → Sched
heal p s = record s { ready_bitmap = clear_bit s.ready_bitmap p }

heal-Covers :
    (s : Sched) (k : ℕ)
    → s.ready_bitmap < 2 ^ bits
    → k < bits
    → s.queues k ≡ 0
    → Covers s
    → Covers (heal k s)
heal-Covers s k hw hk e covers p hp ne = elim (ℕ_discrete k p) [
  | yes same ↦ absurd (ne (subst (λ j. s.queues j ≡ 0) same e))
  | no other ↦ ground (arith, bit-clear_bit s.ready_bitmap k p hw hk, covers p hp ne)
]

module _ (cfg : Config) where
  schedule_loop-Outcome :
      (fuel : ℕ) (s : Sched)
      → s.ready_bitmap < 2 ^ bits
      → Covers s
      → ((p : ℕ) → fuel ≤ p + 1 → bit s.ready_bitmap p ≡ false)
      → Outcome cfg s.dispatch_seq s.queues (schedule_loop cfg fuel s.ready_bitmap s).0
  unfolding schedule_loop
  schedule_loop-Outcome zero s hw covers high =
      idle refl (λ p hp. empty_of_bit s covers p hp (high p (omega arith)))
  schedule_loop-Outcome (suc fuel) s hw covers high = elim (ℕ_discrete s.ready_bitmap 0) [
    | yes e ↦
        let z : (s.ready_bitmap == 0) ≡ true = ground arith in
        rw z (idle refl (λ p hp. empty_of_bit s covers p hp (rw e (bit-zero p))))
    | no ne ↦
        let z : (s.ready_bitmap == 0) ≡ false = ground arith in
        let (small, on, top) = highest_bit s.ready_bitmap hw ne in
        elim (ℕ_discrete (s.queues (31 - leading_zeros s.ready_bitmap)) 0) [
          | yes stale ↦
              let q : (s.queues (31 - leading_zeros s.ready_bitmap) == 0) ≡ true = ground arith in
              rw (z, q)
                (schedule_loop-Outcome fuel (heal (31 - leading_zeros s.ready_bitmap) s)
                  (clear_bit-lt s.ready_bitmap (31 - leading_zeros s.ready_bitmap) hw)
                  (heal-Covers s (31 - leading_zeros s.ready_bitmap) hw small stale covers)
                  (λ p hp. ground (
                    arith,
                    bit-clear_bit s.ready_bitmap (31 - leading_zeros s.ready_bitmap) p hw small,
                    high (31 - leading_zeros s.ready_bitmap),
                    top p,
                  )))
          | no live ↦
              let q : (s.queues (31 - leading_zeros s.ready_bitmap) == 0) ≡ false = ground arith in
              rw (z, q)
                (runs (31 - leading_zeros s.ready_bitmap) small live
                  (λ k hk lt. empty_of_bit s covers k hk (ground (arith, top k))) refl)
        ]
  ]

  -- Whatever stale bits a 32-bit bitmap holds besides those of the queues in use, the loop of
  -- `schedule` ends with the choice within the highest queue that is not empty, or with `none`
  -- when every queue is empty.
  pub schedule-Outcome :
      (s : Sched)
      → s.ready_bitmap < 2 ^ bits
      → Covers s
      → Outcome cfg s.dispatch_seq s.queues (schedule cfg s).0
  unfolding schedule
  schedule-Outcome s hw covers =
      schedule_loop-Outcome (suc bits) s hw covers
        (λ p h. bit_of_lt bits s.ready_bitmap p hw (omega arith))

  -- With no stale bit `schedule` changes nothing.
  pub schedule_pure :
      (s : Sched)
      → s.ready_bitmap < 2 ^ bits
      → ((p : ℕ) → p < bits → bit s.ready_bitmap p ≡ not (s.queues p == 0))
      → (schedule cfg s).1 ≡ s
  unfolding schedule schedule_loop
  schedule_pure s hw summary = elim (ℕ_discrete s.ready_bitmap 0) [
    | yes e ↦ let z : (s.ready_bitmap == 0) ≡ true = ground arith in rw z refl
    | no ne ↦
        let z : (s.ready_bitmap == 0) ≡ false = ground arith in
        let (small, on, top) = highest_bit s.ready_bitmap hw ne in
        let q : (s.queues (31 - leading_zeros s.ready_bitmap) == 0) ≡ false =
          ground (arith, summary (31 - leading_zeros s.ready_bitmap)) in
        rw (z, q) refl
  ]
