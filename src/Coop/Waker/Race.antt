-- ===== src/Coop/Waker/Race.antt =====
-- `next_ready` of `rivet/src/waker.rs`: a wakeup between its two accesses.
use rivet_rtos.Base.{
  ℕ, ◌-◌, ◌%◌, ◌^◌, ◌<◌, ◌≡◌, ◌≢◌, refl, ap, ◌∙◌, true, false, ◌==◌, arith, Bool-cases, inl, inr,
  some, none,
}
use native.Mathlib.Nat.{one-le-pow}
use rivet_rtos.Word.{bits, bit, mask, set_bit, clear_bit, leading_zeros, lowest_bit}
use rivet_rtos.Word.Laws.{bit-mask, bit-set_bit, bit-clear_bit, pow_mono}
use rivet_rtos.Word.Scan.{lowest_bit_lem, word_zero}
use rivet_rtos.Word.Update.{highest_bit, set_bit-lt, clear_bit-lt}
use rivet_rtos.Preempt.Sched.Invariant.{==_refl}
use rivet_rtos.Coop.TaskId
use rivet_rtos.Coop.TaskId.{TaskId, priority-new, index-new}
use rivet_rtos.Coop.Waker.{Waker, mark_ready, next_ready, next_ready_around}
use rivet_rtos.Coop.Waker.Laws.{trailing_zeros-mask}

-- With nothing in between it is `next_ready`.
next_ready_around_lem : (w : Waker) → next_ready_around (λ v. v) w ≡ next_ready w
unfolding next_ready_around next_ready
next_ready_around_lem w =
    let p = 31 - leading_zeros w.ready_bitmap in
    elim (Bool-cases (w.queues p == lowest_bit (w.queues p))) [
      | inl e ↦ rw e refl
      | inr e ↦ rw e refl
    ]

mask-ne_zero : (i : ℕ) → mask i ≢ 0
mask-ne_zero i e = ground (arith, e, one-le-pow i 2)

highest_mask : (p : ℕ) → p < bits → 31 - leading_zeros (mask p) ≡ p
highest_mask p h =
    let (small, on, top) = highest_bit (mask p) (pow_mono p bits h) (mask-ne_zero p) in
    ground (arith, on, bit-mask p (31 - leading_zeros (mask p)))

lowest_mask : (i : ℕ) → i < bits → lowest_bit (mask i) ≡ mask i
lowest_mask i h =
    lowest_bit_lem (mask i) (pow_mono i bits h) (mask-ne_zero i) ∙ ap mask (trailing_zeros-mask i h)

cleared : (p : ℕ) → p < bits → clear_bit (set_bit (mask p) p) p ≡ 0
cleared p h =
    let small = set_bit-lt (mask p) p (pow_mono p bits h) h in
    word_zero bits (clear_bit (set_bit (mask p) p) p) (clear_bit-lt (set_bit (mask p) p) p small)
      (λ k. ground (
        arith,
        bit-clear_bit (set_bit (mask p) p) p k small h,
        bit-set_bit (mask p) p k,
        bit-mask p k,
      ))

-- The only ready task of the only priority is taken, and a task of that priority is marked ready
-- between the two accesses: it stays in its queue, and the next call finds no task.
mark_ready_lost :
    (p i j : ℕ) (w : Waker)
    → p < bits
    → i < bits
    → j < bits
    → w.ready_bitmap ≡ mask p
    → w.queues p ≡ mask i
    → ((next_ready_around (mark_ready (TaskId.new p j)) w).0 ≡ some (TaskId.new p i))
      × (bit ((next_ready_around (mark_ready (TaskId.new p j)) w).1.queues p) j ≡ true)
      × ((next_ready (next_ready_around (mark_ready (TaskId.new p j)) w).1).0 ≡ none)
unfolding next_ready_around next_ready mark_ready
mark_ready_lost p i j w hp hi hj one last =
    let top : 31 - leading_zeros w.ready_bitmap ≡ p =
      ap (λ v. 31 - leading_zeros v) one ∙ highest_mask p hp in
    let low : lowest_bit (w.queues p) ≡ mask i = ap lowest_bit last ∙ lowest_mask i hi in
    let there : (mask p == 0) ≡ false = ground (arith, mask-ne_zero p) in
    let there' : (mask i == 0) ≡ false = ground (arith, mask-ne_zero i) in
    let pr : TaskId.priority (TaskId.new p j) ≡ p = priority-new p j (omega (arith, hp)) in
    let ix : TaskId.index (TaskId.new p j) ≡ j = index-new p j (omega (arith, hj)) in
    let jj : j % 2 ^ 5 ≡ j = omega (arith, hj) in
    rw
      (
        top,
        low,
        one,
        last,
        there,
        there',
        pr,
        ix,
        jj,
        ==_refl (mask i),
        ==_refl p,
        trailing_zeros-mask i hi,
        cleared p hp,
      )
      (refl, bit-set_bit _ j j ∙ ground arith, refl)
