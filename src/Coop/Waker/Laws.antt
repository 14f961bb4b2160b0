-- ===== src/Coop/Waker/Laws.antt =====
-- The waker of `rivet/src/waker.rs` as a set of tasks.
use rivet_rtos.Base.{
  ℕ, ◌-◌, ◌%◌, ◌^◌, ◌≤◌, ◌<◌, ◌≡◌, ◌≢◌, refl, sym, ap, ◌∙◌, true, false, ◌==◌, arith, Option, some,
  none,
}
use native.Mathlib.Decide.{ℕ_discrete}
use rivet_rtos.Word.{bits, bit, mask, clear_bit, trailing_zeros, leading_zeros}
use rivet_rtos.Word.Laws.{bit-zero}
use rivet_rtos.Word.Scan.{lowest_bit_lem, trailing-mask}
use rivet_rtos.Word.Update.{highest_bit, lowest_set, ne_zero_of_bit}
use rivet_rtos.Preempt.Sched.Queues.{Members, with_member, Queues, add-Queues, remove-Queues}
use rivet_rtos.Coop.TaskId
use rivet_rtos.Coop.TaskId.{TaskId}
use rivet_rtos.Coop.Waker.{Waker, mark_ready, next_ready, has_pending}

-- The waker holds the tasks of `R`.
abbrev pub Holds : Waker → Members → Type 0
Holds w R = Queues w.queues w.ready_bitmap R

-- An identity that the executor hands out.
pub record IsTask (id : TaskId) : Type 0 where
  pub level : TaskId.priority id < bits
  pub place : TaskId.index id < bits

pub mark_ready-Holds :
    (w : Waker) (R : Members) (id : TaskId)
    → IsTask id
    → Holds w R
    → Holds (mark_ready id w) (with_member (TaskId.priority id) (TaskId.index id) true R)
unfolding mark_ready
mark_ready-Holds w R id t q =
    let e : TaskId.index id % 2 ^ 5 ≡ TaskId.index id = omega (arith, t.place) in
    rw e (add-Queues q (TaskId.priority id) (TaskId.index id) t.level t.place)

pub mark_ready-pending : (id : TaskId) (w : Waker) → has_pending (mark_ready id w) ≡ true
unfolding mark_ready has_pending
mark_ready-pending id w = refl

-- `next_ready`: `none` leaves the set empty; a task is the first of the set, and leaves it.
pub data Next (R : Members) : Option TaskId → Waker → Type 0 where
  nothing : {w : Waker} → ((p i : ℕ) → p < bits → R p i ≡ false) → Holds w R → Next R none w
  task :
      {w : Waker} (p i : ℕ)
      → p < bits
      → i < bits
      → R p i ≡ true
      → ((k j : ℕ) → k < bits → R k j ≡ true → k ≤ p)
      → ((j : ℕ) → R p j ≡ true → i ≤ j)
      → Holds w (with_member p i false R)
      → Next R (some (TaskId.new p i)) w

pub trailing_zeros-mask : (i : ℕ) → i < bits → trailing_zeros (mask i) ≡ i
unfolding trailing_zeros
trailing_zeros-mask i h = trailing-mask bits i h

module _ (w : Waker) (R : Members) (q : Holds w R) where
  empty_queue : w.ready_bitmap ≡ 0 → (p : ℕ) → p < bits → w.queues p ≡ 0
  empty_queue e p hp = ground (arith, q.summary p hp, bit-zero p, ap (λ v. bit v p) e)

  nothing_left : w.ready_bitmap ≡ 0 → (p i : ℕ) → p < bits → R p i ≡ false
  nothing_left e p i hp =
      sym (q.member p i hp) ∙ ap (λ v. bit v i) (empty_queue e p hp) ∙ bit-zero i

  -- On a waker that represents a set of tasks, so that no bit of its bitmap is stale, `next_ready`
  -- returns `none` and keeps the waker empty when no task is ready, and else takes out the ready
  -- task of the highest priority, and of the lowest index there, and no other.
  pub next_ready-Next : Next R (next_ready w).0 (next_ready w).1
  unfolding next_ready clear_bit
  next_ready-Next = elim (ℕ_discrete w.ready_bitmap 0) [
    | yes e ↦
        let z : (w.ready_bitmap == 0) ≡ true = ground arith in rw z (nothing (nothing_left e) q)
    | no ne ↦
        let z : (w.ready_bitmap == 0) ≡ false = ground arith in
        let (small, on, top) = highest_bit w.ready_bitmap q.bitmap_word ne in
        let p : ℕ = 31 - leading_zeros w.ready_bitmap in
        let live : w.queues (31 - leading_zeros w.ready_bitmap) ≢ 0 =
          ground (arith, q.summary (31 - leading_zeros w.ready_bitmap)) in
        let z' : (w.queues (31 - leading_zeros w.ready_bitmap) == 0) ≡ false = ground arith in
        let (low, set, below) = lowest_set (w.queues p) (q.words p small) live in
        rw (z, z', lowest_bit_lem (w.queues p) (q.words p small) live, trailing_zeros-mask _ low)
          (task p (trailing_zeros (w.queues p)) small low (sym (q.member p _ small) ∙ set)
            (λ k j hk r.
              top k
                (ground (arith, q.member k j hk, q.summary k hk, ne_zero_of_bit (w.queues k) j)))
            (λ j r. ground (arith, q.member p j small, below j))
            (remove-Queues q p (trailing_zeros (w.queues p)) small low))
  ]
