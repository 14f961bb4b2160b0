-- ===== src/Preempt/Sched/Queues.antt =====
-- The bitmap and the words of the ready queues of `rivet/src/preempt/sched.rs`, as a set of pairs.
use rivet_rtos.Base.{
  ℕ, ◌^◌, ◌<◌, ◌≡◌, ◌∙◌, Bool, true, false, not, ◌==◌, if◌then◌else◌, arith, Bool-cases, inl, inr,
  Table, update, update_self, subst,
}
use native.Mathlib.Decide.{ℕ_discrete}
use rivet_rtos.Word.{bits, bit, mask, set_bit, clear_bit}
use rivet_rtos.Word.Laws.{bit-set_bit, bit-clear_bit}
use rivet_rtos.Word.Update.{
  set_bit-lt, clear_bit-lt, set_bit-ne-zero, clear_bit_absent, mask_test, ne_zero_of_bit,
}

abbrev pub Members : Type 0
Members = ℕ → ℕ → Bool

pub record Queues (queues : Table ℕ) (bitmap : ℕ) (R : Members) : Type 0 where
  pub bitmap_word : bitmap < 2 ^ bits
  pub words : (p : ℕ) → p < bits → queues p < 2 ^ bits
  -- Bit `p` of the bitmap is set exactly when the queue of `p` is not empty.
  pub summary : (p : ℕ) → p < bits → bit bitmap p ≡ not (queues p == 0)
  -- Task `i` is queued at `p` exactly when the pair is a member.
  pub member : (p i : ℕ) → p < bits → bit (queues p) i ≡ R p i

abbrev pub with_member : ℕ → ℕ → Bool → Members → Members
with_member p i b R p' i' = if p == p' then (if i == i' then b else R p' i') else R p' i'

module _ {queues : Table ℕ} {bitmap : ℕ} {R : Members} (q : Queues queues bitmap R) where
  pub Queues-ext :
      (R' : Members) → ((p i : ℕ) → p < bits → R p i ≡ R' p i) → Queues queues bitmap R'
  Queues-ext R' h = record {
    bitmap_word = q.bitmap_word;
    words = q.words;
    summary = q.summary;
    member = λ p i hp. q.member p i hp ∙ h p i hp;
  }

  module _ (p i : ℕ) (hp : p < bits) (hi : i < bits) where
    pub add-Queues :
        Queues (update queues p (set_bit (queues p) i)) (set_bit bitmap p) (with_member p i true R)
    add-Queues = record {
      bitmap_word = set_bit-lt bitmap p q.bitmap_word hp;
      words = λ k hk. ground (arith, q.words k hk, set_bit-lt (queues p) i (q.words p hp) hi);
      summary = λ k hk.
          ground (arith, bit-set_bit bitmap p k, q.summary k hk, set_bit-ne-zero (queues p) i);
      member = λ k j hk. ground (arith, bit-set_bit (queues p) i j, q.member k j hk);
    }

    removed_here :
        bit (if queues p == mask i then clear_bit bitmap p else bitmap) p
        ≡ not (clear_bit (queues p) i == 0)
    removed_here = elim (Bool-cases (bit (queues p) i)) [
      | inl on ↦ ground (
        arith,
        bit-clear_bit bitmap p p q.bitmap_word hp,
        q.summary p hp,
        mask_test (queues p) i (q.words p hp) hi,
        ne_zero_of_bit (queues p) i on,
      )
      | inr off ↦ ground (
        arith,
        q.summary p hp,
        mask_test (queues p) i (q.words p hp) hi,
        clear_bit_absent (queues p) i (q.words p hp) hi off,
      )
    ]

    removed_summary :
        (k : ℕ)
        → k < bits
        → bit (if queues p == mask i then clear_bit bitmap p else bitmap) k
          ≡ not (update queues p (clear_bit (queues p) i) k == 0)
    removed_summary k hk = elim (ℕ_discrete p k) [
      | yes e ↦
          subst
            (λ j.
              bit (if queues p == mask i then clear_bit bitmap p else bitmap) j
              ≡ not (update queues p (clear_bit (queues p) i) j == 0))
            e (rw (update_self queues p (clear_bit (queues p) i)) removed_here)
      | no ne ↦ ground (arith, bit-clear_bit bitmap p k q.bitmap_word hp, q.summary k hk)
    ]

    pub remove-Queues :
        Queues
          (update queues p (clear_bit (queues p) i))
          (if queues p == mask i then clear_bit bitmap p else bitmap)
          (with_member p i false R)
    remove-Queues = record {
      bitmap_word = ground (arith, q.bitmap_word, clear_bit-lt bitmap p q.bitmap_word);
      words = λ k hk. ground (arith, q.words k hk, clear_bit-lt (queues p) i (q.words p hp));
      summary = removed_summary;
      member =
          λ k j hk. ground (arith, bit-clear_bit (queues p) i j (q.words p hp) hi, q.member k j hk);
    }
