-- ===== src/Preempt/Sched/Choice.antt =====
-- What `schedule` of `rivet/src/preempt/sched.rs` returns, in terms of the tasks.
use rivet_rtos.Base.{
  ℕ, ◌≤◌, ◌<◌, ◌≡◌, ◌∙◌, subst, Bool, true, false, ◌&&◌, ltb, arith, Bool-cases, ◌⊎◌, inl, inr,
  some, none,
}
use native.Mathlib.Decide.{dec_le}
use rivet_rtos.Config.{Config}
use rivet_rtos.Word.{bits, bit}
use rivet_rtos.Word.Update.{ne_zero_of_bit}
use rivet_rtos.Preempt.Tcb.{TaskRef}
use rivet_rtos.Preempt.Sched.{Sched, u32_max, schedule}
use rivet_rtos.Preempt.Sched.Select.{Outcome, idle, runs, pick_oldest}
use rivet_rtos.Preempt.Sched.Heal.{schedule-Outcome, schedule_pure}
use rivet_rtos.Preempt.Sched.Invariant.{is_ready, IsConsistent}

-- A registered task that is ready to run.
abbrev pub runnable : Config → Sched → ℕ → Bool
runnable cfg s i = ltb i cfg.max_ptasks && ((s.tasks i).used && is_ready (s.tasks i).state)

abbrev pub level : Sched → ℕ → ℕ
level s i = (s.tasks i).effective_priority

-- No stamp has reached the value at which `schedule` no longer compares it.
abbrev pub StampsFresh : Config → Sched → Type 0
StampsFresh cfg s = (i : ℕ) → i < cfg.max_ptasks → s.dispatch_seq i < u32_max

-- Task `i` may be chosen: no runnable task has a higher priority, and none of the same priority
-- was dispatched longer ago.
pub record IsBest (cfg : Config) (s : Sched) (i : ℕ) : Type 0 where
  pub runs : runnable cfg s i ≡ true
  pub highest : (j : ℕ) → runnable cfg s j ≡ true → level s j ≤ level s i
  pub oldest :
      (j : ℕ)
      → runnable cfg s j ≡ true
      → level s j ≡ level s i
      → s.dispatch_seq i ≤ s.dispatch_seq j

pair_eq : {A B : Type 0} {r : A × B} {a : A} {b : B} → r.0 ≡ a → r.1 ≡ b → r ≡ (a, b)
pair_eq e f = λ i. (e i, f i)

module _ (cfg : Config) (s : Sched) (c : IsConsistent cfg s) where
  open c use {queued, levels}

  queued_at : (i : ℕ) → runnable cfg s i ≡ true → bit (s.queues (level s i)) i ≡ true
  queued_at i h = ground (arith, queued.member (level s i) i, levels i)

  level_of_bit :
      (p i : ℕ)
      → p < bits
      → bit (s.queues p) i ≡ true
      → (runnable cfg s i ≡ true) × (level s i ≡ p) × (i < cfg.max_ptasks)
  level_of_bit p i hp on = ground (arith, queued.member p i hp)

  highest_at :
      (p : ℕ)
      → ((k : ℕ) → k < bits → p < k → s.queues k ≡ 0)
      → (i : ℕ) → level s i ≡ p
      → (j : ℕ) → runnable cfg s j ≡ true
      → level s j ≤ level s i
  highest_at p above i at_p j rj = elim (dec_le (level s j) (level s i)) [
    | yes le ↦ le
    | no gt ↦ absurd (
        ne_zero_of_bit (s.queues (level s j)) j (queued_at j rj)
          (above (level s j) (levels j (ground arith)) (omega arith)))
  ]

  IsBest-Outcome :
      StampsFresh cfg s
      → (r : TaskRef) → Outcome cfg s.dispatch_seq s.queues r
      → ((r ≡ none) × ((i : ℕ) → runnable cfg s i ≡ false))
        ⊎ ((i : ℕ) × (r ≡ some i) × IsBest cfg s i)
  IsBest-Outcome fresh r (idle e empty) = inl (
    e,
    λ i. elim (Bool-cases (runnable cfg s i)) [
      | inl on ↦ absurd (
          ne_zero_of_bit (s.queues (level s i)) i (queued_at i on)
            (empty (level s i) (levels i (ground arith))))
      | inr off ↦ off
    ],
  )
  IsBest-Outcome fresh r (runs p hp ne above e) =
      let (i, chosen, on, old) =
        pick_oldest cfg s.dispatch_seq (s.queues p) (queued.words p hp) ne
          (λ j h. ((level_of_bit p j hp h).2, fresh j ((level_of_bit p j hp h).2))) in
      let (runs_i, at_p, small) = level_of_bit p i hp on in
      inr (
        i,
        e ∙ chosen,
        record {
          runs = runs_i;
          highest = λ j rj. highest_at p above i at_p j rj;
          oldest = λ j rj same.
              old j (subst (λ k. bit (s.queues k) j ≡ true) (same ∙ at_p) (queued_at j rj));
        },
      )

  -- With consistent ready queues, and no dispatch stamp at the largest 32-bit value, `schedule`
  -- changes nothing; it returns `none` when no task is runnable, and else a runnable task of the
  -- highest effective priority whose dispatch stamp is the oldest at that priority.
  pub schedule-IsBest :
      StampsFresh cfg s
      → ((schedule cfg s ≡ (none, s)) × ((i : ℕ) → runnable cfg s i ≡ false))
        ⊎ ((i : ℕ) × (schedule cfg s ≡ (some i, s)) × IsBest cfg s i)
  schedule-IsBest fresh =
      elim (IsBest-Outcome fresh (schedule cfg s).0 (
        schedule-Outcome cfg s queued.bitmap_word
          (λ p hp ne. ground (arith, queued.summary p hp)))) [
            | inl (e, off) ↦ inl (pair_eq e same, off)
            | inr (i, e, best) ↦ inr (i, pair_eq e same, best)
          ]
    where
      same : (schedule cfg s).1 ≡ s
      same = schedule_pure cfg s queued.bitmap_word queued.summary
