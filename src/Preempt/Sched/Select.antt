-- ===== src/Preempt/Sched/Select.antt =====
-- The choice of `schedule` in `rivet/src/preempt/sched.rs`, within a word and among the words.
use rivet_rtos.Base.{
  ℕ, zero, suc, ◌+◌, ◌^◌, ◌≤◌, ◌<◌, ◌≡◌, ◌≢◌, refl, subst, Bool, true, false, ◌&&◌, ◌==◌, ltb,
  if◌then◌else◌, arith, Bool-cases, inl, inr, Table, some, none,
}
use native.Mathlib.Decide.{ℕ_discrete}
use rivet_rtos.Config.{Config}
use rivet_rtos.Word.{bits, bit, trailing_zeros, clear_lowest}
use rivet_rtos.Word.Laws.{bit_of_lt}
use rivet_rtos.Word.Scan.{bit-clear_lowest}
use rivet_rtos.Word.Update.{lowest_set, clear_lowest-lt, ne_zero_of_bit}
use rivet_rtos.Preempt.Tcb.{TaskRef}
use rivet_rtos.Preempt.Sched.{u32_max, scan, pick}

module _ (cfg : Config) (seqs : Table ℕ) where
  -- Among the candidates of a word `r` is the one with the smallest stamp below `m`; with no
  -- such candidate it is `b`.
  data Chosen (w : ℕ) (b : TaskRef) (m : ℕ) (r : TaskRef) : Type 0 where
    keeps : r ≡ b → ((j : ℕ) → bit w j ≡ true → j < cfg.max_ptasks → m ≤ seqs j) → Chosen w b m r
    takes :
        (i : ℕ)
        → r ≡ some i
        → bit w i ≡ true
        → i < cfg.max_ptasks
        → seqs i < m
        → ((j : ℕ) → bit w j ≡ true → j < cfg.max_ptasks → seqs i ≤ seqs j)
        → Chosen w b m r

  abbrev better : ℕ → ℕ → Bool
  better id m = ltb id cfg.max_ptasks && ltb (seqs id) m

  module _ (w : ℕ) (hw : w < 2 ^ bits) (ne : w ≢ 0) where
    abbrev low : ℕ
    low = trailing_zeros w

    spread :
        (k : ℕ)
        → (low < cfg.max_ptasks → k ≤ seqs low)
        → ((j : ℕ) → bit (clear_lowest w) j ≡ true → j < cfg.max_ptasks → k ≤ seqs j)
        → (j : ℕ) → bit w j ≡ true
        → j < cfg.max_ptasks
        → k ≤ seqs j
    spread k here rest j on hj = elim (ℕ_discrete low j) [
      | yes e ↦ subst (λ i. k ≤ seqs i) e (here (omega arith))
      | no other ↦ rest j (ground (arith, bit-clear_lowest w j hw ne)) hj
    ]

    in_word : (j : ℕ) → bit (clear_lowest w) j ≡ true → bit w j ≡ true
    in_word j on = ground (arith, bit-clear_lowest w j hw ne, lowest_set w hw ne)

    better_step :
        {b : TaskRef} {m : ℕ} {r : TaskRef}
        → low < cfg.max_ptasks
        → seqs low < m
        → Chosen (clear_lowest w) (some low) (seqs low) r
        → Chosen w b m r
    better_step hl hm (keeps e all) =
        takes low e ((lowest_set w hw ne).1) hl hm (spread (seqs low) (λ _. omega arith) all)
    better_step hl hm (takes i e on hi lt all) =
        takes i e (in_word i on) hi (omega arith) (spread (seqs i) (λ _. omega arith) all)

    worse_step :
        {b : TaskRef} {m : ℕ} {r : TaskRef}
        → (low < cfg.max_ptasks → m ≤ seqs low)
        → Chosen (clear_lowest w) b m r
        → Chosen w b m r
    worse_step h (keeps e all) = keeps e (spread _ h all)
    worse_step h (takes i e on hi lt all) =
        takes i e (in_word i on) hi lt (spread (seqs i) (λ hl. omega (arith, h hl)) all)

  -- With fuel for the bits above `32 - fuel` the loop sees every candidate.
  scan-Chosen :
      (fuel w : ℕ) (b : TaskRef) (m : ℕ)
      → w < 2 ^ bits
      → ((j : ℕ) → j + fuel < bits + 1 → bit w j ≡ false)
      → Chosen w b m (scan cfg fuel w seqs b m)
  unfolding scan
  scan-Chosen zero w b m hw none_left =
      keeps refl (λ j on hj. absurd (ground (arith, none_left j, bit_of_lt bits w j hw)))
  scan-Chosen (suc fuel) w b m hw none_below = elim (ℕ_discrete w 0) [
    | yes e ↦
        let z : (w == 0) ≡ true = ground arith in
        rw z (keeps refl (λ j on hj. absurd (ne_zero_of_bit w j on e)))
    | no ne ↦
        let z : (w == 0) ≡ false = ground arith in
        let rest : Chosen (clear_lowest w)
            (if better (trailing_zeros w) m then some (trailing_zeros w) else b)
            (if better (trailing_zeros w) m then seqs (trailing_zeros w) else m)
            (scan cfg fuel (clear_lowest w) seqs
              (if better (trailing_zeros w) m then some (trailing_zeros w) else b)
              (if better (trailing_zeros w) m then seqs (trailing_zeros w) else m)) =
          scan-Chosen fuel (clear_lowest w)
            (if better (trailing_zeros w) m then some (trailing_zeros w) else b)
            (if better (trailing_zeros w) m then seqs (trailing_zeros w) else m)
            (clear_lowest-lt w hw) (cleared ne) in
        rw z (elim (Bool-cases (better (trailing_zeros w) m)) [
          | inl yes' ↦ rw yes' (better_step w hw ne (ground arith) (ground arith) (rw yes' at rest))
          | inr no' ↦ rw no' (worse_step w hw ne (λ h. ground arith) (rw no' at rest))
        ])
  ]
    where
      cleared : w ≢ 0 → (j : ℕ) → j + fuel < bits + 1 → bit (clear_lowest w) j ≡ false
      cleared ne j h =
          let (small, on, below) = lowest_set w hw ne in
          ground (arith, bit-clear_lowest w j hw ne, none_below (trailing_zeros w), below j)

  -- The choice within one word: no candidate has an older stamp. It fails only where every
  -- candidate has the stamp `u32::MAX`.
  pub pick_oldest :
      (word : ℕ)
      → word < 2 ^ bits
      → word ≢ 0
      → ((j : ℕ) → bit word j ≡ true → (j < cfg.max_ptasks) × (seqs j < u32_max))
      → (i : ℕ) × (pick cfg word seqs ≡ some i)
        × (bit word i ≡ true)
        × ((j : ℕ) → bit word j ≡ true → seqs i ≤ seqs j)
  unfolding pick
  pick_oldest word hw ne fresh =
      picked (scan-Chosen (suc bits) word none u32_max hw (λ j h. absurd (omega arith)))
    where
      picked :
          Chosen word none u32_max (scan cfg (suc bits) word seqs none u32_max)
          → (i : ℕ) × (pick cfg word seqs ≡ some i)
            × (bit word i ≡ true)
            × ((j : ℕ) → bit word j ≡ true → seqs i ≤ seqs j)
      picked (keeps e all) =
          let (_, on, _) = lowest_set word hw ne in
          let (small, old) = fresh (trailing_zeros word) on in
          absurd (omega (arith, all (trailing_zeros word) on small))
      picked (takes i e on hi lt all) = (i, rw (e, pick) refl, on, λ j h. all j h (fresh j h).0)

  -- `schedule` reads the queue of the highest priority whose queue is not empty, or finds all empty.
  pub data Outcome (queues : Table ℕ) (r : TaskRef) : Type 0 where
    idle : r ≡ none → ((p : ℕ) → p < bits → queues p ≡ 0) → Outcome queues r
    runs :
        (p : ℕ)
        → p < bits
        → queues p ≢ 0
        → ((k : ℕ) → k < bits → p < k → queues k ≡ 0)
        → r ≡ pick cfg (queues p) seqs
        → Outcome queues r
