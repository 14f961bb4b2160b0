-- ===== src/Sync/Semaphore/Listed.antt =====
-- `rivet/src/sync/semaphore.rs`: how its accesses change the list of waiters.
use rivet_rtos.Base.{
  ℕ, ◌%◌, ◌^◌, ◌<◌, ◌≡◌, ◌≢◌, refl, ap, sym, ◌∙◌, Bool, true, arith, update, ◌⊎◌, inl, inr,
}
use native.Mathlib.Decide.{ℕ_discrete}
use rivet_rtos.Word.{bits, bit, clear_bit, trailing_zeros}
use rivet_rtos.Word.Laws.{bit-set_bit, bit-clear_bit}
use rivet_rtos.Word.Scan.{lowest_bit_lem, trailing-mask}
use rivet_rtos.Word.Update.{lowest_set, set_bit-lt, clear_bit-lt}
use rivet_rtos.Coop.TaskId
use rivet_rtos.Coop.TaskId.{TaskId, new-priority-index}
use rivet_rtos.Sync.Semaphore.{Semaphore, register_waiter, remove_waiter}
use rivet_rtos.Sync.Semaphore.Laws.{AreWords}
use rivet_rtos.Sync.Semaphore.Accesses.{Shared, IsTask, claim_bit, claimed_task}

-- Is the task on the list of waiters?
abbrev pub is_listed : Semaphore → TaskId → Bool
is_listed s id = bit (s.waiters (TaskId.priority id)) (TaskId.index id)

-- Two tasks with the same priority and index are the same.
same_task :
    {i j : TaskId}
    → IsTask i
    → IsTask j
    → TaskId.priority j ≡ TaskId.priority i
    → TaskId.index j ≡ TaskId.index i
    → j ≡ i
same_task {i} {j} ti tj p x =
    sym (new-priority-index j tj.word)
    ∙ ap (λ q. TaskId.new q (TaskId.index j)) p
    ∙ ap (TaskId.new (TaskId.priority i)) x
    ∙ new-priority-index i ti.word

module _ (s : Semaphore) (words : AreWords s) (j : TaskId) (tj : IsTask j) where
  small : TaskId.index j % 2 ^ 5 ≡ TaskId.index j
  small = omega (arith, tj.place)

  pub register_waiter-listed :
      (i : TaskId)
      → (is_listed (register_waiter j s) j ≡ true)
        × (is_listed s i ≡ true → is_listed (register_waiter j s) i ≡ true)
  unfolding register_waiter
  register_waiter-listed i =
      let w = s.waiters (TaskId.priority j) in
      let x = TaskId.index j in
      rw small (
        ground (arith, bit-set_bit w x x),
        λ h. elim (ℕ_discrete (TaskId.priority j) (TaskId.priority i)) [
          | yes e ↦ ground (arith, bit-set_bit w x (TaskId.index i), ap s.waiters e)
          | no ne ↦ ground arith
        ],
      )

  pub remove_waiter-listed :
      (i : TaskId)
      → IsTask i
      → j ≢ i
      → is_listed s i ≡ true
      → is_listed (remove_waiter j s) i ≡ true
  unfolding remove_waiter
  remove_waiter-listed i ti ne h =
      let w = s.waiters (TaskId.priority j) in
      let x = TaskId.index j in
      rw small (elim (ℕ_discrete (TaskId.priority j) (TaskId.priority i)) [
        | yes e ↦
            let other : x ≢ TaskId.index i = λ f. ne (same_task ti tj e f) in
            ground (
              arith,
              bit-clear_bit w x (TaskId.index i) (words (TaskId.priority j)) tj.place,
              ap s.waiters e,
            )
        | no ne ↦ ground arith
      ])

  pub register_waiter-AreWords : AreWords (register_waiter j s)
  unfolding register_waiter
  register_waiter-AreWords p = rw small (
      ground (
        arith,
        words p,
        set_bit-lt (s.waiters (TaskId.priority j)) (TaskId.index j) (words (TaskId.priority j))
            tj.place,
      ))

  pub remove_waiter-AreWords : AreWords (remove_waiter j s)
  unfolding remove_waiter
  remove_waiter-AreWords p = ground (
    arith,
    words p,
    clear_bit-lt (s.waiters (TaskId.priority j)) (TaskId.index j % 2 ^ 5)
        (words (TaskId.priority j)),
  )

module _ (s : Shared) (words : AreWords s.sem) (p : ℕ) (found : s.sem.waiters p ≢ 0) where
  -- The claim clears the bit of one task.
  claim_lem :
      (i : ℕ) × (i < 32)
      × (claimed_task p s ≡ TaskId.new p i)
      × ((claim_bit p s).sem
          ≡ record (s.sem) { waiters = update s.sem.waiters p (clear_bit (s.sem.waiters p) i) })
  unfolding claim_bit claimed_task trailing_zeros clear_bit
  claim_lem =
      let q = s.sem.waiters p in
      let (low, set, below) = lowest_set q (words p) found in
      (
        trailing_zeros q,
        low,
        rw (lowest_bit_lem q (words p) found, trailing-mask bits _ low) refl,
        rw (lowest_bit_lem q (words p) found) refl,
      )

  pub claim_bit-AreWords : AreWords (claim_bit p s).sem
  claim_bit-AreWords k =
      let (i, low, _, e) = claim_lem in
      rw e (ground (arith, words k, clear_bit-lt (s.sem.waiters p) i (words p)))

  pub claim_bit-listed :
      (id : TaskId)
      → IsTask id
      → is_listed s.sem id ≡ true
      → (is_listed (claim_bit p s).sem id ≡ true) ⊎ (claimed_task p s ≡ id)
  claim_bit-listed id t h =
      let (i, low, task, e) = claim_lem in
      elim (ℕ_discrete p (TaskId.priority id)) [
        | yes same ↦ elim (ℕ_discrete i (TaskId.index id)) [
          | yes it ↦ inr (
              task
              ∙ ap (λ x. TaskId.new x i) same
              ∙ ap (TaskId.new (TaskId.priority id)) it
              ∙ new-priority-index id t.word)
          | no other ↦ inl (
              rw e (
                ground (
                  arith,
                  bit-clear_bit (s.sem.waiters p) i (TaskId.index id) (words p) low,
                  ap s.sem.waiters same,
                )))
        ]
        | no ne ↦ inl (rw e (ground arith))
      ]
