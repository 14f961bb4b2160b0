-- ===== src/Sync/Semaphore/Tokens.antt =====
-- `rivet/src/sync/semaphore.rs`: tokens under interleaved accesses.
use rivet_rtos.Base.{ℕ, ◌+◌, ◌≤◌, ◌<◌, arith}
use rivet_rtos.Coop.TaskId.{TaskId}
use rivet_rtos.Sync.Semaphore
use rivet_rtos.Sync.Semaphore.{Semaphore, register_waiter, remove_waiter}
use rivet_rtos.Sync.Semaphore.Accesses.{
  Acquiring, Releasing, Shared, Acquire, Release, Machine, Reach, take_token, mark, set_sem,
  claim_bit, store_token, start, acquire, release, call, attempt, fail, begin, poll, take, empty,
  register, take_again, empty_again, remove, cancel, pass, claim, deliver, wake, bottom, full, add,
}

-- The tokens that were taken and are left came from the start or a release, and no more than the
-- maximum are left.
abbrev pub Counted : ℕ → ℕ → Shared → Type 0
Counted max initial s = (s.acquired + s.sem.count ≤ initial + s.delivered) × (s.sem.count ≤ max)

module _ (max initial : ℕ) {s : Shared} where
  Acquire-Counted :
      {id : TaskId} {s' : Shared} {p p' : Acquiring}
      → Acquire id s p s' p'
      → Counted max initial s
      → Counted max initial s'
  unfolding take_token mark set_sem register_waiter remove_waiter
  Acquire-Counted call h = h
  Acquire-Counted (attempt e) h = omega (arith, h)
  Acquire-Counted (fail e) h = h
  Acquire-Counted begin h = h
  Acquire-Counted poll h = h
  Acquire-Counted (take e) h = omega (arith, h)
  Acquire-Counted (empty e) h = h
  Acquire-Counted register h = h
  Acquire-Counted (take_again e) h = omega (arith, h)
  Acquire-Counted (empty_again e) h = h
  Acquire-Counted remove h = h
  Acquire-Counted cancel h = h

  Release-Counted :
      0 < max
      → {s' : Shared} {p p' : Releasing} → Release max s p s' p'
      → Counted max initial s
      → Counted max initial s'
  unfolding mark claim_bit store_token
  Release-Counted pos begin h = h
  Release-Counted pos (pass e) h = h
  Release-Counted pos (claim e) h = h
  Release-Counted pos deliver h = omega (arith, h)
  Release-Counted pos wake h = h
  Release-Counted pos bottom h = h
  Release-Counted pos (full e) h = h
  Release-Counted pos (add e) h = omega (arith, h)

-- In every interleaving of any number of tasks and releases, from an initial count that is at most
-- the positive maximum: the tokens that were taken and are left are at most the initial ones and
-- those that releases stored, and no more than the maximum are left.
pub Reach-Counted :
    {max initial : ℕ} {m : Machine}
    → 0 < max
    → initial ≤ max
    → Reach max initial m
    → Counted max initial m.shared
unfolding Semaphore.new
Reach-Counted pos le start = omega arith
Reach-Counted {max} {initial} pos le (acquire id t r e a) =
    Acquire-Counted max initial a (Reach-Counted pos le r)
Reach-Counted {max} {initial} pos le (release k r e a) =
    Release-Counted max initial pos a (Reach-Counted pos le r)
