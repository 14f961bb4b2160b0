-- ===== src/Sync/Semaphore/Laws.antt =====
-- `release` of `rivet/src/sync/semaphore.rs`: which waiter it claims.
use rivet_rtos.Base.{
  ℕ, zero, suc, ◌+◌, ◌^◌, ◌≤◌, ◌<◌, ◌≡◌, ◌≢◌, refl, ap, ◌∙◌, true, Option, none, some, ◌==◌, leb,
  if◌then◌else◌, update, arith, Bool-cases, inl, inr,
}
use native.Mathlib.Decide.{ℕ_discrete}
use rivet_rtos.Config.{Config}
use rivet_rtos.Word.{bits, bit, clear_bit, trailing_zeros}
use rivet_rtos.Word.Scan.{lowest_bit_lem, trailing-mask}
use rivet_rtos.Word.Update.{lowest_set}
use rivet_rtos.Coop.TaskId
use rivet_rtos.Coop.TaskId.{TaskId}
use rivet_rtos.Coop.Waker.{Waker, mark_ready, wake_task}
use rivet_rtos.Sync.Semaphore.{Semaphore, claim, deliver, release}

-- Every queue is a 32-bit word.
abbrev pub AreWords : Semaphore → Type 0
AreWords s = (p : ℕ) → s.waiters p < 2 ^ bits

-- What a claim among the priorities below `n` finds.
pub data Claimed (s : Semaphore) (n : ℕ) : Option TaskId × Semaphore → Type 0 where
  nobody : ((p : ℕ) → p < n → s.waiters p ≡ 0) → Claimed s n (none, s)
  first :
      (p i : ℕ)
      → p < n
      → i < bits
      → bit (s.waiters p) i ≡ true
      → ((k : ℕ) → p < k → k < n → s.waiters k ≡ 0)
      → ((j : ℕ) → bit (s.waiters p) j ≡ true → i ≤ j)
      → Claimed s n (
        some (TaskId.new p i),
        record { count = 1; waiters = update s.waiters p (clear_bit (s.waiters p) i) },
      )

Claimed-suc :
    (s : Semaphore) (n : ℕ) {r : Option TaskId × Semaphore}
    → s.waiters n ≡ 0
    → Claimed s n r
    → Claimed s (suc n) r
Claimed-suc s n e (nobody h) =
    nobody (λ p l. elim (ℕ_discrete p n) [
      | yes same ↦ ap s.waiters same ∙ e
      | no ne ↦ h p (ground arith)
    ])
Claimed-suc s n e (first p i hp hi on above low) =
    first p i (omega (arith, hp)) hi on
      (λ k a b. elim (ℕ_discrete k n) [
        | yes same ↦ ap s.waiters same ∙ e
        | no ne ↦ above k a (ground arith)
      ])
      low

pub claim-Claimed : (s : Semaphore) → AreWords s → (n : ℕ) → Claimed s n (claim n s)
unfolding claim trailing_zeros clear_bit
claim-Claimed s w zero = nobody (λ p h. absurd (omega (arith, h)))
claim-Claimed s w (suc n) = elim (Bool-cases (s.waiters n == 0)) [
  | inl e ↦ rw (claim, e) (Claimed-suc s n (ground (arith, e)) (claim-Claimed s w n))
  | inr e ↦
      let live : s.waiters n ≢ 0 = ground (arith, e) in
      let (low, set, below) = lowest_set (s.waiters n) (w n) live in
      rw (claim, e, lowest_bit_lem (s.waiters n) (w n) live, trailing-mask bits _ low)
        (first n (trailing_zeros (s.waiters n)) (omega arith) low set
          (λ k a b. absurd (omega (arith, a, b))) (λ j b. ground (arith, b, below j)))
]

-- How a release ends.
pub data Released (max : ℕ) (s : Semaphore) (w : Waker) : Semaphore → Waker → Type 0 where
  kept :
      ((p : ℕ) → p < bits → s.waiters p ≡ 0)
      → Released max s w (if leb max s.count then s else record s { count = s.count + 1 }) w
  handed :
      (p i : ℕ)
      → p < bits
      → i < bits
      → bit (s.waiters p) i ≡ true
      → ((k : ℕ) → p < k → k < bits → s.waiters k ≡ 0)
      → ((j : ℕ) → bit (s.waiters p) j ≡ true → i ≤ j)
      → Released max s w
          (record { count = 1; waiters = update s.waiters p (clear_bit (s.waiters p) i) })
          (mark_ready (TaskId.new p i) w)

deliver-Released :
    (max : ℕ) (cfg : Config) (hart : ℕ) (s : Semaphore) (w : Waker) {r : Option TaskId × Semaphore}
    → Claimed s 32 r
    → Released max s w (deliver max cfg hart w r).0 (deliver max cfg hart w r).1
unfolding deliver wake_task
deliver-Released max cfg hart s w (nobody h) = kept h
deliver-Released max cfg hart s w (first p i hp hi on above low) = handed p i hp hi on above low

Released-count :
    (max : ℕ) (s : Semaphore) (w : Waker) {r : Semaphore} {k : Waker} (p : ℕ)
    → p < bits
    → s.waiters p ≢ 0
    → Released max s w r k
    → r.count ≡ 1
Released-count max s w p hp ne (kept h) = absurd (ne (h p hp))
Released-count max s w p hp ne (handed q i hq hi on above low) = refl

-- A release marks ready the waiter of the highest priority, and of the lowest index there, takes
-- it off the list, and leaves one token. With no waiter it adds a token below the maximum. The
-- queues are 32-bit words.
pub release-Released :
    (max : ℕ) (cfg : Config) (hart : ℕ) (s : Semaphore) (w : Waker)
    → AreWords s
    → Released max s w (release max cfg hart s w).0 (release max cfg hart s w).1
unfolding release
release-Released max cfg hart s w words =
    deliver-Released max cfg hart s w (claim-Claimed s words 32)

-- A release that finds a waiter leaves one token, however many there were. The queues are 32-bit
-- words.
pub release_drops :
    (max : ℕ) (cfg : Config) (hart : ℕ) (s : Semaphore) (w : Waker) (p : ℕ)
    → AreWords s
    → p < bits
    → s.waiters p ≢ 0
    → (release max cfg hart s w).0.count ≡ 1
release_drops max cfg hart s w p words hp ne =
    Released-count max s w p hp ne (release-Released max cfg hart s w words)
