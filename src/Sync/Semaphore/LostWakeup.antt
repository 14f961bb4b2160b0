-- ===== src/Sync/Semaphore/LostWakeup.antt =====
-- `rivet/src/sync/semaphore.rs`: a task that registers behind the scan of a release.
use rivet_rtos.Base.{ℕ, zero, suc, ◌<◌, ◌≡◌, ◌≢◌, refl, false, arith, Table, update, update_self}
use rivet_rtos.Coop.TaskId.{TaskId}
use rivet_rtos.Sync.Semaphore
use rivet_rtos.Sync.Semaphore.{Semaphore, register_waiter}
use rivet_rtos.Sync.Semaphore.Accesses.{
  Acquiring, Releasing, Machine, Reach, IsTask, made, mark, set_sem, store_token, start, acquire,
  release, begin, empty, register, empty_again, pass, bottom, add,
}

-- The scan of the only release goes past queues that are empty.
abbrev Scanned : ℕ → ℕ → Machine → Type 0
Scanned max initial m =
    (r : Table Releasing) × Reach max initial (record m { releases = r })
    × (r 0 ≡ Releasing.adding)
    × ((k : ℕ) → k ≢ 0 → r k ≡ Releasing.outside)

scan :
    {max initial : ℕ} (n : ℕ) (m : Machine) (r : Table Releasing)
    → Reach max initial (record m { releases = r })
    → ((p : ℕ) → m.shared.sem.waiters p ≡ 0)
    → r 0 ≡ Releasing.scanning n
    → ((k : ℕ) → k ≢ 0 → r k ≡ Releasing.outside)
    → Scanned max initial m
scan zero m r w none e others =
    (update r 0 Releasing.adding, release 0 w e bottom, refl, λ k ne. ground (arith, others k ne))
scan (suc n) m r w none e others =
    scan n m (update r 0 (Releasing.scanning n)) (release 0 w e (pass (none n))) none refl
      (λ k ne. ground (arith, others k ne))

module _ (max : ℕ) (id : TaskId) where
  -- The task is parked while a token is there, no call is under way, and it was not woken.
  abbrev pub Lost : Machine → Type 0
  Lost m =
      (m.tasks id ≡ Acquiring.parked)
      × (m.shared.sem.count ≡ 1)
      × ((k : ℕ) → m.releases k ≡ Releasing.outside)
      × (m.shared.woken id ≡ false)

  -- For every task whose identity is within the bounds and every positive maximum, a semaphore
  -- that starts with no token reaches a state in which the task is parked and was not woken, one
  -- token is there, and no release is under way: the wakeup is lost.
  pub release_loses : 0 < max → IsTask id → (m : Machine) × Reach max 0 m × Lost m
  unfolding Semaphore.new mark set_sem register_waiter store_token
  release_loses pos task =
      let out : Table Acquiring = λ _. Acquiring.outside in
      let t1 = update out id (Acquiring.trying false) in
      let t2 = update t1 id Acquiring.registering in
      let t3 = update t2 id Acquiring.retrying in
      let polled : Machine = record {
        shared = mark id false (made 0).shared;
        tasks = t2;
        releases = λ _. Releasing.outside;
      } in
      let registered = set_sem (register_waiter id polled.shared.sem) polled.shared in
      let tried : Reach max 0 polled =
        acquire id task (acquire id task start refl begin)
          (update_self out id (Acquiring.trying false)) (empty refl) in
      let (r, w, e, others) =
        scan 32 polled (update polled.releases 0 (Releasing.scanning 32))
          (release 0 tried refl begin) (λ p. refl) refl (λ k ne. ground arith) in
      let waits =
        acquire id task (acquire id task w (update_self t1 id Acquiring.registering) register)
          (update_self t2 id Acquiring.retrying) (empty_again refl) in
      (
        record {
          shared = store_token 1 registered;
          tasks = update t3 id Acquiring.parked;
          releases = update r 0 Releasing.outside;
        },
        release 0 waits e (add pos),
        (
          update_self t3 id Acquiring.parked,
          refl,
          λ k. ground (arith, others k),
          update_self (λ _. false) id false,
        ),
      )
