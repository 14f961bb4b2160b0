-- ===== src/Sync/Semaphore/Accesses.antt =====
-- `rivet/src/sync/semaphore.rs`: any number of tasks and of calls of `release`, access by access. A
-- compare-exchange that fails changes nothing, and its loop loads again; it is no step.
use rivet_rtos.Base.{
  ℕ, suc, ◌+◌, ◌-◌, ◌^◌, ◌≤◌, ◌<◌, ◌≡◌, ◌≢◌, Bool, true, false, if◌then◌else◌, Table, update,
}
use Prim.Native.Nat.{bit_and}
use rivet_rtos.Word.{lowest_bit, complement, trailing_zeros}
use rivet_rtos.Coop.TaskId
use rivet_rtos.Coop.TaskId.{TaskId}
use rivet_rtos.Sync.Semaphore
use rivet_rtos.Sync.Semaphore.{Semaphore, register_waiter, remove_waiter}

-- Where a task stands.
pub data Acquiring : Type 0 where
  outside : Acquiring
  -- in a call of `try_acquire` that is not part of a poll
  attempting : Acquiring
  -- in the first try of a poll, where the future may be registered
  trying : Bool → Acquiring
  registering : Acquiring
  -- in the second try
  retrying : Acquiring
  -- before `remove_waiter`
  removing : Acquiring
  -- the last poll has returned `Pending`
  parked : Acquiring

-- Where a call of `release` stands.
pub data Releasing : Type 0 where
  outside : Releasing
  -- the queues of the priorities below the number are still to be looked at
  scanning : ℕ → Releasing
  -- before the store of 1, and before the wakeup
  claimed waking : TaskId → Releasing
  -- no waiter was found
  adding : Releasing

-- The semaphore, whether a task was marked ready since its last poll began, and how many tokens were
-- taken and stored so far.
pub record Shared : Type 0 where
  pub sem : Semaphore
  pub woken : Table Bool
  pub acquired : ℕ
  pub delivered : ℕ

unfoldable pub take_token : Shared → Shared
take_token s = record s {
  sem = record (s.sem) { count = s.sem.count - 1 };
  acquired = s.acquired + 1;
}

abbrev pub acquired_by : Bool → Acquiring
acquired_by registered = if registered then Acquiring.removing else Acquiring.outside

unfoldable pub mark : TaskId → Bool → Shared → Shared
mark id b s = record s { woken = update s.woken id b }

unfoldable pub set_sem : Semaphore → Shared → Shared
set_sem sem s = record s { sem = sem }

-- The compare-exchange of a queue that clears its lowest bit.
unfoldable pub claim_bit : ℕ → Shared → Shared
claim_bit p s =
    let q = s.sem.waiters p in
    record s {
      sem = record (s.sem) {
        waiters = update s.sem.waiters p (bit_and q (complement (lowest_bit q)));
      };
    }

unfoldable pub claimed_task : ℕ → Shared → TaskId
claimed_task p s = TaskId.new p (trailing_zeros (lowest_bit (s.sem.waiters p)))

unfoldable pub store_token : ℕ → Shared → Shared
store_token c s = record s { sem = record (s.sem) { count = c }; delivered = s.delivered + 1 }

-- One access of the task `id`.
pub data Acquire (id : TaskId) (s : Shared) : Acquiring → Shared → Acquiring → Type 0 where
  call : Acquire id s Acquiring.outside s Acquiring.attempting
  attempt : 0 < s.sem.count → Acquire id s Acquiring.attempting (take_token s) Acquiring.outside
  fail : s.sem.count ≡ 0 → Acquire id s Acquiring.attempting s Acquiring.outside
  begin : Acquire id s Acquiring.outside (mark id false s) (Acquiring.trying false)
  poll : Acquire id s Acquiring.parked (mark id false s) (Acquiring.trying true)
  take :
      {registered : Bool}
      → 0 < s.sem.count
      → Acquire id s (Acquiring.trying registered) (take_token s) (acquired_by registered)
  empty :
      {registered : Bool}
      → s.sem.count ≡ 0
      → Acquire id s (Acquiring.trying registered) s Acquiring.registering
  register :
      Acquire id s Acquiring.registering (set_sem (register_waiter id s.sem) s) Acquiring.retrying
  take_again : 0 < s.sem.count → Acquire id s Acquiring.retrying (take_token s) Acquiring.removing
  empty_again : s.sem.count ≡ 0 → Acquire id s Acquiring.retrying s Acquiring.parked
  remove : Acquire id s Acquiring.removing (set_sem (remove_waiter id s.sem) s) Acquiring.outside
  -- the future is dropped
  cancel : Acquire id s Acquiring.parked s Acquiring.removing

-- One access of a call of `release`.
pub data Release (max : ℕ) (s : Shared) : Releasing → Shared → Releasing → Type 0 where
  begin : Release max s Releasing.outside s (Releasing.scanning 32)
  pass :
      {p : ℕ}
      → s.sem.waiters p ≡ 0
      → Release max s (Releasing.scanning (suc p)) s (Releasing.scanning p)
  claim :
      {p : ℕ}
      → s.sem.waiters p ≢ 0
      → Release max s
          (Releasing.scanning (suc p))
          (claim_bit p s)
          (Releasing.claimed (claimed_task p s))
  deliver :
      {id : TaskId} → Release max s (Releasing.claimed id) (store_token 1 s) (Releasing.waking id)
  wake : {id : TaskId} → Release max s (Releasing.waking id) (mark id true s) Releasing.outside
  bottom : Release max s (Releasing.scanning 0) s Releasing.adding
  full : max ≤ s.sem.count → Release max s Releasing.adding s Releasing.outside
  add :
      s.sem.count < max
      → Release max s Releasing.adding (store_token (s.sem.count + 1) s) Releasing.outside

pub record Machine : Type 0 where
  pub shared : Shared
  pub tasks : Table Acquiring
  pub releases : Table Releasing

abbrev pub made : ℕ → Machine
made initial = record {
  shared = record { sem = Semaphore.new initial; woken = λ _. false; acquired = 0; delivered = 0 };
  tasks = λ _. Acquiring.outside;
  releases = λ _. Releasing.outside;
}

-- The identity of a task. With a priority or an index out of bounds `register_waiter` panics.
pub record IsTask (id : TaskId) : Type 0 where
  pub word : id < 2 ^ 16
  pub level : TaskId.priority id < 32
  pub place : TaskId.index id < 32

-- The runs of a semaphore, in any interleaving.
pub data Reach (max initial : ℕ) : Machine → Type 0 where
  start : Reach max initial (made initial)
  acquire :
      {m : Machine} {s : Shared} {p p' : Acquiring} (id : TaskId)
      → IsTask id
      → Reach max initial m
      → m.tasks id ≡ p
      → Acquire id m.shared p s p'
      → Reach max initial (record m { shared = s; tasks = update m.tasks id p' })
  release :
      {m : Machine} {s : Shared} {p p' : Releasing} (k : ℕ)
      → Reach max initial m
      → m.releases k ≡ p
      → Release max m.shared p s p'
      → Reach max initial (record m { shared = s; releases = update m.releases k p' })
