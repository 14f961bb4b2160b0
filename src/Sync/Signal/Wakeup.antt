-- ===== src/Sync/Signal/Wakeup.antt =====
-- `rivet/src/sync/signal.rs`: a waiting task and its signallers, access by access.
use rivet_rtos.Base.{ℕ, suc, ◌<◌, ◌≡◌, Bool, true, false, none, some, ◌⊎◌, arith, if◌then◌else◌}
use rivet_rtos.Coop.TaskId.{TaskId}
use rivet_rtos.Sync.Signal.{Signal, new, latch, swap_waiter, try_take, reset, unregister, is_some}

-- Where the task stands in `Wait::poll`.
pub data Place : Type 0 where
  -- outside of a poll: before the first one, or completed
  outside : Place
  -- before the first `try_take` of a future that is registered or not
  first : Bool → Place
  -- before the swap, and before the second `try_take`
  swapping second : Place
  -- before the store of `NO_WAITER`: after a second `try_take` that succeeded, and in the drop of a
  -- future that is registered
  clearing : Place
  -- the last poll has returned `Pending`
  parked : Place

-- The signal, the task, how many calls of `signal` are between their two accesses, and whether the
-- task was marked ready since its poll began.
pub record Run : Type 0 where
  pub sig : Signal
  pub task : Place
  pub signalling : ℕ
  pub woken : Bool

-- The second access of `signal`.
unfoldable pub finish : ℕ → Run → Run
finish n r =
    let (claimed, s) = swap_waiter none r.sig in
    record r { sig = s; signalling = n; woken = if is_some claimed then true else r.woken }

-- One access of the task `id`, of a signaller, or of a driver that clears the latch.
pub data Step (id : TaskId) (r : Run) : Run → Type 0 where
  fire : Step id r (record r { sig = latch r.sig; signalling = suc r.signalling })
  claim : {n : ℕ} → r.signalling ≡ suc n → Step id r (finish n r)
  clear_latch : Step id r (record r { sig = reset r.sig })
  begin : r.task ≡ outside → Step id r (record r { task = first false; woken = false })
  poll_again : r.task ≡ parked → Step id r (record r { task = first true; woken = false })
  -- a future that is ready is dropped, and clears the waiter if it is registered
  take_first :
      {registered : Bool}
      → r.task ≡ first registered
      → Step id r (record r {
        sig = (try_take r.sig).1;
        task = if (try_take r.sig).0 then (if registered then clearing else outside) else swapping;
      })
  -- without debug assertions, which stop the program at a waiter that is there already
  register :
      r.task ≡ swapping
      → Step id r (record r { sig = (swap_waiter (some id) r.sig).1; task = second })
  take_second :
      r.task ≡ second
      → Step id r (record r {
        sig = (try_take r.sig).1;
        task = if (try_take r.sig).0 then clearing else parked;
      })
  -- a parked future is dropped
  cancel : r.task ≡ parked → Step id r (record r { task = clearing })
  clear_waiter :
      r.task ≡ clearing → Step id r (record r { sig = unregister (some id) r.sig; task = outside })

pub data Reach (id : TaskId) : Run → Type 0 where
  start : Reach id (record { sig = new; task = outside; signalling = 0; woken = false })
  move : {r r' : Run} → Reach id r → Step id r r' → Reach id r'

-- A task that is registered is claimed by the next signaller, or has been marked ready.
abbrev Claims : TaskId → Run → Type 0
Claims id r = (r.sig.waiter ≡ some id) ⊎ (r.woken ≡ true)

record IsHeard (id : TaskId) (r : Run) : Type 0 where
  pub second_claims : r.task ≡ second → Claims id r
  pub parked_claims : r.task ≡ parked → Claims id r
  pub parked_fired :
      r.task ≡ parked → r.sig.fired ≡ true → r.sig.waiter ≡ some id → 0 < r.signalling

Step-IsHeard : {id : TaskId} {r r' : Run} → Step id r r' → IsHeard id r → IsHeard id r'
unfolding latch finish swap_waiter try_take reset unregister is_some
Step-IsHeard fire h = grind arith
Step-IsHeard (claim e) h = grind arith
Step-IsHeard clear_latch h = grind arith
Step-IsHeard (begin e) h = grind arith
Step-IsHeard (poll_again e) h = grind arith
Step-IsHeard (take_first {registered} e) h = elim registered [
  | true ↦ grind arith
  | false ↦ grind arith
]
Step-IsHeard (cancel e) h = grind arith
Step-IsHeard (register e) h = grind arith
Step-IsHeard (take_second e) h = grind arith
Step-IsHeard (clear_waiter e) h = grind arith

Reach-IsHeard : {id : TaskId} {r : Run} → Reach id r → IsHeard id r
Reach-IsHeard start = record {
  second_claims = λ e. cc;
  parked_claims = λ e. cc;
  parked_fired = λ e. cc;
}
Reach-IsHeard (move r s) = Step-IsHeard s (Reach-IsHeard r)

-- In every interleaving of the accesses of one waiting task, the drop of its future included, with
-- those of its signallers and of a reset: when the task is parked, the end of any call of `signal`
-- leaves it woken, and if the latch is set and no call of `signal` is under way, it has been
-- woken.
pub parked-woken :
    {id : TaskId} {r : Run}
    → Reach id r
    → r.task ≡ parked
    → ((n : ℕ) → (finish n r).woken ≡ true)
      × (r.sig.fired ≡ true → r.signalling ≡ 0 → r.woken ≡ true)
unfolding finish swap_waiter is_some
parked-woken r e =
    let h = Reach-IsHeard r in
    (
      λ n. ground (arith, h.parked_claims e),
      λ f z. ground (arith, h.parked_claims e, h.parked_fired e f),
    )
