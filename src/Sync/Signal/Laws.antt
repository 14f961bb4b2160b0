-- ===== src/Sync/Signal/Laws.antt =====
-- `rivet/src/sync/signal.rs`: one poll, and a poll of a task that is registered already.
use rivet_rtos.Base.{true, false, ◌≡◌, refl, Option, none, some}
use rivet_rtos.Coop.TaskId.{TaskId}
use rivet_rtos.Sync.Semaphore.{pending, panics}
use rivet_rtos.Sync.Signal.{Signal, swap_waiter, try_take, is_some, poll}

-- A second poll without a signal in between finds its own registration.
pub poll_again :
    (id : TaskId) (s : Signal) (registered : Option TaskId)
    → s.fired ≡ false
    → s.waiter ≡ none
    → ((poll true (some id) registered s).0 ≡ pending)
      × ((poll true
            (some id)
            (poll true (some id) registered s).1
            (poll true (some id) registered s).2).0
          ≡ panics)
unfolding poll try_take swap_waiter is_some
poll_again id s registered f w = rw (f, w) (refl, refl)
