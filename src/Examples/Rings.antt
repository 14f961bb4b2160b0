-- ===== src/Examples/Rings.antt =====
-- The theorems on interleaved accesses of a channel and a semaphore, at concrete runs.
use rivet_rtos.Base.{ℕ, ◌+◌, ◌%◌, ◌≡◌, ◌≢◌, refl, true, false, none, some, [], ◌∷◌, arith, update}
use rivet_rtos.Coop.TaskId
use rivet_rtos.Sync.Semaphore
use rivet_rtos.Sync.Semaphore.{register_waiter}
use rivet_rtos.Sync.Semaphore.Accesses as Tokens
use rivet_rtos.Sync.Semaphore.Accesses.{
  Acquiring, Machine, IsTask, made, acquire, set_sem, mark, take_token,
}
use rivet_rtos.Sync.Semaphore.Tokens.{Counted, Reach-Counted}
use rivet_rtos.Sync.Semaphore.LostWakeup.{Lost, release_loses}
use rivet_rtos.Sync.Semaphore.Heard.{IsHeard, Reach-IsHeard}
use rivet_rtos.Sync.Channel
use rivet_rtos.Sync.Channel.Accesses.{
  Try, first, Sending, Receiving, Run, Reach, call, begin, poll, empty, register, room, write,
  publish, wake, some_left, start, send, recv, wake_receiver, write_slot, store_tail,
  store_recv_waiter,
}
use rivet_rtos.Sync.Channel.Knows.{Refines}
use rivet_rtos.Sync.Channel.Interleaved.{Reach-Refines}
use rivet_rtos.Sync.Channel.Wakeup.{Reach-wakes}

-- A ring of three slots: task 9 waits for a value, and task 7 has sent 42 and woken it.
abbrev sent_run : Run ℕ
sent_run = record {
  shared = record {
    chan = record {
      buffer = update (λ _. none) 0 (some 42);
      head = 0;
      tail = 1;
      taken = true;
      recv_waiter = none;
      send_waiter = none;
    };
    sent = 42 ∷ [];
    received = [];
    tx_woken = false;
    rx_woken = true;
  };
  tx = Sending.outside;
  rx = Receiving.parked;
}

sent-Reach : Reach 3 7 9 sent_run
unfolding Channel.new Channel.split store_recv_waiter write_slot store_tail wake_receiver
sent-Reach =
    let waiting = recv (recv (recv (recv start begin) (empty refl)) register) (empty refl) in
    send (send (send (send (send waiting call) (room (omega arith))) write) publish) wake

-- The task is polled, and has found a value.
abbrev reading_run : Run ℕ
reading_run = record sent_run {
  shared = record (sent_run.shared) { rx_woken = false };
  rx = Receiving.reading (first true);
}

reading-Reach : Reach 3 7 9 reading_run
reading-Reach = recv (recv sent-Reach poll) (some_left (omega arith))

Reach-Refines_example :
    Refines 3 reading_run
    × ((t : Try)
        → ◌≡◌ {A = Receiving ℕ} (Receiving.reading (first true)) (Receiving.reading t)
        → ◌≢◌ {A = ℕ} 0 1)
Reach-Refines_example = Reach-Refines (omega arith) reading-Reach

Reach-wakes_example :
    (true ≡ true → ◌≢◌ {A = ℕ} 0 1 → false ≡ false → true ≡ true)
    × (false ≡ true → ◌≢◌ {A = ℕ} ((1 + 1) % 3) 0 → false ≡ false → false ≡ true)
Reach-wakes_example = Reach-wakes sent-Reach

-- The task of priority 2 and index 1.
in_bounds : IsTask 513
unfolding TaskId.priority TaskId.index
in_bounds = record { word = omega arith; level = omega arith; place = omega arith }

-- It has taken one of two tokens.
abbrev taken : Machine
taken = record {
  shared = take_token (made 2).shared;
  tasks = update (update (made 2).tasks 513 Acquiring.attempting) 513 Acquiring.outside;
  releases = (made 2).releases;
}

taken-Reach : Tokens.Reach 3 2 taken
unfolding Semaphore.new
taken-Reach =
    acquire 513 in_bounds (acquire 513 in_bounds Tokens.start refl Tokens.call) refl
      (Tokens.attempt (omega arith))

Reach-Counted_example : Counted 3 2 taken.shared
Reach-Counted_example = Reach-Counted (omega arith) (omega arith) taken-Reach

release_loses_example : (m : Machine) × Tokens.Reach 3 0 m × Lost 3 513 m
release_loses_example = release_loses 3 513 (omega arith) in_bounds

-- It has found no token, and parks.
abbrev waiting : Machine
waiting = record {
  shared =
      set_sem (register_waiter 513 (mark 513 false (made 0).shared).sem)
        (mark 513 false (made 0).shared);
  tasks =
      update
        (update
          (update (update (made 0).tasks 513 (Acquiring.trying false)) 513 Acquiring.registering)
          513 Acquiring.retrying)
        513 Acquiring.parked;
  releases = (made 0).releases;
}

waiting-Reach : Tokens.Reach 3 0 waiting
unfolding Semaphore.new set_sem register_waiter mark
waiting-Reach =
    let tried =
      acquire 513 in_bounds (acquire 513 in_bounds Tokens.start refl Tokens.begin) refl
        (Tokens.empty refl) in
    acquire 513 in_bounds (acquire 513 in_bounds tried refl Tokens.register) refl
      (Tokens.empty_again refl)

Reach-IsHeard_example : IsHeard 513 waiting
Reach-IsHeard_example = Reach-IsHeard waiting-Reach in_bounds refl
