-- ===== src/Sync/Channel/Accesses.antt =====
-- `rivet/src/sync/channel.rs`: a sender and a receiver, access by access.
use rivet_rtos.Base.{
  ℕ, ◌+◌, ◌%◌, ◌≡◌, ◌≢◌, Bool, true, false, Option, none, some, List, [], ◌∷◌, ◌++◌, if◌then◌else◌,
  update,
}
use rivet_rtos.Coop.TaskId.{TaskId}
use rivet_rtos.Sync.Channel
use rivet_rtos.Sync.Channel.{Channel}

-- Which call a try belongs to: `try_send` or `try_recv` itself, or the first or the second try of a
-- poll, where the future may be registered before the first.
pub data Try : Type 0 where
  plain : Try
  first : Bool → Try
  again : Try

-- Where the sender stands, with the value it sends.
pub data Sending (A : Type 0) : Type 0 where
  outside : Sending A
  -- before the loads of `head` and `tail`
  trying : Try → A → Sending A
  -- before the write of the slot, and before the store of `tail`
  writing publishing : Try → A → Sending A
  -- before the swap of `recv_waiter`
  waking : Try → Sending A
  -- before the stores of `send_waiter`
  registering : A → Sending A
  clearing : Sending A
  -- the last poll has returned `Pending`
  parked : A → Sending A

-- Where the receiver stands.
pub data Receiving (A : Type 0) : Type 0 where
  outside : Receiving A
  trying : Try → Receiving A
  -- before the read of the slot, and before the store of `head`
  reading : Try → Receiving A
  consuming : Try → Option A → Receiving A
  waking : Try → Receiving A
  registering clearing parked : Receiving A

-- The channel, the values that were sent and received so far, and whether the tasks were marked
-- ready since their last polls began.
pub record Shared (A : Type 0) : Type 0 where
  pub chan : Channel A
  pub sent : List A
  pub received : List (Option A)
  pub tx_woken : Bool
  pub rx_woken : Bool

abbrev pub is_waiting : Option TaskId → Bool
is_waiting none = false
is_waiting (some id) = true

module _ {A : Type 0} where
  -- What follows a try that is refused, and one that succeeds.
  abbrev pub refused : Try → A → Sending A
  refused plain v = Sending.outside
  refused (first registered) v = Sending.registering v
  refused again v = Sending.parked v

  abbrev pub sent_by : Try → Sending A
  sent_by plain = Sending.outside
  sent_by (first false) = Sending.outside
  sent_by (first true) = Sending.clearing
  sent_by again = Sending.clearing

  abbrev pub found_empty : Try → Receiving A
  found_empty plain = Receiving.outside
  found_empty (first registered) = Receiving.registering
  found_empty again = Receiving.parked

  abbrev pub received_by : Try → Receiving A
  received_by plain = Receiving.outside
  received_by (first false) = Receiving.outside
  received_by (first true) = Receiving.clearing
  received_by again = Receiving.clearing

  -- The swap of a waiter cell, and the wakeup of the task that it held.
  unfoldable pub wake_receiver : Shared A → Shared A
  wake_receiver s = record s {
    chan = record (s.chan) { recv_waiter = none };
    rx_woken = if is_waiting s.chan.recv_waiter then true else s.rx_woken;
  }

  unfoldable pub wake_sender : Shared A → Shared A
  wake_sender s = record s {
    chan = record (s.chan) { send_waiter = none };
    tx_woken = if is_waiting s.chan.send_waiter then true else s.tx_woken;
  }

  unfoldable pub write_slot : A → Shared A → Shared A
  write_slot v s = record s {
    chan = record (s.chan) { buffer = update s.chan.buffer s.chan.tail (some v) };
  }

  unfoldable pub store_tail : ℕ → A → Shared A → Shared A
  store_tail n v s = record s {
    chan = record (s.chan) { tail = (s.chan.tail + 1) % n };
    sent = s.sent ++ (v ∷ []);
  }

  unfoldable pub store_head : ℕ → Option A → Shared A → Shared A
  store_head n x s = record s {
    chan = record (s.chan) { head = (s.chan.head + 1) % n };
    received = s.received ++ (x ∷ []);
  }

  unfoldable pub store_send_waiter : Option TaskId → Shared A → Shared A
  store_send_waiter w s = record s { chan = record (s.chan) { send_waiter = w } }

  unfoldable pub store_recv_waiter : Option TaskId → Shared A → Shared A
  store_recv_waiter w s = record s { chan = record (s.chan) { recv_waiter = w } }

  -- One access of the sender, whose task is `id`. `tail` is written by the sender only, so the two
  -- loads of a try count as one access.
  pub data Send (n : ℕ) (id : TaskId) (s : Shared A)
      : Sending A → Shared A → Sending A → Type 0 where
    call : {v : A} → Send n id s Sending.outside s (Sending.trying plain v)
    begin :
        {v : A}
        → Send n id s Sending.outside
            (record s { tx_woken = false })
            (Sending.trying (first false) v)
    poll :
        {v : A}
        → Send n id s
            (Sending.parked v)
            (record s { tx_woken = false })
            (Sending.trying (first true) v)
    full :
        {t : Try} {v : A}
        → (s.chan.tail + 1) % n ≡ s.chan.head
        → Send n id s (Sending.trying t v) s (refused t v)
    room :
        {t : Try} {v : A}
        → (s.chan.tail + 1) % n ≢ s.chan.head
        → Send n id s (Sending.trying t v) s (Sending.writing t v)
    write :
        {t : Try} {v : A}
        → Send n id s (Sending.writing t v) (write_slot v s) (Sending.publishing t v)
    publish :
        {t : Try} {v : A}
        → Send n id s (Sending.publishing t v) (store_tail n v s) (Sending.waking t)
    wake : {t : Try} → Send n id s (Sending.waking t) (wake_receiver s) (sent_by t)
    register :
        {v : A}
        → Send n id s
            (Sending.registering v)
            (store_send_waiter (some id) s)
            (Sending.trying again v)
    clear : Send n id s Sending.clearing (store_send_waiter none s) Sending.outside
    -- a future that is dropped, before it completes and after
    cancel : {v : A} → Send n id s (Sending.parked v) s Sending.clearing
    drop : Send n id s Sending.outside (store_send_waiter none s) Sending.outside

  -- One access of the receiver.
  pub data Recv (n : ℕ) (id : TaskId) (s : Shared A)
      : Receiving A → Shared A → Receiving A → Type 0 where
    call : Recv n id s Receiving.outside s (Receiving.trying plain)
    begin :
        Recv n id s Receiving.outside
          (record s { rx_woken = false })
          (Receiving.trying (first false))
    poll :
        Recv n id s Receiving.parked (record s { rx_woken = false }) (Receiving.trying (first true))
    empty :
        {t : Try} → s.chan.head ≡ s.chan.tail → Recv n id s (Receiving.trying t) s (found_empty t)
    some_left :
        {t : Try}
        → s.chan.head ≢ s.chan.tail
        → Recv n id s (Receiving.trying t) s (Receiving.reading t)
    read :
        {t : Try}
        → Recv n id s (Receiving.reading t) s (Receiving.consuming t (s.chan.buffer s.chan.head))
    consume :
        {t : Try} {o : Option A}
        → Recv n id s (Receiving.consuming t o) (store_head n o s) (Receiving.waking t)
    wake : {t : Try} → Recv n id s (Receiving.waking t) (wake_sender s) (received_by t)
    register :
        Recv n id s Receiving.registering (store_recv_waiter (some id) s) (Receiving.trying again)
    clear : Recv n id s Receiving.clearing (store_recv_waiter none s) Receiving.outside
    cancel : Recv n id s Receiving.parked s Receiving.clearing
    drop : Recv n id s Receiving.outside (store_recv_waiter none s) Receiving.outside

pub record Run (A : Type 0) : Type 0 where
  pub shared : Shared A
  pub tx : Sending A
  pub rx : Receiving A

-- A new channel that was split, with both halves at rest.
abbrev pub split_run : (A : Type 0) → Run A
split_run A = record {
  shared = record {
    chan = (Channel.split (Channel.new A)).1;
    sent = [];
    received = [];
    tx_woken = false;
    rx_woken = false;
  };
  tx = Sending.outside;
  rx = Receiving.outside;
}

-- The runs of the two tasks, in any interleaving of their accesses.
pub data Reach {A : Type 0} (n : ℕ) (tx_id rx_id : TaskId) : Run A → Type 0 where
  start : Reach n tx_id rx_id (split_run A)
  send :
      {r : Run A} {s : Shared A} {p : Sending A}
      → Reach n tx_id rx_id r
      → Send n tx_id r.shared r.tx s p
      → Reach n tx_id rx_id (record { shared = s; tx = p; rx = r.rx })
  recv :
      {r : Run A} {s : Shared A} {q : Receiving A}
      → Reach n tx_id rx_id r
      → Recv n rx_id r.shared r.rx s q
      → Reach n tx_id rx_id (record { shared = s; tx = r.tx; rx = q })
