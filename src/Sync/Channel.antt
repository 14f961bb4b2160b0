-- ===== src/Sync/Channel.antt =====
-- `rivet/src/sync/channel.rs`. Each call is one step here; Accesses takes
-- the calls apart.
use rivet_rtos.Base.{
  ℕ, ◌+◌, ◌%◌, Bool, true, false, Option, none, some, List, [], ◌==◌, if◌then◌else◌, Table, update,
}
use rivet_rtos.Config.{Config}
use rivet_rtos.Coop.TaskId.{TaskId}
use rivet_rtos.Coop.Waker.{Waker, wake_task}
use rivet_rtos.Preempt.Sched.{Effect}
pub mod Accesses
pub mod Fifo
pub mod Interleaved
pub mod Knows
pub mod Stores
pub mod Wakeup

-- A slot of the buffer is `none` until it is written. `NO_WAITER` is `none`.
pub record Channel (A : Type 0) : Type 0 where
  pub buffer : Table (Option A)
  pub head : ℕ
  pub tail : ℕ
  pub taken : Bool
  pub recv_waiter : Option TaskId
  pub send_waiter : Option TaskId

unfoldable pub new : (A : Type 0) → Channel A
new A = record {
  buffer = λ _. none;
  head = 0;
  tail = 0;
  taken = false;
  recv_waiter = none;
  send_waiter = none;
}

-- The wakeups that a call asks for.
abbrev pub Woken : Type 0
Woken = Option TaskId

unfoldable pub wake_waiter : Config → ℕ → Option TaskId → Waker → Waker × List Effect
wake_waiter cfg hart none w = (w, [])
wake_waiter cfg hart (some id) w = wake_task cfg hart id w

-- What a receive finds: nothing, a slot that was never written, or a value.
pub data Received (A : Type 0) : Type 0 where
  empty uninit : Received A
  value : A → Received A

module _ {A : Type 0} where
  -- Whether the halves are handed out.
  unfoldable pub split : Channel A → Bool × Channel A
  split c = (if c.taken then false else true, record c { taken = true })

  -- Whether the value is sent, the channel, and the waiter that is to be woken.
  unfoldable pub try_send : ℕ → A → Channel A → Bool × Channel A × Woken
  try_send n val c =
      let next_tail = (c.tail + 1) % n in
      if next_tail == c.head then (false, c, none) else (
        true,
        record c {
          buffer = update c.buffer c.tail (some val);
          tail = next_tail;
          recv_waiter = none;
        },
        c.recv_waiter,
      )

  unfoldable pub read : Option A → Received A
  read none = uninit
  read (some v) = value v

  unfoldable pub try_recv : ℕ → Channel A → Received A × Channel A × Woken
  try_recv n c = if c.head == c.tail then (empty, c, none) else (
    read (c.buffer c.head),
    record c { head = (c.head + 1) % n; send_waiter = none },
    c.send_waiter,
  )

  unfoldable pub register_sender : TaskId → Channel A → Channel A
  register_sender id c = record c { send_waiter = some id }

  unfoldable pub register_receiver : TaskId → Channel A → Channel A
  register_receiver id c = record c { recv_waiter = some id }

  -- `clear_registration` of a send and of a receive, when it is registered.
  unfoldable pub clear_sender : Bool → Channel A → Channel A
  clear_sender registered c = if registered then record c { send_waiter = none } else c

  unfoldable pub clear_receiver : Bool → Channel A → Channel A
  clear_receiver registered c = if registered then record c { recv_waiter = none } else c

  -- A send that is polled: whether it is done, whether it stays registered, and the channel.
  unfoldable pub poll_send : ℕ → TaskId → A → Bool → Channel A → Bool × Bool × Channel A × Woken
  poll_send n me val registered c =
      let first = try_send n val c in
      let again = try_send n val (register_sender me first.1) in
      if first.0
      then (true, registered, clear_sender registered first.1, first.2)
      else (if again.0
          then (true, true, clear_sender true again.1, again.2)
          else (false, true, again.1, again.2))

  unfoldable pub is_empty : Received A → Bool
  is_empty empty = true
  is_empty _ = false

  -- A receive that is polled: `empty` is pending.
  unfoldable pub poll_recv : ℕ → TaskId → Bool → Channel A → Received A × Bool × Channel A × Woken
  poll_recv n me registered c =
      let first = try_recv n c in
      let again = try_recv n (register_receiver me first.1) in
      if is_empty first.0
      then (if is_empty again.0
          then (empty, true, again.1, again.2)
          else (again.0, true, clear_receiver true again.1, again.2))
      else (first.0, registered, clear_receiver registered first.1, first.2)
