-- ===== src/Sync/Channel/Wakeup.antt =====
-- `rivet/src/sync/channel.rs`: no wakeup of a parked sender or receiver is lost.
use rivet_rtos.Base.{ℕ, ◌+◌, ◌%◌, ◌≡◌, ◌≢◌, Bool, true, false, some, ◌⊎◌, arith}
use rivet_rtos.Coop.TaskId.{TaskId}
use rivet_rtos.Sync.Channel.Accesses.{
  plain, first, again, Sending, Receiving, Shared, Run, Send, Recv, Reach, wake_receiver,
  wake_sender, write_slot, store_tail, store_head, store_send_waiter, store_recv_waiter, call,
  begin, poll, full, room, write, publish, wake, register, clear, cancel, drop, empty, some_left,
  read, consume, start, send, recv,
}

module _ {A : Type 0} where
  abbrev pub tx_parks : Sending A → Bool
  tx_parks (Sending.parked v) = true
  tx_parks _ = false

  abbrev pub rx_parks : Receiving A → Bool
  rx_parks Receiving.parked = true
  rx_parks _ = false

  -- Is a swap of the other's waiter cell still to come?
  abbrev pub tx_wakes : Sending A → Bool
  tx_wakes (Sending.waking t) = true
  tx_wakes _ = false

  abbrev pub rx_wakes : Receiving A → Bool
  rx_wakes (Receiving.waking t) = true
  rx_wakes _ = false

  -- Does the task rely on its registration?
  abbrev tx_listens : Sending A → Bool
  tx_listens (Sending.trying again v) = true
  tx_listens (Sending.parked v) = true
  tx_listens _ = false

  abbrev rx_listens : Receiving A → Bool
  rx_listens (Receiving.trying again) = true
  rx_listens Receiving.parked = true
  rx_listens _ = false

  record IsHeard (n : ℕ) (tx_id rx_id : TaskId) (s : Shared A) (p : Sending A) (q : Receiving A)
      : Type 0 where
    pub tx_claims : tx_listens p ≡ true → (s.chan.send_waiter ≡ some tx_id) ⊎ (s.tx_woken ≡ true)
    pub rx_claims : rx_listens q ≡ true → (s.chan.recv_waiter ≡ some rx_id) ⊎ (s.rx_woken ≡ true)
    pub tx_parked :
        tx_parks p ≡ true
        → (s.chan.tail + 1) % n ≢ s.chan.head
        → s.chan.send_waiter ≡ some tx_id
        → rx_wakes q ≡ true
    pub rx_parked :
        rx_parks q ≡ true
        → s.chan.head ≢ s.chan.tail
        → s.chan.recv_waiter ≡ some rx_id
        → tx_wakes p ≡ true

  module _ {n : ℕ} {tx_id rx_id : TaskId} {s : Shared A} where
    Send-IsHeard :
        {p p' : Sending A} {s' : Shared A} (q : Receiving A)
        → Send n tx_id s p s' p'
        → IsHeard n tx_id rx_id s p q
        → IsHeard n tx_id rx_id s' p' q
    unfolding wake_receiver store_send_waiter write_slot store_tail
    Send-IsHeard q call h = grind arith
    Send-IsHeard q begin h = grind arith
    Send-IsHeard q poll h = grind arith
    Send-IsHeard q (full {t = plain} e) h = grind arith
    Send-IsHeard q (full {t = first b} e) h = grind arith
    Send-IsHeard q (full {t = again} e) h = grind arith
    Send-IsHeard q (room ne) h = grind arith
    Send-IsHeard q write h = grind arith
    Send-IsHeard q publish h = grind arith
    Send-IsHeard q (wake {t = plain}) h = grind arith
    Send-IsHeard q (wake {t = first false}) h = grind arith
    Send-IsHeard q (wake {t = first true}) h = grind arith
    Send-IsHeard q (wake {t = again}) h = grind arith
    Send-IsHeard q register h = grind arith
    Send-IsHeard q clear h = grind arith
    Send-IsHeard q cancel h = grind arith
    Send-IsHeard q drop h = grind arith

    Recv-IsHeard :
        (p : Sending A) {q q' : Receiving A} {s' : Shared A}
        → Recv n rx_id s q s' q'
        → IsHeard n tx_id rx_id s p q
        → IsHeard n tx_id rx_id s' p q'
    unfolding wake_sender store_recv_waiter store_head
    Recv-IsHeard p call h = grind arith
    Recv-IsHeard p begin h = grind arith
    Recv-IsHeard p poll h = grind arith
    Recv-IsHeard p (empty {t = plain} e) h = grind arith
    Recv-IsHeard p (empty {t = first b} e) h = grind arith
    Recv-IsHeard p (empty {t = again} e) h = grind arith
    Recv-IsHeard p (some_left ne) h = grind arith
    Recv-IsHeard p read h = grind arith
    Recv-IsHeard p consume h = grind arith
    Recv-IsHeard p (wake {t = plain}) h = grind arith
    Recv-IsHeard p (wake {t = first false}) h = grind arith
    Recv-IsHeard p (wake {t = first true}) h = grind arith
    Recv-IsHeard p (wake {t = again}) h = grind arith
    Recv-IsHeard p register h = grind arith
    Recv-IsHeard p clear h = grind arith
    Recv-IsHeard p cancel h = grind arith
    Recv-IsHeard p drop h = grind arith

Reach-IsHeard :
    {A : Type 0} {n : ℕ} {tx_id rx_id : TaskId} {r : Run A}
    → Reach n tx_id rx_id r
    → IsHeard n tx_id rx_id r.shared r.tx r.rx
Reach-IsHeard start = record {
  tx_claims = λ e. cc;
  rx_claims = λ e. cc;
  tx_parked = λ e. cc;
  rx_parked = λ e. cc;
}
Reach-IsHeard (send {r} w m) = Send-IsHeard r.rx m (Reach-IsHeard w)
Reach-IsHeard (recv {r} w m) = Recv-IsHeard r.tx m (Reach-IsHeard w)

-- In every interleaving of the accesses of a sender and a receiver: a parked receiver has been
-- woken if the ring is not empty and the sender is not about to wake it, and a parked sender has
-- been woken if the ring is not full and the receiver is not about to wake it.
pub Reach-wakes :
    {A : Type 0} {n : ℕ} {tx_id rx_id : TaskId} {r : Run A}
    → Reach n tx_id rx_id r
    → (rx_parks r.rx ≡ true
        → r.shared.chan.head ≢ r.shared.chan.tail
        → tx_wakes r.tx ≡ false
        → r.shared.rx_woken ≡ true)
      × (tx_parks r.tx ≡ true
          → (r.shared.chan.tail + 1) % n ≢ r.shared.chan.head
          → rx_wakes r.rx ≡ false
          → r.shared.tx_woken ≡ true)
Reach-wakes w =
    let h = Reach-IsHeard w in
    (
      λ e ne b. ground (arith, h.rx_claims, h.rx_parked e ne),
      λ e ne b. ground (arith, h.tx_claims, h.tx_parked e ne),
    )
