-- ===== src/Sync/Channel/Interleaved.antt =====
-- `rivet/src/sync/channel.rs`: the ring under interleaved accesses, and the queue it stands for.
use rivet_rtos.Base.{ℕ, ◌<◌, ◌≡◌, ◌≢◌, refl, subst, List, [], ◌∷◌, ◌++◌, arith}
use rivet_rtos.Coop.TaskId.{TaskId}
use rivet_rtos.Sync.Channel
use rivet_rtos.Sync.Channel.{Channel}
use rivet_rtos.Sync.Channel.Fifo.{done, Holds-full}
use rivet_rtos.Sync.Channel.Knows.{
  IsQueue, SenderFits, ReceiverFits, Refines, refused-Fits, sent_by-Fits, found_empty-Fits,
  received_by-Fits, receiver-append, sender-shorter,
}
use rivet_rtos.Sync.Channel.Accesses.{
  Try, Sending, Receiving, Shared, Run, Send, Recv, Reach, wake_receiver, wake_sender, write_slot,
  store_tail, store_head, store_send_waiter, store_recv_waiter, call, begin, poll, full, room,
  write, publish, wake, register, clear, cancel, drop, empty, some_left, read, consume, start, send,
  recv,
}
use rivet_rtos.Sync.Channel.Stores.{
  has_room, has_value, first_value, write_slot-IsQueue, store_tail-IsQueue, store_head-IsQueue,
  kept,
}

module _ {A : Type 0} {n : ℕ} {id : TaskId} {s : Shared A} {xs : List A} (k : IsQueue n s xs) where
  Send-Refines :
      {p p' : Sending A} {s' : Shared A} (q : Receiving A)
      → Send n id s p s' p'
      → SenderFits n s.chan.buffer s.chan.tail xs p
      → ReceiverFits xs q
      → Refines n (record { shared = s'; tx = p'; rx = q })
  unfolding wake_receiver store_send_waiter write_slot store_tail
  Send-Refines q call f g = record { queue = xs; is_queue = k; sender = tt; receiver = g }
  Send-Refines q begin f g = record {
    queue = xs;
    is_queue = kept k _ refl refl refl refl refl;
    sender = tt;
    receiver = g;
  }
  Send-Refines q poll f g = record {
    queue = xs;
    is_queue = kept k _ refl refl refl refl refl;
    sender = tt;
    receiver = g;
  }
  Send-Refines q (full {t} {v} e) f g = record {
    queue = xs;
    is_queue = k;
    sender = refused-Fits n s.chan.buffer s.chan.tail xs t v;
    receiver = g;
  }
  Send-Refines q (room ne) f g = record {
    queue = xs;
    is_queue = k;
    sender = has_room k ne;
    receiver = g;
  }
  Send-Refines q (write {t} {v}) f g = record {
    queue = xs;
    is_queue = write_slot-IsQueue k v f;
    sender = (f, ground arith);
    receiver = g;
  }
  Send-Refines q (publish {t} {v}) (l, e) g = record {
    queue = xs ++ (v ∷ []);
    is_queue = store_tail-IsQueue k v l e;
    sender = tt;
    receiver = receiver-append xs v q g;
  }
  Send-Refines q (wake {t}) f g = record {
    queue = xs;
    is_queue = kept k _ refl refl refl refl refl;
    sender = sent_by-Fits n s.chan.buffer s.chan.tail xs t;
    receiver = g;
  }
  Send-Refines q register f g = record {
    queue = xs;
    is_queue = kept k _ refl refl refl refl refl;
    sender = tt;
    receiver = g;
  }
  Send-Refines q clear f g = record {
    queue = xs;
    is_queue = kept k _ refl refl refl refl refl;
    sender = tt;
    receiver = g;
  }
  Send-Refines q cancel f g = record { queue = xs; is_queue = k; sender = tt; receiver = g }
  Send-Refines q drop f g = record {
    queue = xs;
    is_queue = kept k _ refl refl refl refl refl;
    sender = tt;
    receiver = g;
  }

  Recv-Refines :
      (p : Sending A) {q q' : Receiving A} {s' : Shared A}
      → Recv n id s q s' q'
      → SenderFits n s.chan.buffer s.chan.tail xs p
      → ReceiverFits xs q
      → Refines n (record { shared = s'; tx = p; rx = q' })
  unfolding wake_sender store_recv_waiter store_head
  Recv-Refines p call f g = record { queue = xs; is_queue = k; sender = f; receiver = tt }
  Recv-Refines p begin f g = record {
    queue = xs;
    is_queue = kept k _ refl refl refl refl refl;
    sender = f;
    receiver = tt;
  }
  Recv-Refines p poll f g = record {
    queue = xs;
    is_queue = kept k _ refl refl refl refl refl;
    sender = f;
    receiver = tt;
  }
  Recv-Refines p (empty {t} e) f g = record {
    queue = xs;
    is_queue = k;
    sender = f;
    receiver = found_empty-Fits xs t;
  }
  Recv-Refines p (some_left ne) f g = record {
    queue = xs;
    is_queue = k;
    sender = f;
    receiver = has_value k ne;
  }
  Recv-Refines p read f (x, ys, e) = record {
    queue = xs;
    is_queue = k;
    sender = f;
    receiver = (x, ys, e, first_value k e);
  }
  Recv-Refines p (consume {t} {o}) f (x, ys, e, g) = record {
    queue = ys;
    is_queue = store_head-IsQueue k o e g;
    sender =
        sender-shorter n s.chan.buffer s.chan.tail x ys p
          (subst (λ l. SenderFits n s.chan.buffer s.chan.tail l p) e f);
    receiver = tt;
  }
  Recv-Refines p (wake {t}) f g = record {
    queue = xs;
    is_queue = kept k _ refl refl refl refl refl;
    sender = f;
    receiver = received_by-Fits xs t;
  }
  Recv-Refines p register f g = record {
    queue = xs;
    is_queue = kept k _ refl refl refl refl refl;
    sender = f;
    receiver = tt;
  }
  Recv-Refines p clear f g = record {
    queue = xs;
    is_queue = kept k _ refl refl refl refl refl;
    sender = f;
    receiver = tt;
  }
  Recv-Refines p cancel f g = record { queue = xs; is_queue = k; sender = f; receiver = tt }
  Recv-Refines p drop f g = record {
    queue = xs;
    is_queue = kept k _ refl refl refl refl refl;
    sender = f;
    receiver = tt;
  }

refined :
    {A : Type 0} {n : ℕ} {tx_id rx_id : TaskId} {r : Run A}
    → 0 < n
    → Reach n tx_id rx_id r
    → Refines n r
unfolding Channel.new Channel.split
refined h start = record {
  queue = [];
  is_queue = record { ring = record { head_lt = h; fits = h; holds = done }; history = refl };
  sender = tt;
  receiver = tt;
}
refined h (send {r} w m) = let f = refined h w in Send-Refines f.is_queue r.rx m f.sender f.receiver
refined h (recv {r} w m) = let f = refined h w in Recv-Refines f.is_queue r.tx m f.sender f.receiver

apart :
    {A : Type 0} {n : ℕ} {r : Run A}
    → Refines n r
    → (t : Try) → r.rx ≡ Receiving.reading t
    → r.shared.chan.head ≢ r.shared.chan.tail
apart {A} {n} {r} f t e =
    let (x, ys, q) = subst (ReceiverFits f.queue) e f.receiver in
    let k : IsQueue n r.shared (x ∷ ys) = subst (IsQueue n r.shared) q f.is_queue in
    let c = r.shared.chan in
    ground (arith, Holds-full n c.buffer c.head c.tail x ys k.ring.head_lt k.ring.fits k.ring.holds)

-- In every interleaving of the accesses of a sender and a receiver of a ring of at least one slot,
-- the values that were received and those of the queue that the ring represents are those that
-- were sent, in order; and the slot that the receiver reads is not the one at the tail, which the
-- sender writes.
pub Reach-Refines :
    {A : Type 0} {n : ℕ} {tx_id rx_id : TaskId} {r : Run A}
    → 0 < n
    → Reach n tx_id rx_id r
    → Refines n r
      × ((t : Try) → r.rx ≡ Receiving.reading t → r.shared.chan.head ≢ r.shared.chan.tail)
Reach-Refines h w = let f = refined h w in (f, apart f)
