-- ===== src/Sync/Channel/Knows.antt =====
-- `rivet/src/sync/channel.rs`: what the sender and the receiver know of the ring between
-- their accesses.
use rivet_rtos.Base.{
  ℕ, ◌+◌, ◌<◌, ◌≡◌, ◌≢◌, refl, true, false, Option, some, List, [], ◌∷◌, ◌++◌, ◌==◌, Table, update,
  length, arith,
}
use mathlib.Core.List.{map}
use rivet_rtos.Sync.Channel.Fifo.{
  Represents, Holds, done, more, next, next-lt, Holds-After, Holds-nil,
}
use rivet_rtos.Sync.Channel.Accesses.{
  Try, plain, first, again, Sending, Receiving, Shared, Run, refused, sent_by, found_empty,
  received_by,
}

module _ {A : Type 0} (n : ℕ) (buffer : Table (Option A)) where
  -- The slot behind the values is not one of theirs.
  pub Holds-write :
      (i j : ℕ) (xs : List A) (w : Option A)
      → i < n
      → length xs + 1 < n
      → Holds n buffer i xs j
      → Holds n (update buffer j w) i xs j
  Holds-write i _ _ w h l done = done
  Holds-write i j (x ∷ xs) w h l (more e r) =
      let (hj, a) = Holds-After n buffer i j (x ∷ xs) h (omega (arith, l)) (more e r) in
      let apart : (j == i) ≡ false = ground (arith, a, l) in
      more (rw apart e) (Holds-write (next n i) j xs w (next-lt n i h) (omega (arith, l)) r)

  pub Holds-append :
      {i j : ℕ} {xs : List A} {v : A}
      → buffer j ≡ some v
      → Holds n buffer i xs j
      → Holds n buffer i (xs ++ (v ∷ [])) (next n j)
  Holds-append e done = more e done
  Holds-append e (more f r) = more f (Holds-append e r)

  pub Holds-apart :
      {i j : ℕ} (xs : List A)
      → Holds n buffer i xs j
      → i ≢ j
      → (x : A) × (ys : List A) × (xs ≡ x ∷ ys)
  Holds-apart [] h ne = absurd (ne (Holds-nil h))
  Holds-apart (x ∷ ys) h ne = (x, ys, refl)

module _ {A : Type 0} where
  -- The values in the ring, and those that were received before, are those that were sent.
  pub record IsQueue (n : ℕ) (s : Shared A) (xs : List A) : Type 0 where
    pub ring : Represents n s.chan xs
    pub history : s.received ++ map some xs ≡ map some s.sent

  -- What the sender knows between its accesses, however the receiver comes between.
  abbrev pub SenderFits : ℕ → Table (Option A) → ℕ → List A → Sending A → Type 0
  SenderFits n b j xs (Sending.writing t v) = length xs + 1 < n
  SenderFits n b j xs (Sending.publishing t v) = (length xs + 1 < n) × (b j ≡ some v)
  SenderFits n b j xs _ = Unit {0}

  -- What the receiver knows.
  abbrev pub ReceiverFits : List A → Receiving A → Type 0
  ReceiverFits xs (Receiving.reading t) = (x : A) × (ys : List A) × (xs ≡ x ∷ ys)
  ReceiverFits xs (Receiving.consuming t o) = (x : A) × (ys : List A) × (xs ≡ x ∷ ys) × (o ≡ some x)
  ReceiverFits xs _ = Unit {0}

  pub record Refines (n : ℕ) (r : Run A) : Type 0 where
    pub queue : List A
    pub is_queue : IsQueue n r.shared queue
    pub sender : SenderFits n r.shared.chan.buffer r.shared.chan.tail queue r.tx
    pub receiver : ReceiverFits queue r.rx

  pub refused-Fits :
      (n : ℕ) (b : Table (Option A)) (j : ℕ) (xs : List A) (t : Try) (v : A)
      → SenderFits n b j xs (refused t v)
  refused-Fits n b j xs plain v = tt
  refused-Fits n b j xs (first r) v = tt
  refused-Fits n b j xs again v = tt

  pub sent_by-Fits :
      (n : ℕ) (b : Table (Option A)) (j : ℕ) (xs : List A) (t : Try)
      → SenderFits n b j xs (sent_by t)
  sent_by-Fits n b j xs plain = tt
  sent_by-Fits n b j xs (first false) = tt
  sent_by-Fits n b j xs (first true) = tt
  sent_by-Fits n b j xs again = tt

  pub found_empty-Fits : (xs : List A) (t : Try) → ReceiverFits xs (found_empty t)
  found_empty-Fits xs plain = tt
  found_empty-Fits xs (first r) = tt
  found_empty-Fits xs again = tt

  pub received_by-Fits : (xs : List A) (t : Try) → ReceiverFits xs (received_by t)
  received_by-Fits xs plain = tt
  received_by-Fits xs (first false) = tt
  received_by-Fits xs (first true) = tt
  received_by-Fits xs again = tt

  -- The receiver's knowledge survives a value at the end, and the sender's one that is taken out.
  pub receiver-append :
      (xs : List A) (v : A) (q : Receiving A) → ReceiverFits xs q → ReceiverFits (xs ++ (v ∷ [])) q
  receiver-append xs v Receiving.outside f = tt
  receiver-append xs v (Receiving.trying t) f = tt
  receiver-append xs v (Receiving.reading t) (x, ys, e) = (x, ys ++ (v ∷ []), rw e refl)
  receiver-append xs v (Receiving.consuming t o) (x, ys, e, g) = (x, ys ++ (v ∷ []), rw e refl, g)
  receiver-append xs v (Receiving.waking t) f = tt
  receiver-append xs v Receiving.registering f = tt
  receiver-append xs v Receiving.clearing f = tt
  receiver-append xs v Receiving.parked f = tt

  pub sender-shorter :
      (n : ℕ) (b : Table (Option A)) (j : ℕ) (x : A) (xs : List A) (p : Sending A)
      → SenderFits n b j (x ∷ xs) p
      → SenderFits n b j xs p
  sender-shorter n b j x xs Sending.outside f = tt
  sender-shorter n b j x xs (Sending.trying t v) f = tt
  sender-shorter n b j x xs (Sending.writing t v) f = omega (arith, f)
  sender-shorter n b j x xs (Sending.publishing t v) (f, g) = (omega (arith, f), g)
  sender-shorter n b j x xs (Sending.waking t) f = tt
  sender-shorter n b j x xs (Sending.registering v) f = tt
  sender-shorter n b j x xs Sending.clearing f = tt
  sender-shorter n b j x xs (Sending.parked v) f = tt
