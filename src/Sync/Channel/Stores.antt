-- ===== src/Sync/Channel/Stores.antt =====
-- `rivet/src/sync/channel.rs`: what the accesses of the slots and of `head` and `tail` do to the queue.
use rivet_rtos.Base.{
  ℕ, ◌+◌, ◌%◌, ◌<◌, ◌≡◌, ◌≢◌, sym, ap, ◌∙◌, subst, Option, some, List, [], ◌∷◌, ◌++◌, length, arith,
  length-append,
}
use mathlib.Core.List.{append_assoc, map, map-append}
use rivet_rtos.Sync.Channel.Fifo.{Holds, next-lt, Holds-After, Holds-cons, room_left}
use rivet_rtos.Sync.Channel.Knows.{Holds-write, Holds-append, Holds-apart, IsQueue}
use rivet_rtos.Sync.Channel.Accesses.{Shared, write_slot, store_tail, store_head}

module _ {A : Type 0} {n : ℕ} {s : Shared A} {xs : List A} (k : IsQueue n s xs) where
  pub has_room : (s.chan.tail + 1) % n ≢ s.chan.head → length xs + 1 < n
  has_room ne =
      let (ht, a) =
        Holds-After n s.chan.buffer s.chan.head s.chan.tail xs k.ring.head_lt k.ring.fits
          k.ring.holds in
      room_left n s.chan xs k.ring ht a ne

  pub has_value : s.chan.head ≢ s.chan.tail → (x : A) × (ys : List A) × (xs ≡ x ∷ ys)
  has_value ne = Holds-apart n s.chan.buffer xs k.ring.holds ne

  pub first_value : {x : A} {ys : List A} → xs ≡ x ∷ ys → s.chan.buffer s.chan.head ≡ some x
  first_value {x} {ys} e =
      (Holds-cons (subst (λ l. Holds n s.chan.buffer s.chan.head l s.chan.tail) e k.ring.holds)).0

  pub write_slot-IsQueue : (v : A) → length xs + 1 < n → IsQueue n (write_slot v s) xs
  unfolding write_slot
  write_slot-IsQueue v l = record {
    ring = record {
      head_lt = k.ring.head_lt;
      fits = k.ring.fits;
      holds =
          Holds-write n s.chan.buffer s.chan.head s.chan.tail xs (some v) k.ring.head_lt l
            k.ring.holds;
    };
    history = k.history;
  }

  pub store_tail-IsQueue :
      (v : A)
      → length xs + 1 < n
      → s.chan.buffer s.chan.tail ≡ some v
      → IsQueue n (store_tail n v s) (xs ++ (v ∷ []))
  unfolding store_tail
  store_tail-IsQueue v l e = record {
    ring = record {
      head_lt = k.ring.head_lt;
      fits = omega (arith, length-append xs (v ∷ []), l);
      holds = Holds-append n s.chan.buffer e k.ring.holds;
    };
    history =
        ap (λ l. s.received ++ l) (map-append some xs (v ∷ []))
        ∙ sym (append_assoc s.received (map some xs) (some v ∷ []))
        ∙ ap (λ l. l ++ (some v ∷ [])) k.history
        ∙ sym (map-append some s.sent (v ∷ []));
  }

  pub store_head-IsQueue :
      {x : A} {ys : List A} (o : Option A)
      → xs ≡ x ∷ ys
      → o ≡ some x
      → IsQueue n (store_head n o s) ys
  unfolding store_head
  store_head-IsQueue {x} {ys} o e f = record {
    ring = record {
      head_lt = next-lt n s.chan.head k.ring.head_lt;
      fits = omega (arith, k.ring.fits, ap length e);
      holds =
          (Holds-cons
            (subst (λ l. Holds n s.chan.buffer s.chan.head l s.chan.tail) e k.ring.holds)).1;
    };
    history =
        append_assoc s.received (o ∷ []) (map some ys)
        ∙ ap (λ p. s.received ++ (p ∷ map some ys)) f
        ∙ ap (λ l. s.received ++ map some l) (sym e)
        ∙ k.history;
  }

  -- Accesses of the waiter cells leave the ring alone.
  pub kept :
      (s' : Shared A)
      → s'.chan.buffer ≡ s.chan.buffer
      → s'.chan.head ≡ s.chan.head
      → s'.chan.tail ≡ s.chan.tail
      → s'.sent ≡ s.sent
      → s'.received ≡ s.received
      → IsQueue n s' xs
  kept s' b h t sn rc = record {
    ring = record {
      head_lt = rw h k.ring.head_lt;
      fits = k.ring.fits;
      holds = rw (b, h, t) k.ring.holds;
    };
    history = rw (sn, rc) k.history;
  }
