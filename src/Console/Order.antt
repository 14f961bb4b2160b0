-- ===== src/Console/Order.antt =====
-- The transmit ring of `rivet/src/console.rs`: which bytes go to the wire, and in which order.
use rivet_rtos.Base.{
  ℕ, zero, suc, ◌+◌, ◌<◌, ◌≡◌, refl, sym, ap, ◌∙◌, subst, true, false, some, List, [], ◌∷◌, ◌++◌,
  arith, length, inl, inr, ◌⊎◌, if◌then◌else◌,
}
use mathlib.Core.List.{append_assoc, append-nil}
use rivet_rtos.Sync.Channel.{empty, value, try_send}
use rivet_rtos.Sync.Channel.Fifo.{Represents, try_send-Represents, try_recv-Represents}
use rivet_rtos.Console.{
  Console, tx_capacity, console_write, next_of, tx_irq_next_byte, push_byte, push_fuel, push_bytes,
  prime, console_kick_tx, finish_write, write_bytes_irq, drain, flush_sync,
}

-- The ring holds the bytes `queue`, and the halves are stored.
pub record Carries (c : Console) (queue : List ℕ) : Type 0 where
  pub ready : c.tx_ready ≡ true
  pub ring : Represents tx_capacity c.tx queue

-- The console `c'` is `c` with the bytes `more` at the end, on the wire or in the ring.
pub record Follows (c : Console) (queue more : List ℕ) (c' : Console) : Type 0 where
  pub queue' : List ℕ
  pub carries : Carries c' queue'
  pub order : c'.wire ++ queue' ≡ c.wire ++ (queue ++ more)
  pub active : c'.irq_tx_active ≡ c.irq_tx_active

-- One receive on the side of the interrupt.
abbrev Taken : Console → List ℕ → Type 0
Taken c queue =
    ((queue ≡ []) × ((tx_irq_next_byte c).0 ≡ empty) × Carries (tx_irq_next_byte c).1 [])
    ⊎ ((x : ℕ) × (rest : List ℕ) × (queue ≡ x ∷ rest)
        × ((tx_irq_next_byte c).0 ≡ value x)
        × Carries (tx_irq_next_byte c).1 rest)

next-Taken : (c : Console) (queue : List ℕ) → Carries c queue → Taken c queue
unfolding tx_irq_next_byte next_of
next-Taken c queue k = elim (try_recv-Represents tx_capacity c.tx queue k.ring) [
  | inl (nil, e, r) ↦ inl (
    nil,
    rw k.ready e,
    rw k.ready (record { ready = refl; ring = subst (Represents tx_capacity _) nil r }),
  )
  | inr (x, rest, q, e, r) ↦
      inr (x, rest, q, rw k.ready e, rw k.ready (record { ready = refl; ring = r }))
]

-- What else a receive leaves alone.
next-frame :
    (c : Console)
    → ((tx_irq_next_byte c).1.wire ≡ c.wire)
      × ((tx_irq_next_byte c).1.irq_tx_active ≡ c.irq_tx_active)
unfolding tx_irq_next_byte
next-frame c = (refl, refl)

-- A push of a byte that fits.
push_byte-fits :
    (fuel b : ℕ) (c : Console) (queue : List ℕ)
    → Carries c queue
    → length queue + 1 < tx_capacity
    → (c' : Console) × (push_byte (suc fuel) b c ≡ some c') × Follows c queue (b ∷ []) c'
unfolding push_byte
push_byte-fits fuel b c queue k room = elim (try_send-Represents tx_capacity b c.tx queue k.ring) [
  | inl (_, full) ↦ absurd (omega (arith, full, room))
  | inr (sent, _, r) ↦ (
    record c { tx = (try_send tx_capacity b c.tx).1 },
    rw sent refl,
    record {
      queue' = queue ++ (b ∷ []);
      carries = record { ready = k.ready; ring = r };
      order = refl;
      active = refl;
    },
  )
]

-- Bytes that follow a receive whose byte went to the wire.
pulled :
    (c : Console) (queue : List ℕ) (x : ℕ) (rest more : List ℕ) {c' : Console}
    → queue ≡ x ∷ rest
    → Follows (console_write (x ∷ []) (tx_irq_next_byte c).1) rest more c'
    → Follows c queue more c'
pulled c queue x rest more q f = record {
  queue' = f.queue';
  carries = f.carries;
  order =
      f.order
      ∙ ap (λ w. (w ++ (x ∷ [])) ++ (rest ++ more)) (next-frame c).0
      ∙ append_assoc c.wire (x ∷ []) (rest ++ more)
      ∙ ap (λ r. c.wire ++ (r ++ more)) (sym q);
  active = f.active ∙ (next-frame c).1;
}

joined :
    {c : Console} {queue : List ℕ} {c1 c' : Console} (more rest : List ℕ)
    (f : Follows c queue more c1)
    → Follows c1 f.queue' rest c'
    → Follows c queue (more ++ rest) c'
joined {c} {queue} {c1} more rest f g = record {
  queue' = g.queue';
  carries = g.carries;
  order =
      g.order
      ∙ sym (append_assoc c1.wire f.queue' rest)
      ∙ ap (λ r. r ++ rest) f.order
      ∙ append_assoc c.wire (queue ++ more) rest
      ∙ ap (λ r. c.wire ++ r) (append_assoc queue more rest);
  active = g.active ∙ f.active;
}

-- On a full ring the oldest byte goes to the wire first.
push_byte-Follows :
    (b : ℕ) (c : Console) (queue : List ℕ)
    → Carries c queue
    → (c' : Console) × (push_byte push_fuel b c ≡ some c') × Follows c queue (b ∷ []) c'
unfolding push_byte
push_byte-Follows b c queue k = elim (try_send-Represents tx_capacity b c.tx queue k.ring) [
  | inr (sent, room, r) ↦ push_byte-fits 2 b c queue k room
  | inl (refused, full) ↦ elim (next-Taken c queue k) [
    | inl (nil, _, _) ↦ absurd (omega (arith, full, ap length nil))
    | inr (x, rest, q, e, k') ↦
        let c1 = console_write (x ∷ []) (tx_irq_next_byte c).1 in
        let k1 : Carries c1 rest = record { ready = k'.ready; ring = k'.ring } in
        let (c', done, f) = push_byte-fits 1 b c1 rest k1 (omega (arith, full, ap length q)) in
        (c', rw (refused, e) done, pulled c queue x rest (b ∷ []) q f)
  ]
]

push_bytes-Follows :
    (bytes : List ℕ) (c : Console) (queue : List ℕ)
    → Carries c queue
    → (c' : Console) × (push_bytes bytes c ≡ some c') × Follows c queue bytes c'
unfolding push_bytes
push_bytes-Follows [] c queue k = (
  c,
  refl,
  record {
    queue' = queue;
    carries = k;
    order = ap (λ r. c.wire ++ r) (sym (append-nil queue));
    active = refl;
  },
)
push_bytes-Follows (b ∷ bytes) c queue k =
    let (c1, pushed, f) = push_byte-Follows b c queue k in
    let (c', done, g) = push_bytes-Follows bytes c1 f.queue' f.carries in
    (c', rw (pushed, push_bytes) done, joined (b ∷ []) bytes f g)

primed :
    {c : Console} {queue more : List ℕ} (c1 : Console) (f : Follows c queue more c1)
    → (c' : Console) × (console_kick_tx (prime (tx_irq_next_byte c1)) ≡ some c')
      × Follows c queue more c'
unfolding prime console_kick_tx
primed c1 f =
    let got = (tx_irq_next_byte c1).1 in
    let (same, on) = next-frame c1 in
    elim (next-Taken c1 f.queue' f.carries) [
      | inl (nil, e, k) ↦ (
        record got { kicks = got.kicks + 1 },
        rw (e, prime) refl,
        record {
          queue' = [];
          carries = record { ready = k.ready; ring = k.ring };
          order = ap (λ w. w ++ []) same ∙ ap (λ q. c1.wire ++ q) (sym nil) ∙ f.order;
          active = on ∙ f.active;
        },
      )
      | inr (x, rest, q, e, k) ↦ (
        record got { wire = got.wire ++ (x ∷ []); kicks = got.kicks + 1 },
        rw (e, prime) refl,
        record {
          queue' = rest;
          carries = record { ready = k.ready; ring = k.ring };
          order =
              ap (λ w. (w ++ (x ∷ [])) ++ rest) same
              ∙ append_assoc c1.wire (x ∷ []) rest
              ∙ ap (λ r. c1.wire ++ r) (sym q)
              ∙ f.order;
          active = on ∙ f.active;
        },
      )
    ]

-- When the halves of the ring are stored and the ring represents a queue of bytes, a write ends,
-- takes all its bytes, and puts them behind those on the wire and in the queue: none is lost and
-- none is reordered, however full the ring is.
pub write_bytes_irq-Follows :
    (bytes : List ℕ) (c : Console) (queue : List ℕ)
    → Carries c queue
    → (c' : Console) × (write_bytes_irq bytes c ≡ (true, some c')) × Follows c queue bytes c'
unfolding write_bytes_irq finish_write
write_bytes_irq-Follows bytes c queue k =
    let (c1, pushed, f) = push_bytes-Follows bytes c queue k in
    let (c', done, g) = primed c1 f in
    (
      c',
      ap (λ b. if b then (true, finish_write (push_bytes bytes c)) else (false, some c)) k.ready
          ∙ ap (λ o. (true, finish_write o)) pushed
          ∙ ap (λ r. (true, r)) done,
      g,
    )

drain-Follows :
    (fuel : ℕ) (c : Console) (queue : List ℕ)
    → Carries c queue
    → length queue < fuel
    → (c' : Console) × (drain fuel c ≡ some c') × Carries c' [] × (c'.wire ≡ c.wire ++ queue)
unfolding drain
drain-Follows zero c queue k h = absurd (omega arith)
drain-Follows (suc fuel) c queue k h =
    let (same, on) = next-frame c in
    elim (next-Taken c queue k) [
      | inl (nil, e, k') ↦ (
        (tx_irq_next_byte c).1,
        rw (e, drain) refl,
        k',
        same ∙ sym (append-nil c.wire) ∙ ap (λ q. c.wire ++ q) (sym nil),
      )
      | inr (x, rest, q, e, k') ↦
          let c1 = console_write (x ∷ []) (tx_irq_next_byte c).1 in
          let (c', done, k2, w) =
            drain-Follows fuel c1 rest (record { ready = k'.ready; ring = k'.ring })
              (omega (arith, ap length q)) in
          (
            c',
            rw (e, drain) done,
            k2,
            w
                ∙ ap (λ v. (v ++ (x ∷ [])) ++ rest) same
                ∙ append_assoc c.wire (x ∷ []) rest
                ∙ ap (λ r. c.wire ++ r) (sym q),
          )
    ]

-- A flush ends, and puts every byte of the ring on the wire, in order.
pub flush_sync-Follows :
    (c : Console) (queue : List ℕ)
    → Carries c queue
    → (c' : Console) × (flush_sync c ≡ some c') × Carries c' [] × (c'.wire ≡ c.wire ++ queue)
unfolding flush_sync
flush_sync-Follows c queue k = drain-Follows tx_capacity c queue k k.ring.fits
