-- ===== src/Console.antt =====
-- `rivet/src/console.rs`: the rings between the console and the interrupts of its port.
use rivet_rtos.Base.{
  ℕ, zero, suc, ◌+◌, ◌-◌, Bool, true, false, ◌||◌, ◌&&◌, Option, none, some, List, [], ◌∷◌, ◌++◌,
  if◌then◌else◌,
}
use rivet_rtos.Sync.Channel
use rivet_rtos.Sync.Channel.{
  Channel, Received, Woken, empty, uninit, value, split, try_send, try_recv,
}
pub mod Order

abbrev pub rx_capacity : ℕ
rx_capacity = 64

abbrev pub tx_capacity : ℕ
tx_capacity = 256

-- The two channels, and whether their halves are stored in the `Once` cells; `IRQ_TX_ACTIVE`; the
-- bytes that `console_write` has put on the wire, and the calls of `console_kick_tx`.
pub record Console : Type 0 where
  pub rx : Channel ℕ
  pub rx_ready : Bool
  pub tx : Channel ℕ
  pub tx_ready : Bool
  pub irq_tx_active : Bool
  pub wire : List ℕ
  pub kicks : ℕ

unfoldable pub init : Console → Console
init c =
    let (rx_fresh, rx) = split c.rx in
    let (tx_fresh, tx) = split c.tx in
    record c {
      rx = rx;
      rx_ready = c.rx_ready || rx_fresh;
      tx = tx;
      tx_ready = c.tx_ready || tx_fresh;
    }

unfoldable pub enable_irq_tx : Console → Console
enable_irq_tx c = record c { irq_tx_active = true }

abbrev pub console_write : List ℕ → Console → Console
console_write bytes c = record c { wire = c.wire ++ bytes }

-- What a receive from a stored half gives.
unfoldable pub next_of : Bool → ℕ → Channel ℕ → Received ℕ × Channel ℕ × Woken
next_of ready n ch = if ready then try_recv n ch else (empty, ch, none)

unfoldable pub tx_irq_next_byte : Console → Received ℕ × Console
tx_irq_next_byte c = let r = next_of c.tx_ready tx_capacity c.tx in (r.0, record c { tx = r.1 })

unfoldable pub try_read_byte : Console → Received ℕ × Console × Woken
try_read_byte c = let r = next_of c.rx_ready rx_capacity c.rx in (r.0, record c { rx = r.1 }, r.2)

-- A byte that finds the ring full is dropped.
unfoldable pub on_rx_byte : ℕ → Console → Console × Woken
on_rx_byte b c =
    let r = try_send rx_capacity b c.rx in
    if c.rx_ready then (record c { rx = r.1 }, r.2) else (c, none)

-- The `while` loop for one byte: on a full ring the oldest byte goes to the wire. `none` means that
-- the fuel ran out, or that a slot was read that was never written.
unfoldable pub push_byte : ℕ → ℕ → Console → Option Console
push_byte zero b c = none
push_byte (suc fuel) b c =
    let sent = try_send tx_capacity b c.tx in
    let (old, c') = tx_irq_next_byte c in
    let again : Option Console = elim old [
      | value x ↦ push_byte fuel b (console_write (x ∷ []) c')
      | empty ↦ some c'
      | uninit ↦ none
    ] in
    if sent.0 then some (record c { tx = sent.1 }) else again

-- One round more than a byte needs.
abbrev pub push_fuel : ℕ
push_fuel = 3

unfoldable pub push_bytes : List ℕ → Console → Option Console
push_bytes [] c = some c
push_bytes (b ∷ bytes) c = elim (push_byte push_fuel b c) [
  | none ↦ none
  | some c' ↦ push_bytes bytes c'
]

-- The byte that is written directly, after which the interrupt comes.
unfoldable pub prime : Received ℕ × Console → Option Console
prime (value x, c) = some (console_write (x ∷ []) c)
prime (empty, c) = some c
prime (uninit, c) = none

unfoldable pub console_kick_tx : Option Console → Option Console
console_kick_tx none = none
console_kick_tx (some c) = some (record c { kicks = c.kicks + 1 })

unfoldable pub finish_write : Option Console → Option Console
finish_write none = none
finish_write (some c) = console_kick_tx (prime (tx_irq_next_byte c))

-- Whether the bytes were taken, and the console.
unfoldable pub write_bytes_irq : List ℕ → Console → Bool × Option Console
write_bytes_irq bytes c =
    if c.tx_ready then (true, finish_write (push_bytes bytes c)) else (false, some c)

abbrev pub lock_spin_limit : ℕ
lock_spin_limit = 100_000

-- How the loop at `CONSOLE_WRITE_LOCK` ends, when `held i` says whether try `i` fails: with the
-- lock, or after `limit` failures without it.
unfoldable pub spin : ℕ → ℕ → (ℕ → Bool) → Bool
spin zero i held = false
spin (suc limit) i held = elim (held i) [ true ↦ spin limit (suc i) held | false ↦ true ]

-- With the lock or without it, the bytes are written.
unfoldable pub write_polling : Bool → List ℕ → Console → Console
write_polling true bytes c = console_write bytes c
write_polling false bytes c = console_write bytes c

unfoldable pub write_bytes : (ℕ → Bool) → List ℕ → Console → Option Console
write_bytes held bytes c =
    let (taken, c') = write_bytes_irq bytes c in
    if c.irq_tx_active && taken
    then c'
    else some (write_polling (spin lock_spin_limit 0 held) bytes c)

-- The loop of `flush_sync`.
unfoldable pub drain : ℕ → Console → Option Console
drain zero c = none
drain (suc fuel) c =
    let (old, c') = tx_irq_next_byte c in
    elim old [ value x ↦ drain fuel (console_write (x ∷ []) c') | empty ↦ some c' | uninit ↦ none ]

unfoldable pub flush_sync : Console → Option Console
flush_sync c = drain tx_capacity c
