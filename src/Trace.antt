-- ===== src/Trace.antt =====
-- `rivet/src/trace.rs`: the frames of the trace and their checksum.
use rivet_rtos.Base.{
  ℕ, zero, suc, ◌+◌, ◌-◌, ◌*◌, ◌/◌, ◌%◌, ◌^◌, Bool, true, false, Option, none, some, List, [], ◌∷◌,
  ◌++◌, ◌==◌, ◌&&◌, leb, if◌then◌else◌, length,
}
use Prim.Native.Nat.{bit_xor}
pub mod Roundtrip

abbrev pub sync0 : ℕ
sync0 = 0xa5

abbrev pub sync1 : ℕ
sync1 = 0x5a

abbrev pub protocol_version : ℕ
protocol_version = 1

abbrev pub no_task : ℕ
no_task = 2 ^ 32 - 1

abbrev pub max_payload : ℕ
max_payload = 32

-- One round of the inner loop: a shift, and the polynomial when the top bit was set. The values are
-- `u16`.
unfoldable pub crc_bit : ℕ → ℕ
crc_bit crc =
    let shifted = crc * 2 % 2 ^ 16 in
    if leb (2 ^ 15) crc then bit_xor shifted 0x1021 % 2 ^ 16 else shifted

unfoldable pub crc_bits : ℕ → ℕ → ℕ
crc_bits zero crc = crc
crc_bits (suc n) crc = crc_bits n (crc_bit crc)

unfoldable pub crc_from : ℕ → List ℕ → ℕ
crc_from crc [] = crc
crc_from crc (byte ∷ bytes) = crc_from (crc_bits 8 (bit_xor crc (byte * 2 ^ 8))) bytes

unfoldable pub crc16 : List ℕ → ℕ
crc16 bytes = crc_from 0xffff bytes

-- `to_le_bytes` of a number of `n` bytes.
unfoldable pub le_bytes : ℕ → ℕ → List ℕ
le_bytes zero v = []
le_bytes (suc n) v = (v % 2 ^ 8) ∷ le_bytes n (v / 2 ^ 8)

-- The fields of a frame.
pub record Event : Type 0 where
  pub kind : ℕ
  pub core_id : ℕ
  pub task_id : ℕ
  pub timestamp : ℕ
  pub payload : List ℕ

-- The bytes before the checksum.
unfoldable pub body : ℕ → Event → List ℕ
body seq e =
    sync0
    ∷ sync1
    ∷ protocol_version
    ∷ (le_bytes 2 seq
        ++ (le_bytes 2 e.kind
            ++ (e.core_id
                ∷ (le_bytes 4 e.task_id
                    ++ (le_bytes 8 e.timestamp ++ ((length e.payload % 2 ^ 8) ∷ e.payload))))))

-- The frame, and `SEQ` after it. A payload over 32 bytes does not fit the buffer, and panics.
unfoldable pub encode : ℕ → Event → Option (List ℕ) × ℕ
encode seq e =
    if leb (length e.payload) max_payload
    then (some (body seq e ++ le_bytes 2 (crc16 (body seq e))), (seq + 1) % 2 ^ 16)
    else (none, (seq + 1) % 2 ^ 16)

-- The events that the kernel emits, on a core at a time.
module _ (core_id timestamp : ℕ) where
  unfoldable pub stream_header : ℕ → ℕ → Event
  stream_header cpu_hz max_harts = record {
    kind = 0x0701;
    core_id = core_id;
    task_id = no_task;
    timestamp = timestamp;
    payload = 0 ∷ 1 ∷ 0 ∷ (le_bytes 4 cpu_hz ++ (max_harts ∷ []));
  }

  unfoldable pub task_created : ℕ → ℕ → ℕ → Event
  task_created task_id priority stack_size = record {
    kind = 0x0001;
    core_id = core_id;
    task_id = task_id;
    timestamp = timestamp;
    payload = priority ∷ le_bytes 4 stack_size;
  }

  unfoldable pub context_switch : ℕ → ℕ → ℕ → Event
  context_switch prev_task next_task reason = record {
    kind = 0x0009;
    core_id = core_id;
    task_id = next_task;
    timestamp = timestamp;
    payload = le_bytes 4 prev_task ++ (le_bytes 4 next_task ++ (reason ∷ []));
  }

  unfoldable pub isr : ℕ → Bool → Event
  isr irq entry = record {
    kind = if entry then 0x0301 else 0x0302;
    core_id = core_id;
    task_id = no_task;
    timestamp = timestamp;
    payload = le_bytes 4 irq;
  }

  unfoldable pub mutex_event : ℕ → ℕ → ℕ → Event
  mutex_event kind task_id mutex_id = record {
    kind = kind;
    core_id = core_id;
    task_id = task_id;
    timestamp = timestamp;
    payload = le_bytes 4 mutex_id;
  }

  unfoldable pub mutex_lock_acquired : ℕ → ℕ → Event
  mutex_lock_acquired task_id mutex_id = mutex_event 0x0102 task_id mutex_id

  unfoldable pub mutex_unlock : ℕ → ℕ → Event
  mutex_unlock task_id mutex_id = mutex_event 0x0104 task_id mutex_id

  unfoldable pub priority_inherit : ℕ → ℕ → Event
  priority_inherit task_id mutex_id = mutex_event 0x0105 task_id mutex_id

  unfoldable pub fault : ℕ → ℕ → ℕ → Event
  fault task_id reason pc = record {
    kind = if reason == 4 then 0x0605 else 0x0601;
    core_id = core_id;
    task_id = task_id;
    timestamp = timestamp;
    payload = le_bytes 4 reason ++ le_bytes 4 pc;
  }
