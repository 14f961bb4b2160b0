-- ===== src/Examples/Output.antt =====
-- The theorems on the console, the trace and the histograms, at concrete inputs.
use rivet_rtos.Base.{ℕ, ◌≡◌, refl, true, some, [], ◌∷◌, ◌++◌, arith}
use rivet_rtos.Sync.Channel
use rivet_rtos.Sync.Channel.{Channel}
use rivet_rtos.Sync.Channel.Fifo.{done}
use rivet_rtos.Console.{Console, write_bytes_irq}
use rivet_rtos.Console.Order.{Carries, Follows, write_bytes_irq-Follows}
use rivet_rtos.Trace.{Event, body, encode, crc16, le_bytes, task_created}
use rivet_rtos.Trace.Roundtrip.{decode, decode-encode}
use rivet_rtos.Latency.{bucket_of}
use rivet_rtos.Latency.Buckets.{halvings, bucket_of-halvings}

-- A console whose rings are empty and in use.
abbrev console : Console
console = record {
  rx = Channel.new ℕ;
  rx_ready = true;
  tx = Channel.new ℕ;
  tx_ready = true;
  irq_tx_active = true;
  wire = [];
  kicks = 0;
}

console-Carries : Carries console []
unfolding Channel.new
console-Carries = record {
  ready = refl;
  ring = record { head_lt = omega arith; fits = omega arith; holds = done };
}

write_bytes_irq-Follows_example :
    (c' : Console) × (write_bytes_irq (72 ∷ 105 ∷ []) console ≡ (true, some c'))
    × Follows console [] (72 ∷ 105 ∷ []) c'
write_bytes_irq-Follows_example = write_bytes_irq-Follows (72 ∷ 105 ∷ []) console [] console-Carries

-- The creation of task 2 at priority 5, at time 1000 on core 0.
abbrev created : Event
created = task_created 0 1000 2 5 512

decode-encode_example :
    decode ((body 3 created ++ le_bytes 2 (crc16 (body 3 created))) ++ (1 ∷ 2 ∷ []))
    ≡ some (3, created, 1 ∷ 2 ∷ [])
unfolding task_created le_bytes encode
decode-encode_example =
    decode-encode 3 created
      (record {
        kind = omega arith;
        task_id = omega arith;
        timestamp = omega arith;
        payload = omega arith;
      })
      (1 ∷ 2 ∷ []) (omega arith) refl

bucket_of-halvings_example : bucket_of 1000 ≡ halvings 15 1000
bucket_of-halvings_example = bucket_of-halvings 1000 (omega arith)
