-- ===== src/Latency.antt =====
-- `rivet/src/latency.rs`: histograms of cycle counts, in buckets by powers of two.
use rivet_rtos.Base.{
  ℕ, zero, suc, ◌+◌, ◌-◌, ◌%◌, ◌^◌, ◌≤◌, Bool, true, false, ◌==◌, ltb, leb, if◌then◌else◌, Table,
  update,
}
use rivet_rtos.Word.{leading}
pub mod Buckets

abbrev pub buckets : ℕ
buckets = 16

pub data Kind : Type 0 where
  irq_entry dispatch_decision critical_section scheduling_wake : Kind

unfoldable pub index : Kind → ℕ
index irq_entry = 0
index dispatch_decision = 1
index critical_section = 2
index scheduling_wake = 3

-- `HISTOGRAMS` and `MAX_CYCLES`.
pub record Histograms : Type 0 where
  pub counts : Table (Table ℕ)
  pub max_cycles : Table ℕ

abbrev pub min : ℕ → ℕ → ℕ
min a b = if leb a b then a else b

abbrev pub max : ℕ → ℕ → ℕ
max a b = if leb a b then b else a

-- `cycles.leading_zeros()` counts over 64 bits.
unfoldable pub bucket_of : ℕ → ℕ
bucket_of cycles = if cycles == 0 then 0 else min (63 - leading 64 cycles) (buckets - 1)

-- With the histograms compiled in. The counters wrap.
unfoldable pub record_sample : Kind → ℕ → Histograms → Histograms
record_sample kind cycles h =
    let k = index kind in
    let b = bucket_of cycles in
    record {
      counts = update h.counts k (update (h.counts k) b ((h.counts k b + 1) % 2 ^ 32));
      max_cycles = update h.max_cycles k (max (h.max_cycles k) (min cycles (2 ^ 32 - 1)));
    }

unfoldable pub snapshot : Kind → Histograms → Table ℕ
snapshot kind h = h.counts (index kind)

unfoldable pub max_cycles_of : Kind → Histograms → ℕ
max_cycles_of kind h = h.max_cycles (index kind)

-- Only the counts are cleared.
unfoldable pub reset_for_test : Histograms → Histograms
reset_for_test h = record h { counts = λ _ _. 0 }
