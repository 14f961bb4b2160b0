-- ===== src/Preempt/Spawn/Watermark.antt =====
-- `stack_usage` of `rivet/src/preempt/mod.rs`: the deepest byte that a task has written.
use rivet_rtos.Base.{
  ℕ, zero, suc, ◌+◌, ◌-◌, ◌≤◌, ◌<◌, ◌≡◌, ◌≢◌, arith, Bool-cases, inl, inr, ◌==◌, Table, subst,
}
use rivet_rtos.Preempt.StackPool.{Slice}
use rivet_rtos.Preempt.Spawn.{untouched, stack_usage}

-- `k` of the `n` bytes from `addr` on are untouched, and then comes one that is not.
record IsWatermark (memory : Table ℕ) (addr n k : ℕ) : Type 0 where
  pub bound : k ≤ n
  pub clean : (i : ℕ) → i < k → memory (addr + i) ≡ 0xaa
  pub edge : k < n → memory (addr + k) ≢ 0xaa

clean_cons :
    (memory : Table ℕ) (addr k i : ℕ)
    → memory addr ≡ 0xaa
    → i < suc k
    → ((j : ℕ) → j < k → memory (addr + 1 + j) ≡ 0xaa)
    → memory (addr + i) ≡ 0xaa
clean_cons memory addr k zero e h f = subst (λ a. memory a ≡ 0xaa) (omega arith) e
clean_cons memory addr k (suc i) e h f =
    subst (λ a. memory a ≡ 0xaa) (omega arith) (f i (omega arith))

untouched-IsWatermark :
    (memory : Table ℕ) (addr n : ℕ) → IsWatermark memory addr n (untouched memory addr n)
unfolding untouched
untouched-IsWatermark memory addr zero = record {
  bound = omega arith;
  clean = λ i h. elim h [ ];
  edge = λ h. elim h [ ];
}
untouched-IsWatermark memory addr (suc n) =
    let rest = untouched-IsWatermark memory (addr + 1) n in
    elim (Bool-cases (memory addr == 0xaa)) [
      | inl same ↦ rw same (record {
        bound = omega (arith, rest.bound);
        clean = λ i h.
            clean_cons memory addr (untouched memory (addr + 1) n) i (ground arith) h rest.clean;
        edge = λ h. subst (λ a. memory a ≢ 0xaa) (omega arith) (rest.edge (omega arith));
      })
      | inr other ↦ rw other (record {
        bound = omega arith;
        clean = λ i h. elim h [ ];
        edge = λ h.
            let ne : memory addr ≢ 0xaa = ground arith in
            subst (λ a. memory a ≢ 0xaa) (omega arith) ne;
      })
    ]

pub stack_usage-IsDeepest :
    (memory : Table ℕ) (stack : Slice)
    → (stack_usage memory stack ≤ stack.len)
      × ((i : ℕ) → i + stack_usage memory stack < stack.len → memory (stack.addr + i) ≡ 0xaa)
      × (0 < stack_usage memory stack
          → memory (stack.addr + stack.len - stack_usage memory stack) ≢ 0xaa)
unfolding stack_usage
stack_usage-IsDeepest memory stack =
    let w = untouched-IsWatermark memory stack.addr stack.len in
    (
      omega arith,
      λ i h. w.clean i (omega (arith, w.bound)),
      λ h. subst (λ a. memory a ≢ 0xaa) (omega (arith, w.bound)) (w.edge (omega (arith, w.bound))),
    )
