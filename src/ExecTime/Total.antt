-- ===== src/ExecTime/Total.antt =====
-- `on_switch` of `rivet/src/exec_time.rs`: the sum of the accounts.
use rivet_rtos.Base.{
  ℕ, zero, suc, ◌+◌, ◌%◌, ◌^◌, ◌≤◌, ◌<◌, ◌≡◌, refl, ap, true, ltb, Table, update, arith, Bool-cases,
  inl, inr,
}
use native.Mathlib.Decide.{ℕ_discrete}
use rivet_rtos.Config.{Config}
use rivet_rtos.ExecTime.{ExecTime, on_switch, wrapping_sub}

-- The sum of the first `n` cells.
unfoldable pub total : ℕ → Table ℕ → ℕ
total zero f = 0
total (suc n) f = total n f + f n

total-out : (n : ℕ) (f : Table ℕ) (i v : ℕ) → n ≤ i → total n (update f i v) ≡ total n f
unfolding total
total-out zero f i v h = refl
total-out (suc n) f i v h = ground (arith, total-out n f i v (omega (arith, h)), h)

total-update :
    (n : ℕ) (f : Table ℕ) (i v : ℕ) → i < n → total n (update f i v) + f i ≡ total n f + v
unfolding total
total-update zero f i v h = absurd (omega (arith, h))
total-update (suc n) f i v h = elim (ℕ_discrete n i) [
  | yes e ↦ ground (arith, total-out n f i v, e, ap f e)
  | no ne ↦ ground (arith, total-update n f i v, h)
]

-- The cycles of all tasks together make up the time from the boot to the last switch, modulo 2^64.
abbrev pub IsExact : Config → ExecTime → Type 0
IsExact cfg e = (total cfg.max_ptasks e.busy + e.boot_cycle) % 2 ^ 64 ≡ e.last_dispatch

-- A switch away from a task of the registry, at any 64-bit value of the cycle counter, keeps the
-- account exact: the cycles of all tasks together make up the time from the boot to the last
-- switch, modulo 2^64.
pub on_switch-IsExact :
    (cfg : Config) (now outgoing : ℕ) (e : ExecTime)
    → now < 2 ^ 64
    → outgoing < cfg.max_ptasks
    → IsExact cfg e
    → IsExact cfg (on_switch cfg now outgoing e)
unfolding on_switch
on_switch-IsExact cfg now outgoing e hn ho exact = elim (Bool-cases e.started) [
  | inr off ↦ rw off exact
  | inl on ↦
      let inside : ltb outgoing cfg.max_ptasks ≡ true = ground (arith, ho) in
      let v = (e.busy outgoing + wrapping_sub now e.last_dispatch) % 2 ^ 64 in
      let sum = total-update cfg.max_ptasks e.busy outgoing v ho in
      rw (on, inside) (omega (arith, sum, exact, hn))
]
