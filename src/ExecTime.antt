-- ===== src/ExecTime.antt =====
-- `rivet/src/exec_time.rs`: the cycles that each task has run. The cycle counter and the clock
-- are arguments.
use rivet_rtos.Base.{
  ℕ, zero, suc, ◌+◌, ◌-◌, ◌*◌, ◌/◌, ◌%◌, ◌^◌, Bool, true, false, ◌==◌, ltb, leb, if◌then◌else◌,
  Table, update,
}
use rivet_rtos.Config.{Config}
pub mod Total

pub record ExecTime : Type 0 where
  pub busy : Table ℕ
  pub last_dispatch : ℕ
  pub boot_cycle : ℕ
  pub wallclock_boot_us : ℕ
  pub started : Bool

-- `wrapping_sub` of `u64`.
abbrev pub wrapping_sub : ℕ → ℕ → ℕ
wrapping_sub a b = (a + (2 ^ 64 - b)) % 2 ^ 64

unfoldable pub saturating_mul : ℕ → ℕ → ℕ
saturating_mul a b = if ltb (a * b) (2 ^ 64) then a * b else 2 ^ 64 - 1

unfoldable pub on_first_dispatch : ℕ → ℕ → ExecTime → ExecTime
on_first_dispatch now now_us e = record e {
  boot_cycle = now;
  last_dispatch = now;
  wallclock_boot_us = now_us;
  started = true;
}

module _ (cfg : Config) where
  unfoldable pub on_switch : ℕ → ℕ → ExecTime → ExecTime
  on_switch now outgoing e =
      if e.started
      then record e {
        last_dispatch = now;
        busy =
            if ltb outgoing cfg.max_ptasks
            then update e.busy outgoing
                ((e.busy outgoing + wrapping_sub now e.last_dispatch) % 2 ^ 64)
            else e.busy;
      }
      else e

  unfoldable pub busy_cycles : ℕ → ExecTime → ℕ
  busy_cycles id e = if leb cfg.max_ptasks id then 0 else e.busy id

  unfoldable pub busy_cycles_live : ℕ → ℕ → ExecTime → ℕ
  busy_cycles_live now id e = (busy_cycles id e + wrapping_sub now e.last_dispatch) % 2 ^ 64

unfoldable pub cycles_since_boot : ℕ → ExecTime → ℕ
cycles_since_boot now e = if e.started then wrapping_sub now e.boot_cycle else 0

unfoldable pub wallclock_us_since_boot : ℕ → ExecTime → ℕ
wallclock_us_since_boot now_us e = if e.started then wrapping_sub now_us e.wallclock_boot_us else 0

unfoldable pub estimate_us_from_cycles : ℕ → ℕ → ℕ → ExecTime → ℕ
estimate_us_from_cycles now now_us cycles e =
    let total_cycles = cycles_since_boot now e in
    if total_cycles == 0
    then 0
    else saturating_mul cycles (wallclock_us_since_boot now_us e) / total_cycles

unfoldable pub busy_percent : Config → ℕ → ℕ → ExecTime → ℕ
busy_percent cfg now id e =
    let total = cycles_since_boot now e in
    let share = saturating_mul (busy_cycles cfg id e) 100 / total in
    if total == 0 then 0 else (if leb share 100 then share else 100)
