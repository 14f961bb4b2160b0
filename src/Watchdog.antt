-- ===== src/Watchdog.antt =====
-- `rivet/src/watchdog.rs`: the deadline of the check-ins of the tasks.
use rivet_rtos.Base.{
  ℕ, zero, suc, ◌+◌, ◌-◌, ◌%◌, ◌^◌, Bool, true, false, not, ◌&&◌, Option, none, some, ◌==◌, ltb,
  if◌then◌else◌, Table,
}
use rivet_rtos.Config.{Config}
use rivet_rtos.Coop.Sleep.{Duration, as_micros}
use rivet_rtos.Preempt.Tcb.{Tcb}
use rivet_rtos.Preempt.Sched.{Sched, get, set_task}
pub mod Overdue

-- `CHECKIN_TIMEOUT_US`, and whether the board was reset.
pub record Watchdog : Type 0 where
  pub timeout_us : ℕ
  pub reset : Bool

-- `as u32`.
abbrev pub as_u32 : ℕ → ℕ
as_u32 n = n % 2 ^ 32

unfoldable pub enable_checkins : Duration → Watchdog → Watchdog
enable_checkins timeout w = record w { timeout_us = as_u32 (as_micros timeout) }

unfoldable pub checkin : Config → ℕ → ℕ → Watchdog → Sched → Sched
checkin cfg hart now_us w s =
    let stamp : Option ℕ → Sched = λ o. elim o [
      | none ↦ s
      | some id ↦ elim (get cfg id s) [
        | none ↦ s
        | some t ↦ set_task id (record (s.tasks id) { last_checkin = as_u32 now_us }) s
      ]
    ] in
    if w.timeout_us == 0 then s else stamp (s.current hart)

-- `last != 0 && now.wrapping_sub(last) > timeout`.
unfoldable pub is_overdue : ℕ → ℕ → ℕ → Bool
is_overdue now timeout last = not (last == 0) && ltb timeout ((now + 2 ^ 32 - last) % 2 ^ 32)

-- The first overdue task among the `n` from `id` on. The loop prints a line and resets the board at
-- each overdue task; the first reset does not return.
unfoldable pub overdue_from : ℕ → ℕ → ℕ → ℕ → Sched → Option ℕ
overdue_from zero id now timeout s = none
overdue_from (suc n) id now timeout s =
    let rest = overdue_from n (id + 1) now timeout s in
    if (s.tasks id).used && is_overdue now timeout (s.tasks id).last_checkin then some id else rest

unfoldable pub check_task_checkins : Config → ℕ → Watchdog → Sched → Option ℕ × Watchdog
check_task_checkins cfg now_us w s =
    let found = overdue_from cfg.max_ptasks 0 (as_u32 now_us) w.timeout_us s in
    if w.timeout_us == 0
    then (none, w)
    else (found, record w { reset = elim found [ none ↦ w.reset | some id ↦ true ] })
