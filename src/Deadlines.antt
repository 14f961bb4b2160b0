-- ===== src/Deadlines.antt =====
-- `rivet/src/deadlines.rs`: periods and CPU budgets. `sleep_until` is of `preempt/mod.rs`.
use rivet_rtos.Base.{
  ℕ, ◌+◌, ◌*◌, ◌%◌, ◌^◌, Bool, true, false, Option, none, some, ◌==◌, ltb, leb, if◌then◌else◌,
  Table, update,
}
use rivet_rtos.Config.{Config}
use rivet_rtos.Preempt.Sched.{Sched, reschedule, emit, block_current}
use rivet_rtos.Timer.{Kernel, register_ptask_deadline, cancel_ptask_deadline}
use rivet_rtos.ExecTime.{
  ExecTime, saturating_mul, wrapping_sub, busy_cycles, busy_cycles_live, estimate_us_from_cycles,
}
pub mod Sleep

pub record Periods : Type 0 where
  pub period_us : Table ℕ
  pub budget_us : Table ℕ
  pub next_us : Table ℕ
  pub budget_start_cycles : Table ℕ

-- The registration, whose error is dropped.
unfoldable pub register_or_keep : Config → ℕ → ℕ → Kernel → Kernel
register_or_keep cfg deadline_us me k = elim (register_ptask_deadline cfg deadline_us me k.timers) [
  | none ↦ k
  | some t ↦ record k { timers = t }
]

-- `sleep_until` up to its reschedule request; `wake_up` is the rest.
unfoldable pub sleep_until : Config → ℕ → ℕ → Kernel → Kernel
sleep_until cfg hart deadline_us k = elim (k.sched.current hart) [
  | none ↦ k
  | some me ↦
      let slept =
        register_or_keep cfg deadline_us me (record k { sched = block_current cfg hart k.sched }) in
      record slept { sched = emit reschedule slept.sched }
]

unfoldable pub wake_up : Config → ℕ → Kernel → Kernel
wake_up cfg me k = record k { timers = cancel_ptask_deadline cfg me k.timers }

unfoldable pub sleep_ms : Config → ℕ → ℕ → ℕ → Kernel → Kernel
sleep_ms cfg hart now_us ms k = sleep_until cfg hart ((now_us + saturating_mul ms 1000) % 2 ^ 64) k

-- The next boundary of a task: from the one before, or from `now_us` at the first call.
unfoldable pub next_boundary : ℕ → ℕ → ℕ → ℕ
next_boundary now_us period prev =
    if prev == 0 then (now_us + period) % 2 ^ 64 else (prev + period) % 2 ^ 64

module _ (cfg : Config) where
  unfoldable pub set_period_us : ℕ → ℕ → Periods → Periods
  set_period_us id us p =
      if ltb id cfg.max_ptasks then record p { period_us = update p.period_us id us } else p

  unfoldable pub set_budget_us : ℕ → ℕ → Periods → Periods
  set_budget_us id us p =
      if ltb id cfg.max_ptasks then record p { budget_us = update p.budget_us id us } else p

  unfoldable pub period_of : ℕ → Periods → ℕ
  period_of id p = if ltb id cfg.max_ptasks then p.period_us id else 0

  unfoldable pub budget_of : ℕ → Periods → ℕ
  budget_of id p = if ltb id cfg.max_ptasks then p.budget_us id else 0

  -- `wait_period` up to its `sleep_until`: the boundary to sleep until, if there is one.
  unfoldable pub wait_period : ℕ → Option ℕ → ExecTime → Periods → Option ℕ × Periods
  wait_period now_us none e p = (none, p)
  wait_period now_us (some me) e p =
      let period = period_of me p in
      let next = next_boundary now_us period (p.next_us me) in
      if period == 0 then (none, p) else (
        some next,
        record p {
          next_us = update p.next_us me next;
          budget_start_cycles = update p.budget_start_cycles me (busy_cycles cfg me e);
        },
      )

  unfoldable pub check_budget : ℕ → ℕ → ℕ → ExecTime → Periods → Bool
  check_budget now now_us id e p =
      let budget = budget_of id p in
      let used = wrapping_sub (busy_cycles_live cfg now id e) (p.budget_start_cycles id) in
      if budget == 0 then false else ltb budget (estimate_us_from_cycles now now_us used e)
