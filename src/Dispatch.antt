-- ===== src/Dispatch.antt =====
-- `on_tick`, `start` and `start_secondary_hart` of `rivet/src/preempt/mod.rs`, and the policies of
-- `rivet/src/fault.rs`. Each is one critical section.
use rivet_rtos.Base.{
  ℕ, ◌+◌, ◌%◌, ◌^◌, Bool, true, false, not, ◌&&◌, Option, none, some, List, [], ◌∷◌, ◌==◌, ltb, leb,
  if◌then◌else◌, Table,
}
use rivet_rtos.Config.{Config}
use rivet_rtos.Preempt.Tcb.{Tcb, TaskState, RawState, HeldMutex, state_of}
use rivet_rtos.Preempt.Sched.{
  Sched, Effect, switch_to, fault_hook, get, set_task, emit, set_state, set_current, schedule,
  on_dispatch, should_preempt,
}
use rivet_rtos.Timer.{Kernel}
use rivet_rtos.Mutex.{System, with_sched, poison_mutex}
use rivet_rtos.ExecTime.{ExecTime, on_switch, on_first_dispatch}
use rivet_rtos.Deadlines.{Periods, check_budget}
pub mod Consistent
pub mod Choice

pub record Machine : Type 0 where
  pub system : System
  pub exec_time : ExecTime
  pub periods : Periods
  -- The fault policy is `IsolateTask`, and whether a hook is set.
  pub isolates : Bool
  pub has_hook : Bool

abbrev pub sched_of : Machine → Sched
sched_of m = m.system.kernel.sched

abbrev pub map_sched : (Sched → Sched) → Machine → Machine
map_sched f m = record m { system = record (m.system) { kernel = with_sched f m.system.kernel } }

-- The stack pointer to go on with, or the end: a panic, or `exit(0xFA)`.
pub data Outcome : Type 0 where
  resume : ℕ → Outcome
  halt : Outcome

unfoldable pub is_blocked : TaskState → Bool
is_blocked TaskState.blocked = true
is_blocked _ = false

unfoldable pub is_running : TaskState → Bool
is_running TaskState.running = true
is_running _ = false

-- Every mutex in the held slots is poisoned, the first slot first.
unfoldable pub poison_held : Config → ℕ → List HeldMutex → System → System
poison_held cfg hart [] w = w
poison_held cfg hart (none ∷ slots) w = poison_held cfg hart slots w
poison_held cfg hart (some m ∷ slots) w = poison_held cfg hart slots (poison_mutex cfg hart m w)

-- The task is taken out of scheduling, and the mutexes that it holds are poisoned.
unfoldable pub expel : Config → ℕ → ℕ → System → System
expel cfg hart id w = elim (get cfg id w.kernel.sched) [
  | none ↦ w
  | some t ↦
      let poisoned = poison_held cfg hart t.held w in
      record poisoned {
        kernel = with_sched (set_state cfg hart id TaskState.blocked) poisoned.kernel;
      }
]

unfoldable pub switch_memory : Tcb → Sched → Sched
switch_memory t s = emit (switch_to t.stack_base t.stack_size) s

-- The end of `isolate`: no call of `on_dispatch` or `on_switch` here.
unfoldable pub resume_next : Config → ℕ → Option ℕ × Sched → Outcome × Sched
resume_next cfg hart (none, s) = (halt, s)
resume_next cfg hart (some next, s) = elim (get cfg next s) [
  | none ↦ (resume 0, s)
  | some t ↦ (
    resume t.sp,
    switch_memory t (set_current hart next (set_state cfg hart next TaskState.running s)),
  )
]

unfoldable pub isolate : Config → ℕ → ℕ → Machine → Outcome × Machine
isolate cfg hart faulting m =
    let expelled = expel cfg hart faulting m.system in
    let hooked : Sched =
      if m.has_hook
      then emit (fault_hook faulting) expelled.kernel.sched
      else expelled.kernel.sched in
    let r = resume_next cfg hart (schedule cfg hooked) in
    (r.0, record m { system = record expelled { kernel = with_sched (λ _. r.1) expelled.kernel } })

unfoldable pub on_fault : Config → ℕ → ℕ → Machine → Outcome × Machine
on_fault cfg hart faulting m = if m.isolates then isolate cfg hart faulting m else (halt, m)

-- The lowest word of a stack no longer holds the fill pattern.
unfoldable pub overflowed : (ℕ → ℕ) → Tcb → Bool
overflowed word t =
    if t.stack_base == 0
    then false
    else (if ltb t.stack_size 4
        then false
        else (if word t.stack_base == 2863311530 then false else true))

abbrev pub save_sp : ℕ → Tcb → Tcb
save_sp sp t = record t { sp = sp }

-- A running task goes back to the ready queues.
unfoldable pub yield_running : Config → ℕ → ℕ → Sched → Sched
yield_running cfg hart running s = elim (get cfg running s) [
  | none ↦ s
  | some t ↦
      if is_running (state_of t.state) then set_state cfg hart running TaskState.ready s else s
]

-- The part of a switch that the scheduler sees.
unfoldable pub commit : Config → ℕ → ℕ → Sched → Sched
commit cfg hart candidate s =
    on_dispatch cfg candidate
      (set_current hart candidate (set_state cfg hart candidate TaskState.running s))

-- The switch. `none` is the panic of `unwrap`.
unfoldable pub switch : Config → ℕ → ℕ → ℕ → ℕ → Machine → Outcome × Machine
switch cfg hart cycles running candidate m =
    let yielded = record (map_sched (yield_running cfg hart running) m) {
      exec_time = on_switch cfg cycles running m.exec_time;
    } in
    elim (get cfg candidate (sched_of yielded)) [
      | none ↦ (halt, yielded)
      | some t ↦
          (resume t.sp, map_sched (λ s. switch_memory t (commit cfg hart candidate s)) yielded)
    ]

-- Whether the running task has blocked itself, or is gone.
unfoldable pub running_blocked : Config → ℕ → Sched → Bool
running_blocked cfg running s = elim (get cfg running s) [
  | none ↦ true
  | some t ↦ is_blocked (state_of t.state)
]

-- The choice between staying and switching.
unfoldable pub decide : Config → ℕ → ℕ → ℕ → ℕ → ℕ → Machine → Outcome × Machine
decide cfg hart sp cycles running candidate m =
    let blocked = running_blocked cfg running (sched_of m) in
    if not blocked && not (should_preempt candidate running (sched_of m))
    then (resume sp, m)
    else (if blocked && candidate == running
        then (resume sp, m)
        else switch cfg hart cycles running candidate m)

-- The checks of the running task's stack and of its budget: whether one fails.
unfoldable pub has_fault : Config → (ℕ → ℕ) → ℕ → ℕ → ℕ → Machine → Bool
has_fault cfg word cycles now_us running m = elim (get cfg running (sched_of m)) [
  | none ↦ false
  | some t ↦
      if overflowed word t
      then true
      else is_running (state_of t.state)
        && check_budget cfg cycles now_us running m.exec_time m.periods
]

unfoldable pub save_running : Config → ℕ → ℕ → Sched → Sched
save_running cfg sp running s = elim (get cfg running s) [
  | none ↦ s
  | some t ↦ set_task running (save_sp sp t) s
]

-- `on_tick_locked` with the running task known. `word` reads memory.
unfoldable pub tick_running : Config → ℕ → ℕ → (ℕ → ℕ) → ℕ → ℕ → ℕ → Machine → Outcome × Machine
tick_running cfg hart sp word cycles now_us running m =
    let chosen = schedule cfg (save_running cfg sp running (sched_of m)) in
    let saved = map_sched (λ _. chosen.1) m in
    elim chosen.0 [
      | none ↦ (resume sp, saved)
      | some candidate ↦
          if has_fault cfg word cycles now_us running saved
          then on_fault cfg hart running saved
          else decide cfg hart sp cycles running candidate saved
    ]

unfoldable pub on_tick : Config → ℕ → ℕ → (ℕ → ℕ) → ℕ → ℕ → Machine → Outcome × Machine
on_tick cfg hart sp word cycles now_us m = elim ((sched_of m).current hart) [
  | none ↦ (resume sp, m)
  | some running ↦ tick_running cfg hart sp word cycles now_us running m
]

-- The read-decide-commit sequence of `start`, from what `schedule` chose.
unfoldable pub dispatch_first : Config → ℕ → Option ℕ × Sched → Option ℕ × Sched
dispatch_first cfg hart (none, s) = (none, s)
dispatch_first cfg hart (some first, s) =
    let current = set_current hart first s in
    (
      some first,
      on_dispatch cfg first (elim (get cfg first current) [
        | none ↦ current
        | some _ ↦ set_state cfg hart first TaskState.running current
      ]),
    )

-- `start`, up to the switch to the first task's stack; with no task it panics.
unfoldable pub start : Config → ℕ → ℕ → ℕ → Machine → Outcome × Machine
start cfg hart cycles now_us m =
    let r = dispatch_first cfg hart (schedule cfg (sched_of m)) in
    let begun = record (map_sched (λ _. r.1) m) {
      exec_time = on_first_dispatch cycles now_us m.exec_time;
    } in
    elim r.0 [
      | none ↦ (halt, map_sched (λ _. r.1) m)
      | some first ↦ elim (get cfg first r.1) [
        | none ↦ (halt, begun)
        | some t ↦ (resume t.sp, map_sched (switch_memory t) begun)
      ]
    ]

-- A round of `start_secondary_hart`: `none` idles.
unfoldable pub start_secondary : Config → ℕ → Machine → Option Outcome × Machine
start_secondary cfg hart m =
    let r = dispatch_first cfg hart (schedule cfg (sched_of m)) in
    let begun = map_sched (λ _. r.1) m in
    elim r.0 [
      | none ↦ (none, begun)
      | some first ↦ elim (get cfg first r.1) [
        | none ↦ (some halt, begun)
        | some t ↦ (some (resume t.sp), map_sched (switch_memory t) begun)
      ]
    ]
