-- ===== src/Preempt/Sched.antt =====
-- `rivet/src/preempt/sched.rs`, and the operations of `tcb.rs` that go through the ready queues.
-- One call runs at a time, inside the critical section of its caller.
pub mod Queues
pub mod Invariant
pub mod Frame
pub mod Transitions
pub mod Select
pub mod Heal
pub mod Choice
pub mod Fairness
use rivet_rtos.Base.{
  ℕ, zero, suc, ◌+◌, ◌-◌, ◌%◌, ◌^◌, Bool, true, false, not, ◌&&◌, ◌||◌, Option, none, some, List,
  [], ◌∷◌, ◌++◌, ◌==◌, ltb, leb, if◌then◌else◌, Table, update,
}
use rivet_rtos.Config.{Config}
use rivet_rtos.Word.{bits, mask, set_bit, clear_bit, trailing_zeros, leading_zeros, clear_lowest}
use rivet_rtos.Preempt.Tcb.{Tcb, TaskState, RawState, state_of, raw, TaskRef}

-- What a call asks of the port and of user code, in order.
pub data Effect : Type 0 where
  -- `request_reschedule_on`
  reschedule_on : ℕ → Effect
  -- `request_reschedule`
  reschedule : Effect
  -- A call of the drop function at the address, on the result of the task.
  drop_result : ℕ → ℕ → Effect
  -- `release_stack`, on the stack at the base, of the size.
  release_stack : ℕ → ℕ → Effect
  -- `on_switch_to`, for the stack at the base, of the size.
  switch_to : ℕ → ℕ → Effect
  -- The hook for a fault of the task.
  fault_hook : ℕ → Effect

-- The statics of `sched.rs`, and `TASKS`.
pub record Sched : Type 0 where
  pub ready_bitmap : ℕ
  pub queues : Table ℕ
  pub current : Table TaskRef
  pub dispatch_counter : ℕ
  pub dispatch_seq : Table ℕ
  pub tasks : Table Tcb
  pub effects : List Effect

abbrev pub u32_max : ℕ
u32_max = 2 ^ 32 - 1

unfoldable pub set_task : ℕ → Tcb → Sched → Sched
set_task id t s = record s { tasks = update s.tasks id t }

unfoldable pub emit : Effect → Sched → Sched
emit e s = record s { effects = s.effects ++ (e ∷ []) }

-- `fetch_and(!(1 << id))` on the queue of `prio`; the priority's bit goes if `id` was the last.
unfoldable pub dequeue : ℕ → ℕ → Sched → Sched
dequeue prio id s = record s {
  queues = update s.queues prio (clear_bit (s.queues prio) id);
  ready_bitmap = if s.queues prio == mask id then clear_bit s.ready_bitmap prio else s.ready_bitmap;
}

unfoldable pub enqueue : ℕ → ℕ → Sched → Sched
enqueue prio id s = record s {
  queues = update s.queues prio (set_bit (s.queues prio) id);
  ready_bitmap = set_bit s.ready_bitmap prio;
}

unfoldable pub is_ready_state : TaskState → Bool
is_ready_state TaskState.ready = true
is_ready_state _ = false

unfoldable pub should_preempt : ℕ → ℕ → Sched → Bool
should_preempt candidate running s =
    if candidate == running
    then false
    else leb (s.tasks running).effective_priority (s.tasks candidate).effective_priority

unfoldable pub set_current : ℕ → ℕ → Sched → Sched
set_current hart id s = record s { current = update s.current hart (some id) }

-- The requests to the harts below `n` other than `me`.
unfoldable pub others : ℕ → ℕ → List Effect
others me zero = []
others me (suc n) = others me n ++ (if n == me then [] else reschedule_on n ∷ [])

module _ (cfg : Config) where
  -- `get`: a slot of the registry that is in use.
  unfoldable pub get : ℕ → Sched → Option Tcb
  get id s =
      if ltb id cfg.max_ptasks
      then (if (s.tasks id).used then some (s.tasks id) else none)
      else none

  unfoldable pub wake_other_harts : ℕ → Sched → Sched
  wake_other_harts me s =
      if ltb 1 cfg.max_harts then record s { effects = s.effects ++ others me cfg.max_harts } else s

  unfoldable pub ready_add : ℕ → ℕ → Sched → Sched
  ready_add hart id s =
      if leb cfg.max_ptasks id
      then s
      else let prio = (s.tasks id).effective_priority in
        wake_other_harts hart (record s {
          queues = update s.queues prio (set_bit (s.queues prio) id);
          ready_bitmap = set_bit s.ready_bitmap prio;
        })

  unfoldable pub ready_remove : ℕ → Sched → Sched
  ready_remove id s =
      if leb cfg.max_ptasks id then s else dequeue (s.tasks id).effective_priority id s

  unfoldable pub on_effective_priority_change : ℕ → ℕ → ℕ → Sched → Sched
  on_effective_priority_change id old_prio new_prio s =
      if leb cfg.max_ptasks id || old_prio == new_prio
      then s
      else (if not (is_ready_state (state_of (s.tasks id).state))
          then s
          else enqueue new_prio id (dequeue old_prio id s))

  unfoldable pub set_state : ℕ → ℕ → TaskState → Sched → Sched
  set_state hart id TaskState.ready s =
      ready_add hart id (set_task id (record (s.tasks id) { state = RawState.ready }) s)
  set_state hart id TaskState.running s =
      ready_remove id (set_task id (record (s.tasks id) { state = RawState.running }) s)
  set_state hart id TaskState.blocked s =
      ready_remove id (set_task id (record (s.tasks id) { state = RawState.blocked }) s)

  unfoldable pub set_effective_priority : ℕ → ℕ → Sched → Sched
  set_effective_priority id new s =
      on_effective_priority_change id (s.tasks id).effective_priority new
        (set_task id (record (s.tasks id) { effective_priority = new }) s)

  -- The loop over the set bits of a queue's word: the id with the smallest stamp below `best_seq`.
  unfoldable pub scan : ℕ → ℕ → Table ℕ → TaskRef → ℕ → TaskRef
  scan zero w seqs best_id best_seq = best_id
  scan (suc fuel) w seqs best_id best_seq =
      let id = trailing_zeros w in
      let better = ltb id cfg.max_ptasks && ltb (seqs id) best_seq in
      let rest =
        scan fuel (clear_lowest w) seqs (if better then some id else best_id)
          (if better then seqs id else best_seq) in
      if w == 0 then best_id else rest

  -- The choice within one priority's word.
  unfoldable pub pick : ℕ → Table ℕ → TaskRef
  pick word seqs = elim (scan (suc bits) word seqs none u32_max) [
    | some id ↦ some id
    | none ↦ if cfg.max_ptasks == 0 then none else some (trailing_zeros word % cfg.max_ptasks)
  ]

  -- The loop of `schedule`. A stale bit of the bitmap is cleared on the way.
  unfoldable pub schedule_loop : ℕ → ℕ → Sched → TaskRef × Sched
  schedule_loop zero bitmap s = (none, s)
  schedule_loop (suc fuel) bitmap s =
      let prio = 31 - leading_zeros bitmap in
      let healed = clear_bit s.ready_bitmap prio in
      let rest = schedule_loop fuel healed (record s { ready_bitmap = healed }) in
      if bitmap == 0
      then (none, s)
      else (if s.queues prio == 0 then rest else (pick (s.queues prio) s.dispatch_seq, s))

  unfoldable pub schedule : Sched → TaskRef × Sched
  schedule s = schedule_loop (suc bits) s.ready_bitmap s

  unfoldable pub on_dispatch : ℕ → Sched → Sched
  on_dispatch id s =
      if ltb id cfg.max_ptasks
      then (let seq = (s.dispatch_counter + 1) % 2 ^ 32 in
          record s { dispatch_counter = seq; dispatch_seq = update s.dispatch_seq id seq })
      else s

  unfoldable pub unblock : ℕ → ℕ → Sched → Sched
  unblock hart id s = elim (get id s) [ none ↦ s | some _ ↦ set_state hart id TaskState.ready s ]

  unfoldable pub block_current : ℕ → Sched → Sched
  block_current hart s = elim (s.current hart) [
    | none ↦ s
    | some id ↦ elim (get id s) [ none ↦ s | some _ ↦ set_state hart id TaskState.blocked s ]
  ]
