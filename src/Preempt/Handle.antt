-- ===== src/Preempt/Handle.antt =====
-- `TaskHandle` of `rivet/src/preempt/mod.rs`, and `rivet/src/preempt/lifecycle.rs`.
use rivet_rtos.Base.{
  ℕ, zero, suc, ◌-◌, ◌/◌, ◌%◌, ◌^◌, Bool, true, false, ◌&&◌, ◌||◌, Option, none, some, List, [],
  ◌∷◌, ◌++◌, ◌==◌, ltb, leb, if◌then◌else◌, length,
}
use rivet_rtos.Config.{Config}
use rivet_rtos.Preempt.Tcb.{Tcb, RawState, TaskRef, stack_info}
use rivet_rtos.Preempt.Sched.{
  Sched, Effect, drop_result, release_stack, reschedule, get, set_task, emit, ready_add,
  ready_remove, unblock, block_current,
}
use rivet_rtos.Preempt.Sched.Invariant.{is_ready}
pub mod Queues
pub mod Exit
pub mod Race

pub record TaskHandle : Type 0 where
  pub id : ℕ
  pub generation : ℕ

abbrev pub is_suspended : RawState → Bool
is_suspended RawState.suspended = true
is_suspended _ = false

abbrev pub is_ref : ℕ → TaskRef → Bool
is_ref id none = false
is_ref id (some j) = j == id

-- The slot as `despawn` leaves it.
unfoldable pub vacated : Tcb → Tcb
vacated t = record t {
  result_drop = 0;
  state = RawState.ready;
  exited = false;
  result_size = 0;
  stop_requested = false;
  used = false;
  stack_base = 0;
  stack_size = 0;
}

-- The call of the drop function, if there is one.
unfoldable pub drop_part : ℕ → Tcb → Sched → Sched
drop_part id t s = if t.result_drop == 0 then s else emit (drop_result t.result_drop id) s

-- The calls of the drop function and of the stack pool.
unfoldable pub free_parts : ℕ → Tcb → Sched → Sched
free_parts id t s = elim (stack_info t) [
  | none ↦ drop_part id t s
  | some (base, size) ↦ emit (release_stack base size) (drop_part id t s)
]

-- The rest of `despawn`, on the slot `id`. No critical section guards its stores, and other calls
-- may come before it; the stores themselves are one step here.
unfoldable pub despawn_free : ℕ → Sched → Sched
despawn_free id s = free_parts id (s.tasks id) (set_task id (vacated (s.tasks id)) s)

module _ (cfg : Config) where
  -- The task of the handle: in use, and of the handle's generation.
  unfoldable pub find : TaskHandle → Sched → Option Tcb
  find h s = elim (get cfg h.id s) [
    | none ↦ none
    | some t ↦ if t.generation == h.generation then some t else none
  ]

  unfoldable pub is_valid : TaskHandle → Sched → Bool
  is_valid h s = elim (find h s) [ none ↦ false | some _ ↦ true ]

  unfoldable pub request_stop : TaskHandle → Sched → Bool × Sched
  request_stop h s = elim (find h s) [
    | none ↦ (false, s)
    | some t ↦ (true, set_task h.id (record (s.tasks h.id) { stop_requested = true }) s)
  ]

  unfoldable pub should_stop : ℕ → Sched → Bool
  should_stop hart s = elim (s.current hart) [
    | none ↦ false
    | some id ↦ elim (get cfg id s) [ none ↦ false | some t ↦ t.stop_requested ]
  ]

  -- `despawn` up to the end of its critical section, which holds `ready_remove` only.
  unfoldable pub despawn_remove : ℕ → TaskHandle → Sched → Bool × Sched
  despawn_remove hart h s = elim (find h s) [
    | none ↦ (false, s)
    | some t ↦ if is_ref h.id (s.current hart) then (false, s) else (true, ready_remove cfg h.id s)
  ]

  -- `despawn` with no other call in between.
  unfoldable pub despawn : ℕ → TaskHandle → Sched → Bool × Sched
  despawn hart h s =
      let (found, s') = despawn_remove hart h s in
      (found, if found then despawn_free h.id s' else s')

  -- The compare-exchange of the state, and the queue.
  unfoldable pub pause : TaskHandle → Sched → Bool × Sched
  pause h s = elim (find h s) [
    | none ↦ (false, s)
    | some t ↦
        if is_ready (s.tasks h.id).state
        then (
          true,
          ready_remove cfg h.id
              (set_task h.id (record (s.tasks h.id) { state = RawState.suspended }) s),
        )
        else (false, s)
  ]

  unfoldable pub resume : ℕ → TaskHandle → Sched → Bool × Sched
  resume hart h s = elim (find h s) [
    | none ↦ (false, s)
    | some t ↦
        if is_suspended (s.tasks h.id).state
        then (
          true,
          ready_add cfg hart h.id
              (set_task h.id (record (s.tasks h.id) { state = RawState.ready }) s),
        )
        else (false, s)
  ]

-- `to_le_bytes` of a 32-bit word.
unfoldable pub le_bytes : ℕ → List ℕ
le_bytes v = v % 2 ^ 8 ∷ v / 2 ^ 8 % 2 ^ 8 ∷ v / 2 ^ 16 % 2 ^ 8 ∷ v / 2 ^ 24 % 2 ^ 8 ∷ []

-- The first `n` bytes of the source go over those of the buffer.
unfoldable pub copy : ℕ → List ℕ → List ℕ → List ℕ
copy zero src buf = buf
copy (suc n) [] buf = buf
copy (suc n) (b ∷ src) [] = []
copy (suc n) (b ∷ src) (x ∷ buf) = b ∷ copy n src buf

-- `n` bytes of memory from an address on.
unfoldable pub read_bytes : (ℕ → ℕ) → ℕ → ℕ → List ℕ
read_bytes memory addr zero = []
read_bytes memory addr (suc n) = memory addr ∷ read_bytes memory (suc addr) n

-- The result buffer after the entry returned. A result above 8 bytes is read from the stack.
unfoldable pub stored_result : (ℕ → ℕ) → ℕ → ℕ → Tcb → List ℕ
stored_result memory val_lo val_hi t =
    if ltb 0 t.result_size && leb t.result_size (length t.result_buf)
    then (if leb t.result_size 8
        then copy t.result_size (le_bytes val_lo ++ le_bytes val_hi) t.result_buf
        else copy t.result_size (read_bytes memory val_lo t.result_size) t.result_buf)
    else t.result_buf

module _ (cfg : Config) where
  unfoldable pub wake_joiner : ℕ → TaskRef → Sched → Sched
  wake_joiner hart none s = s
  wake_joiner hart (some j) s = unblock cfg hart j s

  -- `rivet_task_exit_core` up to its last loop, of which each round is `park`.
  unfoldable pub task_exit : ℕ → (ℕ → ℕ) → ℕ → ℕ → Sched → Sched
  task_exit hart memory val_lo val_hi s = elim (s.current hart) [
    | none ↦ s
    | some id ↦ elim (get cfg id s) [
      | none ↦ s
      | some t ↦ wake_joiner hart t.joiner (
          set_task id
            (record t {
              result_buf = stored_result memory val_lo val_hi t;
              exited = true;
              joiner = none;
            })
            s)
    ]
  ]

  unfoldable pub park : ℕ → Sched → Sched
  park hart s = emit reschedule (block_current cfg hart s)

pub data JoinError : Type 0 where
  stale self_join already_joined faulted : JoinError

abbrev same_ref : TaskRef → TaskRef → Bool
same_ref none none = true
same_ref (some a) (some b) = a == b
same_ref _ _ = false

module _ (cfg : Config) where
  -- `join_task` up to its loop: the caller registers as the joiner.
  unfoldable pub join_register : ℕ → TaskHandle → Sched → Option JoinError × Sched
  join_register hart h s = elim (find cfg h s) [
    | none ↦ (some stale, s)
    | some t ↦
        if is_ref h.id (s.current hart)
        then (some self_join, s)
        else (if same_ref (s.tasks h.id).joiner none
            then (none, set_task h.id (record (s.tasks h.id) { joiner = s.current hart }) s)
            else (some already_joined, s))
  ]

  -- One round of the loop: whether the caller waits. The task is not looked up again.
  unfoldable pub join_wait : ℕ → ℕ → Sched → Bool × Sched
  join_wait hart id s =
      if (s.tasks id).exited then (false, s) else (true, emit reschedule (block_current cfg hart s))

-- The bytes of the result, of the size that the caller asks for.
unfoldable pub take : ℕ → List ℕ → List ℕ
take zero bs = []
take (suc n) [] = []
take (suc n) (b ∷ bs) = b ∷ take n bs

pub data Joined : Type 0 where
  failed : JoinError → Joined
  result : List ℕ → Joined

-- The end of `join_task`, after the loop.
unfoldable pub join_finish : ℕ → ℕ → ℕ → Sched → Joined × Sched
join_finish hart id size s =
    let cleared : Sched =
      if same_ref (s.tasks id).joiner (s.current hart)
      then set_task id (record (s.tasks id) { joiner = none }) s
      else s in
    (
      if (s.tasks id).result_size == size
          then result (take size (s.tasks id).result_buf)
          else failed faulted,
      cleared,
    )
