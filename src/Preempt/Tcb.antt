-- ===== src/Preempt/Tcb.antt =====
-- `rivet/src/preempt/tcb.rs`: the task control block and its list of held mutexes.
use rivet_rtos.Base.{
  ℕ, ◌+◌, ◌-◌, ◌%◌, ◌^◌, Bool, true, false, ◌||◌, Option, none, some, List, [], ◌∷◌, ◌==◌, leb,
  if◌then◌else◌, replicate,
}
use rivet_rtos.Config.{Config}

pub data TaskState : Type 0 where
  ready running blocked : TaskState

-- The values of the `state` byte.
pub data RawState : Type 0 where
  ready running blocked reserved suspended : RawState

-- A slot of the held list: the address of a mutex, `none` when null. The accessor `hwp` that is
-- stored beside it is always `highest_waiter_priority` of that mutex.
abbrev pub HeldMutex : Type 0
HeldMutex = Option ℕ

-- `NO_TASK` is `none`.
abbrev pub TaskRef : Type 0
TaskRef = Option ℕ

pub record Tcb : Type 0 where
  pub sp : ℕ
  pub base_priority : ℕ
  pub effective_priority : ℕ
  pub state : RawState
  pub used : Bool
  pub stack_base : ℕ
  pub stack_size : ℕ
  pub held : List HeldMutex
  pub held_count : ℕ
  pub last_checkin : ℕ
  pub generation : ℕ
  pub result_buf : List ℕ
  pub result_size : ℕ
  pub result_drop : ℕ
  pub exited : Bool
  pub joiner : TaskRef
  pub stop_requested : Bool

abbrev pub new : Config → Tcb
new cfg = record {
  sp = 0;
  base_priority = 0;
  effective_priority = 0;
  state = RawState.ready;
  used = false;
  stack_base = 0;
  stack_size = 0;
  held = replicate cfg.max_held none;
  held_count = 0;
  last_checkin = 0;
  generation = 0;
  result_buf = replicate 32 0;
  result_size = 0;
  result_drop = 0;
  exited = false;
  joiner = none;
  stop_requested = false;
}

unfoldable pub stack_info : Tcb → Option (ℕ × ℕ)
stack_info t =
    if t.stack_base == 0 || t.stack_size == 0 then none else some (t.stack_base, t.stack_size)

-- Every other byte reads as ready, `reserved` and `suspended` too.
unfoldable pub state_of : RawState → TaskState
state_of RawState.running = TaskState.running
state_of RawState.blocked = TaskState.blocked
state_of _ = TaskState.ready

abbrev pub raw : TaskState → RawState
raw TaskState.ready = RawState.ready
raw TaskState.running = RawState.running
raw TaskState.blocked = RawState.blocked

-- The first null slot takes the mutex.
unfoldable pub fill_slot : ℕ → List HeldMutex → Option (List HeldMutex)
fill_slot m [] = none
fill_slot m (none ∷ slots) = some (some m ∷ slots)
fill_slot m (some k ∷ slots) = elim (fill_slot m slots) [ none ↦ none | some r ↦ some (some k ∷ r) ]

-- `push_held`: whether the mutex was recorded, and the task.
unfoldable pub push_held : Config → ℕ → Tcb → Bool × Tcb
unfolding fill_slot
push_held cfg m t =
    if leb cfg.max_held t.held_count then (false, t) else elim (fill_slot m t.held) [
      | none ↦ (false, t)
      | some slots ↦ (true, record t { held = slots; held_count = (t.held_count + 1) % 2 ^ 8 })
    ]

-- The first slot that holds the mutex is emptied.
unfoldable pub empty_slot : ℕ → List HeldMutex → Option (List HeldMutex)
empty_slot m [] = none
empty_slot m (none ∷ slots) = elim (empty_slot m slots) [ none ↦ none | some r ↦ some (none ∷ r) ]
empty_slot m (some k ∷ slots) =
    let rest = empty_slot m slots in
    if k == m then some (none ∷ slots) else elim rest [ none ↦ none | some r ↦ some (some k ∷ r) ]

unfoldable pub remove_held : ℕ → Tcb → Tcb
unfolding empty_slot
remove_held m t = elim (empty_slot m t.held) [
  | none ↦ t
  | some slots ↦ record t { held = slots; held_count = (t.held_count + 2 ^ 8 - 1) % 2 ^ 8 }
]
