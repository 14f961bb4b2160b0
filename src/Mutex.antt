-- ===== src/Mutex.antt =====
-- `rivet/src/preempt/mutex.rs`: the mutex with priority inheritance.
use rivet_rtos.Base.{
  ℕ, zero, suc, ◌+◌, ◌%◌, ◌^◌, Bool, true, false, Option, none, some, List, [], ◌∷◌, ◌==◌, ltb, leb,
  if◌then◌else◌, Table, update, replicate,
}
use rivet_rtos.Config.{Config}
use rivet_rtos.Preempt.Tcb.{Tcb, TaskRef, HeldMutex, push_held, remove_held}
use rivet_rtos.Preempt.Sched.{
  Sched, Effect, reschedule, get, set_task, emit, set_effective_priority, unblock, block_current,
}
use rivet_rtos.Timer.{Kernel, register_ptask_deadline, cancel_ptask_deadline}
pub mod Waiters
pub mod Inherit
pub mod Lock
pub mod Unlock

pub data LockError : Type 0 where
  recursive timeout too_many_held_mutexes not_in_task poisoned : LockError

-- The protected value is not looked at by the protocol, and is left out.
pub record PriorityMutex : Type 0 where
  pub locked : Bool
  pub owner : TaskRef
  pub waiters : List TaskRef
  pub is_poisoned : Bool

abbrev pub new : Config → PriorityMutex
new cfg = record {
  locked = false;
  owner = none;
  waiters = replicate cfg.max_ptasks none;
  is_poisoned = false;
}

-- The kernel and every mutex, by its address.
pub record System : Type 0 where
  pub kernel : Kernel
  pub mutexes : Table PriorityMutex

abbrev pub with_sched : (Sched → Sched) → Kernel → Kernel
with_sched f k = record k { sched = f k.sched }

abbrev pub set_mutex : ℕ → PriorityMutex → System → System
set_mutex m v w = record w { mutexes = update w.mutexes m v }

-- The highest base priority in a list of waiters, 0 if none is in use.
unfoldable pub highest_waiter : Config → Sched → List TaskRef → ℕ → ℕ
highest_waiter cfg s [] max = max
highest_waiter cfg s (none ∷ ws) max = highest_waiter cfg s ws max
highest_waiter cfg s (some id ∷ ws) max = highest_waiter cfg s ws (elim (get cfg id s) [
  | none ↦ max
  | some t ↦ if ltb max t.base_priority then t.base_priority else max
])

unfoldable pub highest_waiter_priority : Config → ℕ → System → ℕ
highest_waiter_priority cfg m w = highest_waiter cfg w.kernel.sched (w.mutexes m).waiters 0

-- The first empty slot takes the waiter; a full list stays as it is.
unfoldable pub add_to : ℕ → List TaskRef → List TaskRef
add_to id [] = []
add_to id (none ∷ ws) = some id ∷ ws
add_to id (some j ∷ ws) = some j ∷ add_to id ws

unfoldable pub add_waiter : ℕ → ℕ → System → System
add_waiter m id w =
    set_mutex m (record (w.mutexes m) { waiters = add_to id (w.mutexes m).waiters }) w

unfoldable pub remove_from : ℕ → List TaskRef → List TaskRef
remove_from id [] = []
remove_from id (none ∷ ws) = none ∷ remove_from id ws
remove_from id (some j ∷ ws) = (if j == id then none else some j) ∷ remove_from id ws

unfoldable pub remove_waiter : ℕ → ℕ → System → System
remove_waiter m id w =
    set_mutex m (record (w.mutexes m) { waiters = remove_from id (w.mutexes m).waiters }) w

-- The store of `owner`, and of the mutex in the held list of the task. `false` rolls back.
unfoldable pub try_acquire_guarded : Config → ℕ → ℕ → System → Bool × System
try_acquire_guarded cfg m me w =
    if (w.mutexes m).is_poisoned
    then (false, w)
    else (if (w.mutexes m).locked then (false, w) else elim (get cfg me w.kernel.sched) [
      | none ↦ (false, set_mutex m (record (w.mutexes m) { locked = false; owner = none }) w)
      | some t ↦
          let pushed = push_held cfg m t in
          if pushed.0
          then (
            true,
            record {
              kernel = with_sched (set_task me pushed.1) w.kernel;
              mutexes =
                  update w.mutexes m (record (w.mutexes m) { locked = true; owner = some me });
            },
          )
          else (false, set_mutex m (record (w.mutexes m) { locked = false; owner = none }) w)
    ])

-- The holder's effective priority is raised to the base priority of `me`.
unfoldable pub boost : Config → ℕ → TaskRef → Sched → Sched
boost cfg me none s = s
boost cfg me (some owner) s = elim (get cfg me s) [
  | none ↦ s
  | some mine ↦ elim (get cfg owner s) [
    | none ↦ s
    | some held_by ↦
        if ltb held_by.effective_priority mine.base_priority
        then set_effective_priority cfg owner mine.base_priority s
        else s
  ]
]

unfoldable pub boost_holder : Config → ℕ → ℕ → System → System
boost_holder cfg m me w = record w {
  kernel = with_sched (boost cfg me (w.mutexes m).owner) w.kernel;
}

-- How a round of `lock_timeout` ends.
pub data Round : Type 0 where
  acquired : Round
  failed : LockError → Round
  -- Registered as a waiter and blocked; the loop goes on when the task runs again.
  waits : Round

abbrev pub has_passed : ℕ → Option ℕ → Bool
has_passed now_us none = false
has_passed now_us (some d) = leb d now_us

abbrev is_me : ℕ → TaskRef → Bool
is_me me none = false
is_me me (some id) = id == me

-- The part of a round before the critical section. `none` goes on to the slow path.
unfoldable pub lock_fast : Config → ℕ → ℕ → ℕ → Option ℕ → System → Option Round × System
lock_fast cfg m me now_us deadline w =
    if (w.mutexes m).is_poisoned
    then (some (failed poisoned), w)
    else (let tried = try_acquire_guarded cfg m me w in
        if tried.0
        then (some acquired, tried.1)
        else (if is_me me (tried.1.mutexes m).owner
            then (some (failed recursive), tried.1)
            else (if has_passed now_us deadline
                then (let gone = remove_waiter m me tried.1 in
                    (
                      some (failed timeout),
                      record gone {
                        kernel = record (gone.kernel) {
                          timers = cancel_ptask_deadline cfg me gone.kernel.timers;
                        };
                      },
                    ))
                else (none, tried.1))))

-- The registration of the deadline, if there is one. Its error is dropped.
unfoldable pub arm : Config → ℕ → Option ℕ → Kernel → Kernel
arm cfg me none k = k
arm cfg me (some d) k = elim (register_ptask_deadline cfg d me k.timers) [
  | none ↦ k
  | some t ↦ record k { timers = t }
]

-- The critical section: the test is repeated, and only then the task registers and blocks.
unfoldable pub lock_slow : Config → ℕ → ℕ → ℕ → Option ℕ → System → Round × System
lock_slow cfg hart m me deadline w =
    let tried = try_acquire_guarded cfg m me w in
    if tried.0
    then (acquired, tried.1)
    else (let listed = add_waiter m me (boost_holder cfg m me tried.1) in
        (
          waits,
          record listed {
            kernel =
                with_sched (λ s. emit reschedule (block_current cfg hart s))
                  (arm cfg me deadline listed.kernel);
          },
        ))

-- `lock_timeout` up to the point where it returns, or gives up the processor. Other tasks may run
-- between the two parts; what is proved of `lock_slow` holds in any state that they leave.
unfoldable pub lock_round : Config → ℕ → ℕ → ℕ → Option ℕ → System → Round × System
lock_round cfg hart m now_us deadline w = elim (w.kernel.sched.current hart) [
  | none ↦ (failed not_in_task, w)
  | some me ↦
      let fast = lock_fast cfg m me now_us deadline w in
      elim fast.0 [ some r ↦ (r, fast.1) | none ↦ lock_slow cfg hart m me deadline fast.1 ]
]

-- `deadline = now_us + timeout`, in 64 bits.
unfoldable pub lock_deadline : ℕ → Option ℕ → Option ℕ
lock_deadline now_us none = none
lock_deadline now_us (some timeout_us) = some ((now_us + timeout_us) % 2 ^ 64)

unfoldable pub try_lock : Config → ℕ → ℕ → System → Bool × System
try_lock cfg hart m w = elim (w.kernel.sched.current hart) [
  | none ↦ (false, w)
  | some me ↦ try_acquire_guarded cfg m me w
]

-- Every waiter of the list is unblocked, and its deadline cancelled.
unfoldable pub wake_waiters : Config → ℕ → List TaskRef → Kernel → Kernel
wake_waiters cfg hart [] k = k
wake_waiters cfg hart (none ∷ ws) k = wake_waiters cfg hart ws k
wake_waiters cfg hart (some id ∷ ws) k = wake_waiters cfg hart ws (record k {
  sched = unblock cfg hart id k.sched;
  timers = cancel_ptask_deadline cfg id k.timers;
})

unfoldable pub clear_waiters : List TaskRef → List TaskRef
clear_waiters [] = []
clear_waiters (w ∷ ws) = none ∷ clear_waiters ws

unfoldable pub wake_all_waiters : Config → ℕ → ℕ → System → System
wake_all_waiters cfg hart m w = record {
  kernel = wake_waiters cfg hart (w.mutexes m).waiters w.kernel;
  mutexes =
      update w.mutexes m (record (w.mutexes m) { waiters = clear_waiters (w.mutexes m).waiters });
}

-- The largest of `eff` and the highest waiters of the mutexes in a held list.
unfoldable pub inherited : Config → System → List HeldMutex → ℕ → ℕ
inherited cfg w [] eff = eff
inherited cfg w (none ∷ slots) eff = inherited cfg w slots eff
inherited cfg w (some m ∷ slots) eff =
    let hwp = highest_waiter_priority cfg m w in
    inherited cfg w slots (if ltb eff hwp then hwp else eff)

-- The holder gives the mutex back and keeps the priority that its other mutexes give it.
unfoldable pub disinherit : Config → ℕ → ℕ → System → System
disinherit cfg m owner w = elim (get cfg owner w.kernel.sched) [
  | none ↦ w
  | some t ↦
      let left = remove_held m t in
      let eff = inherited cfg w left.held left.base_priority in
      record w {
        kernel =
            with_sched (λ s. set_effective_priority cfg owner eff (set_task owner left s)) w.kernel;
      }
]

unfoldable pub give_back : Config → ℕ → TaskRef → System → System
give_back cfg m none w = w
give_back cfg m (some id) w = disinherit cfg m id w

-- `drop` of the guard.
unfoldable pub unlock : Config → ℕ → ℕ → System → System
unlock cfg hart m w =
    let owner = (w.mutexes m).owner in
    let freed = set_mutex m (record (w.mutexes m) { owner = none }) w in
    let given = give_back cfg m owner freed in
    let opened = set_mutex m (record (given.mutexes m) { locked = false }) given in
    let woken = wake_all_waiters cfg hart m opened in
    record woken { kernel = with_sched (emit reschedule) woken.kernel }

unfoldable pub poison_mutex : Config → ℕ → ℕ → System → System
poison_mutex cfg hart m w =
    wake_all_waiters cfg hart m (set_mutex m (record (w.mutexes m) { is_poisoned = true }) w)
