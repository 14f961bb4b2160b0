-- ===== src/Examples/Stacks.antt =====
-- The theorems on the critical section, the stacks, the spawning of tasks and the watchdog, at
-- concrete states.
use rivet_rtos.Base.{ℕ, ◌+◌, ◌-◌, ◌≡◌, refl, true, some, List, [], ◌∷◌, ◌++◌, arith, update}
use rivet_rtos.Config.{default, default-IsValid}
use rivet_rtos.Critical.{
  Machine, Reach, booted, boot, move, begin, enter, acquire, spinning, nesting_up,
}
use rivet_rtos.Critical.Exclusion.{Exclusive, Reach-Exclusive}
use rivet_rtos.Critical.Progress.{Waits, spinning-Waits}
use rivet_rtos.Word.Align.{align_down}
use rivet_rtos.Preempt.StackPool.{
  Section, Slice, Pool, guard_register, scratch_open, scratch_close, fill, alloc_stack,
  release_stack, bump, pop,
}
use rivet_rtos.Preempt.StackPool.Regions.{IsSound}
use rivet_rtos.Preempt.StackPool.Reach.{alloc, Reach-IsSound}
use rivet_rtos.Preempt.StackPool.Reach as Runs
use rivet_rtos.Preempt.StackPool.Reuse.{alloc_stack-release_stack}
use rivet_rtos.Preempt.Sched.{Sched}
use rivet_rtos.Preempt.Registry.{register_full, free_from}
use rivet_rtos.Preempt.Spawn.{Port, Entry, Kernel, err, registry_full, init_stack, spawn_ptask_impl}
use rivet_rtos.Preempt.Spawn.Errors.{spawn_ptask_impl_leaks}
use rivet_rtos.Watchdog.{is_overdue}
use rivet_rtos.Watchdog.Overdue.{respawned_overdue}
use rivet_rtos.Examples.{boot as start}
use rivet_rtos.Examples.Tasks.{full}
use rivet_rtos.Preempt.Tcb
use rivet_rtos.Preempt.Sched.Invariant.{IsConsistent}
use rivet_rtos.Word.Laws.{bit-zero}

-- Hart 0 is at the compare-exchange.
abbrev arrived : Machine
arrived = record { lock = booted.lock; places = update booted.places 0 (spinning []) }

arrived-Reach : Reach arrived
unfolding begin
arrived-Reach = move 0 boot (enter (omega arith))

-- It has the lock.
abbrev owned : Machine
owned = record {
  lock = record (booted.lock) { owner = some 0 };
  places = update arrived.places 0 (nesting_up 0 []);
}

owned-Reach : Reach owned
owned-Reach = move 0 arrived-Reach (acquire refl)

-- Hart 1 arrives too.
abbrev contended : Machine
contended = record { lock = owned.lock; places = update owned.places 1 (spinning []) }

contended-Reach : Reach contended
unfolding begin
contended-Reach = move 1 owned-Reach (enter (omega arith))

Reach-Exclusive_example : Exclusive contended
Reach-Exclusive_example = Reach-Exclusive contended-Reach

spinning-Waits_example : ◌≡◌ {A = List ℕ} [] [] × Waits 1 contended []
spinning-Waits_example = spinning-Waits contended-Reach 1 [] refl

-- A section of 4 KiB with guard bands of 64 bytes, and its pool after one stack of 512 bytes.
abbrev section : Section
section = record { base = 4096; len = 4096; guard_size = 64 }

abbrev fresh : Pool
fresh = Runs.booted (λ _. 0)

abbrev stack : Slice
stack = record { addr = 4608; len = 512 }

abbrev taken : Pool
taken = record fresh { next = 1024; alloc_count = 1; calls = guard_register 4544 0 ∷ [] }

fresh-alloc : alloc_stack section 512 fresh ≡ (some stack, taken)
unfolding alloc_stack bump pop align_down
fresh-alloc = refl

taken-Reach : Runs.Reach section ((512, 512) ∷ []) taken
taken-Reach =
    alloc 9 (record { word = omega arith; guarded = omega arith; room = omega arith })
      (Runs.boot (λ _. 0)) fresh-alloc

Reach-IsSound_example : IsSound section ((512, 512) ∷ []) taken
Reach-IsSound_example = Reach-IsSound section (omega arith) taken-Reach

alloc_stack-release_stack_example : alloc_stack section 512 (release_stack section stack taken) ≡ (
  some stack,
  record taken {
    memory = fill stack 0xaa taken.memory;
    calls = taken.calls ++ (scratch_open 4608 512 ∷ scratch_close ∷ []);
  },
)
alloc_stack-release_stack_example =
    alloc_stack-release_stack section stack taken (omega arith, omega arith, omega arith)
      (omega arith)

-- A port whose first frame takes 64 bytes at the top of the stack.
abbrev port : Port
port = record {
  min_task_stack = 256;
  init_task_stack = λ s entry arg memory. (s.addr + s.len - 64, memory);
}

abbrev entry : Entry
entry = record { entry = 100; arg = 200; size_of = 4; drop_fn = 0 }

abbrev kernel_of : Sched → Kernel
kernel_of s = record { sched = s; pool = fresh }

spawn_ptask_impl_leaks_example :
    spawn_ptask_impl true default port 0 section 512 4 entry (kernel_of full)
    ≡ (err registry_full, record { sched = full; pool = (init_stack port stack entry taken).1 })
unfolding free_from
spawn_ptask_impl_leaks_example =
    spawn_ptask_impl_leaks default port 0 section 512 4 entry (kernel_of full) fresh-alloc
      (omega arith) true refl

-- Slot 0 was used by a task that checked in at 5, long ago.
abbrev stale : Sched
stale = record start { tasks = λ _. record (Tcb.new default) { last_checkin = 5 } }

stale-IsConsistent : IsConsistent default stale
stale-IsConsistent = record {
  queued = record {
    bitmap_word = omega arith;
    words = λ p h. omega arith;
    summary = λ p h. bit-zero p;
    member = λ p i h. ground (arith, bit-zero i);
  };
  levels = λ i h. omega arith;
}

abbrev respawned : Sched
respawned = (register_full default 0 4096 3 1024 512 stale).1

respawned-eq : register_full default 0 4096 3 1024 512 stale ≡ (some 0, respawned)
unfolding register_full free_from
respawned-eq = refl

respawned_overdue_example :
    ((respawned.tasks 0).used ≡ true)
    × (is_overdue 5_000_000 1_000_000 (respawned.tasks 0).last_checkin ≡ true)
unfolding is_overdue
respawned_overdue_example =
    respawned_overdue default 0 4096 3 1024 512 5_000_000 1_000_000 default-IsValid
      stale-IsConsistent (omega arith) respawned-eq refl
