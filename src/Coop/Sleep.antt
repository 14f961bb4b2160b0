-- ===== src/Coop/Sleep.antt =====
-- `rivet/src/time.rs`: durations and the sleep of a cooperative task.
use rivet_rtos.Base.{ℕ, ◌+◌, ◌*◌, ◌/◌, ◌%◌, ◌^◌, ◌≤◌, Option, none, some, ◌==◌, leb, if◌then◌else◌}
use rivet_rtos.Coop.TaskId.{TaskId}
use rivet_rtos.Sync.Semaphore.{Poll, ready, pending, panics}
use rivet_rtos.Timer.{TimerHandle, Timers, register_deadline, cancel_deadline}
pub mod OnTime

pub record Duration : Type 0 where
  pub micros : ℕ

unfoldable pub from_micros : ℕ → Duration
from_micros micros = record { micros = micros }

-- `ms * 1000` on a `u64`.
unfoldable pub from_millis : ℕ → Duration
from_millis ms = record { micros = ms * 1000 % 2 ^ 64 }

unfoldable pub as_micros : Duration → ℕ
as_micros d = d.micros

unfoldable pub as_millis : Duration → ℕ
as_millis d = d.micros / 1000

-- The deadline, 0 before the first poll, and the slot of the timer that is registered.
pub record Sleep : Type 0 where
  pub deadline : ℕ
  pub slot : Option TimerHandle

abbrev pub new : Sleep
new = record { deadline = 0; slot = none }

unfoldable pub drop_sleep : Sleep → Timers → Timers
drop_sleep s t = elim s.slot [ none ↦ t | some handle ↦ cancel_deadline handle t ]

-- `now.wrapping_add(MICROS).max(1)`.
unfoldable pub wake_time : ℕ → ℕ → ℕ
wake_time micros now = let d = (now + micros) % 2 ^ 64 in if d == 0 then 1 else d

-- The end of the first poll, with what `register_deadline` returned.
unfoldable pub registered : ℕ → ℕ → Option TimerHandle × Timers → Poll × Sleep × Timers
registered now deadline (none, t) = (panics, record { deadline = deadline; slot = none }, t)
registered now deadline (some handle, t) = (
  if leb deadline now then ready else pending,
  record { deadline = deadline; slot = some handle },
  t,
)

unfoldable pub first_poll : ℕ → ℕ → Option TaskId → Timers → Poll × Sleep × Timers
first_poll micros now none t = (panics, record { deadline = wake_time micros now; slot = none }, t)
first_poll micros now (some id) t =
    registered now (wake_time micros now) (register_deadline (wake_time micros now) id t)

-- One poll of `Sleep<MICROS>`, in the given task.
unfoldable pub poll : ℕ → ℕ → Option TaskId → Sleep → Timers → Poll × Sleep × Timers
poll micros now current s t =
    if s.deadline == 0
    then first_poll micros now current t
    else (if leb s.deadline now then (ready, record s { slot = none }, t) else (pending, s, t))
