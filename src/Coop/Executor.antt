-- ===== src/Coop/Executor.antt =====
-- `rivet/src/executor.rs`: the executor, and `TaskReg` and the registry of `rivet/src/task.rs`.
use rivet_rtos.Base.{
  ℕ, zero, suc, ◌+◌, ◌-◌, ◌%◌, ◌^◌, Bool, true, false, not, ◌||◌, Option, none, some, List, [], ◌∷◌,
  ◌≡◌, ltb, leb, if◌then◌else◌, Table, update,
}
use rivet_rtos.Config.{Config}
use rivet_rtos.Coop.TaskId
use rivet_rtos.Coop.TaskId.{TaskId}
use rivet_rtos.Coop.Waker.{Waker, mark_ready, next_ready, clear_pend, has_pending}
use rivet_rtos.Coop.TaskCell
use rivet_rtos.Coop.TaskCell.{Code, TaskCell, Polled, is_completed}
pub mod Init
pub mod Live
pub mod Runs

-- `TaskRegistry`, where a registration is known by its place in the `.rivet_tasks` section, and
-- `LIVE_TASKS`.
pub record Registry : Type 0 where
  pub tasks : Table (Table (Option ℕ))
  pub count_per_priority : Table ℕ
  pub total : ℕ
  pub live : ℕ

abbrev pub empty_registry : Registry
empty_registry = record { tasks = λ _ _. none; count_per_priority = λ _. 0; total = 0; live = 0 }

abbrev pub max_priority : Config → ℕ
max_priority cfg = cfg.priorities - 1

unfoldable pub and_then : {A B : Type 0} → (A → Option B) → Option A → Option B
and_then f none = none
and_then f (some a) = f a

module _ (cfg : Config) where
  -- One round of the loop of `init`, for the registration `k` at the priority; `none` is a panic.
  unfoldable pub add_reg : ℕ → ℕ → Registry → Option Registry
  add_reg k prio r =
      let idx = r.count_per_priority prio in
      if ltb (max_priority cfg) prio || leb cfg.max_coop idx
      then none
      else some (record {
        tasks = update r.tasks prio (update (r.tasks prio) idx (some k));
        count_per_priority = update r.count_per_priority prio (idx + 1);
        total = (r.total + 1) % 2 ^ 8;
        live = r.live + 1;
      })

  -- The loop over the section, from registration `k` on; a list entry is a priority.
  unfoldable pub add_regs : ℕ → List ℕ → Registry → Option Registry
  add_regs k [] r = some r
  add_regs k (prio ∷ regs) r = and_then (add_regs (k + 1) regs) (add_reg k prio r)

-- The tasks of a priority with an index below `n` are marked ready, in order.
unfoldable pub mark_indices : ℕ → ℕ → Waker → Waker
mark_indices prio zero w = w
mark_indices prio (suc n) w = mark_ready (TaskId.new prio n) (mark_indices prio n w)

-- The tasks of the priorities below `n`.
unfoldable pub mark_all : ℕ → Table ℕ → Waker → Waker
mark_all zero counts w = w
mark_all (suc n) counts w = mark_indices n (counts n) (mark_all n counts w)

unfoldable pub init : Config → List ℕ → Registry × Waker → Option (Registry × Waker)
init cfg regs (r, w) =
    and_then (λ r'. some (r', mark_all (suc (max_priority cfg)) r'.count_per_priority w))
      (add_regs cfg 0 regs r)

-- What a poll of a future can see and change.
pub record Rest (W : Type 0) : Type 0 where
  pub waker : Waker
  pub current : Option TaskId
  pub world : W

pub record System (F W : Type 0) : Type 0 where
  pub registry : Registry
  pub cells : Table (TaskCell F)
  pub rest : Rest W

-- One round of the inner loop of `run`.
pub data Ran (F W : Type 0) : Type 0 where
  -- no task is ready: the inner loop ends
  drained : System F W → Ran F W
  went : System F W → Ran F W
  panicked : Ran F W
  undefined : Ran F W

unfoldable pub lookup_task : Config → ℕ → ℕ → Registry → Option ℕ
lookup_task cfg priority index r =
    if ltb (max_priority cfg) priority || leb cfg.max_coop index
    then none
    else r.tasks priority index

-- `LIVE_TASKS.fetch_sub(1)`.
unfoldable pub task_done : Registry → Registry
task_done r = record r { live = (r.live + 2 ^ 32 - 1) % 2 ^ 32 }

module _ {W : Type 0} where
  abbrev pub with_current : Option TaskId → Rest W → Rest W
  with_current id r = record r { current = id }

module _ {F W : Type 0} where
  -- What the result of a poll of registration `k` means.
  unfoldable pub polled : ℕ → System F W → Polled × TaskCell F × Rest W → Ran F W
  polled k s (Polled.ready, c, r) = went (record {
    registry = task_done s.registry;
    cells = update s.cells k c;
    rest = with_current none r;
  })
  polled k s (Polled.pending, c, r) =
      went
        (record { registry = s.registry; cells = update s.cells k c; rest = with_current none r })
  polled k s (Polled.panics, c, r) = panicked
  polled k s (Polled.undefined, c, r) = undefined

  module _ (cfg : Config) (codes : ℕ → Code F (Rest W)) where
    unfoldable pub serve : TaskId → System F W → Option ℕ → Ran F W
    serve id s none = went s
    serve id s (some k) =
        if is_completed (s.cells k)
        then went s
        else polled k s (TaskCell.poll (codes k) (s.cells k) (with_current (some id) s.rest))

    unfoldable pub run_next : System F W → Option TaskId → Ran F W
    run_next s none = drained s
    run_next s (some id) =
        serve id s (lookup_task cfg (TaskId.priority id) (TaskId.index id) s.registry)

    unfoldable pub run_step : System F W → Ran F W
    run_step s =
        let (next, w) = next_ready s.rest.waker in
        run_next (record s { rest = record (s.rest) { waker = w } }) next

  -- The ends of a round of the outer loop: `clear_pend`, and whether the hart goes idle.
  unfoldable pub begin_round : System F W → System F W
  begin_round s = record s { rest = record (s.rest) { waker = clear_pend s.rest.waker } }

  unfoldable pub goes_idle : System F W → Bool
  goes_idle s = not (has_pending s.rest.waker)
