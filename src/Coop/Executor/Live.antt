-- ===== src/Coop/Executor/Live.antt =====
-- `run` of `rivet/src/executor.rs`: what is kept while futures are polled.
use rivet_rtos.Base.{
  ℕ, zero, suc, ◌+◌, ◌^◌, ◌≤◌, ◌<◌, ◌≡◌, refl, ap, Bool, false, Option, none, some, arith,
  Bool-cases, Option-cases, inl, inr, if◌then◌else◌, Table, update, ◌∙◌, subst, ◌==◌,
}
use native.Mathlib.Decide.{ℕ_discrete}
use rivet_rtos.Config.{Config}
use rivet_rtos.Coop.TaskId
use rivet_rtos.Coop.TaskId.{TaskId}
use rivet_rtos.Coop.Waker.{next_ready}
use rivet_rtos.Coop.TaskCell
use rivet_rtos.Coop.TaskCell.{Code, TaskCell, Polled, is_completed}
use rivet_rtos.Coop.Executor.{
  Rest, System, Ran, drained, went, panicked, undefined, lookup_task, task_done, with_current,
  polled, serve, run_next, run_step,
}

abbrev count_of : Bool → ℕ
count_of b = if b then 0 else 1

module _ {F : Type 0} where
  abbrev unfinished : TaskCell F → ℕ
  unfinished c = count_of c.completed

  -- How many of the first `n` tasks are not completed.
  abbrev pub unfinished_below : ℕ → Table (TaskCell F) → ℕ
  unfinished_below zero cells = 0
  unfinished_below (suc n) cells = unfinished (cells n) + unfinished_below n cells

  unfinished-update_above :
      (n k : ℕ) (c : TaskCell F) (cells : Table (TaskCell F))
      → n ≤ k
      → unfinished_below n (update cells k c) ≡ unfinished_below n cells
  unfinished-update_above zero k c cells h = refl
  unfinished-update_above (suc n) k c cells h = ground (arith, unfinished-update_above n k c cells)

  -- A store into one cell, in the count.
  unfinished-update :
      (n k : ℕ) (c : TaskCell F) (cells : Table (TaskCell F))
      → k < n
      → unfinished_below n (update cells k c) + unfinished (cells k)
        ≡ unfinished_below n cells + unfinished c
  unfinished-update zero k c cells h = elim h [ ]
  unfinished-update (suc n) k c cells h = elim (ℕ_discrete n k) [
    | yes e ↦
        subst
          (λ j.
            unfinished_below (suc n) (update cells j c) + unfinished (cells j)
            ≡ unfinished_below (suc n) cells + unfinished c)
          e (ground (arith, unfinished-update_above n n c cells))
    | no ne ↦ ground (arith, unfinished-update n k c cells)
  ]

  unfinished_below-le : (n : ℕ) (cells : Table (TaskCell F)) → unfinished_below n cells ≤ n
  unfinished_below-le zero cells = omega arith
  unfinished_below-le (suc n) cells = ground (arith, unfinished_below-le n cells)

  is_completed-eq : (c : TaskCell F) → c.completed ≡ is_completed c
  unfolding is_completed
  is_completed-eq c = refl

module _ {F W : Type 0} where
  -- Every registration has a sound cell, and `LIVE_TASKS` counts the tasks that are not completed.
  pub record IsLive (n : ℕ) (s : System F W) : Type 0 where
    pub sound : (k : ℕ) → TaskCell.IsSound (s.cells k)
    pub registered : (p i k : ℕ) → s.registry.tasks p i ≡ some k → k < n
    pub counted : s.registry.live ≡ unfinished_below n s.cells
    pub small : n < 2 ^ 32

  -- No poll meets an empty buffer, and the counts are kept.
  abbrev pub Keeps : ℕ → Ran F W → Type 0
  Keeps n (drained s) = IsLive n s
  Keeps n (went s) = IsLive n s
  Keeps n panicked = Unit {0}
  Keeps n undefined = ⊥

  module _ (n : ℕ) (s : System F W) (v : IsLive n s) (k : ℕ) (lt : k < n)
      (going : (s.cells k).completed ≡ false) where
    cells-IsSound :
        (c : TaskCell F) → TaskCell.IsSound c → (j : ℕ) → TaskCell.IsSound (update s.cells k c j)
    cells-IsSound c sound j = elim (Bool-cases (k == j)) [
      | inl e ↦ rw e sound
      | inr e ↦ rw e (v.sound j)
    ]

    polled-Keeps :
        (r : Polled × TaskCell F × Rest W) → TaskCell.Sound (s.cells k) r → Keeps n (polled k s r)
    unfolding polled task_done
    polled-Keeps (Polled.ready, c, r) f = record {
      sound = cells-IsSound c f.sound;
      registered = v.registered;
      counted =
          let stored = unfinished-update n k c s.cells lt in
          let one = ap count_of going in
          let none_ = ap count_of (f.completes refl) in
          omega (arith, stored, one, none_, v.counted, v.small, unfinished_below-le n s.cells);
      small = v.small;
    }
    polled-Keeps (Polled.pending, c, r) f = record {
      sound = cells-IsSound c f.sound;
      registered = v.registered;
      counted =
          let stored = unfinished-update n k c s.cells lt in
          let same = ap count_of (f.keeps (λ e. cc)) in omega (arith, stored, same, v.counted);
      small = v.small;
    }
    polled-Keeps (Polled.panics, c, r) f = tt
    polled-Keeps (Polled.undefined, c, r) f = f.defined refl

  module _ (cfg : Config) (codes : ℕ → Code F (Rest W)) (n : ℕ) where
    serve-Keeps :
        (s : System F W)
        → IsLive n s
        → (id : TaskId) (found : Option ℕ) → ((k : ℕ) → found ≡ some k → k < n)
        → Keeps n (serve cfg codes id s found)
    unfolding serve
    serve-Keeps s v id none h = v
    serve-Keeps s v id (some k) h = elim (Bool-cases (is_completed (s.cells k))) [
      | inl done ↦ rw done v
      | inr going ↦ rw going (
          polled-Keeps n s v k (h k refl) (is_completed-eq (s.cells k) ∙ going)
            (TaskCell.poll (codes k) (s.cells k) (with_current (some id) s.rest))
            (TaskCell.poll-Sound (codes k) (s.cells k) (with_current (some id) s.rest) (v.sound k)))
    ]

    lookup_task-lt :
        (s : System F W)
        → IsLive n s
        → (p i k : ℕ) → lookup_task cfg p i s.registry ≡ some k
        → k < n
    unfolding lookup_task
    lookup_task-lt s v p i k h = ground (arith, v.registered p i k)

    -- Whatever the futures do, a round of the executor keeps the system live.
    pub run_step-Keeps : (s : System F W) → IsLive n s → Keeps n (run_step cfg codes s)
    unfolding run_step run_next
    run_step-Keeps s v =
        let w = (next_ready s.rest.waker).1 in
        let s' : System F W = record s { rest = record (s.rest) { waker = w } } in
        let v' : IsLive n s' = record {
          sound = v.sound;
          registered = v.registered;
          counted = v.counted;
          small = v.small;
        } in
        elim (Option-cases (next_ready s.rest.waker).0) [
          | inl e ↦ rw (e, run_next) v'
          | inr (id, e) ↦
              rw (e, run_next)
                (serve-Keeps s' v' id
                  (lookup_task cfg (TaskId.priority id) (TaskId.index id) s.registry)
                  (lookup_task-lt s' v' (TaskId.priority id) (TaskId.index id)))
        ]
