-- ===== src/Preempt/Sched/Fairness.antt =====
-- The dispatch stamps of `rivet/src/preempt/sched.rs`, and the round robin within a priority.
use rivet_rtos.Base.{
  ℕ, zero, suc, ◌+◌, ◌-◌, ◌%◌, ◌^◌, ◌≤◌, ◌<◌, ◌≡◌, ◌≢◌, refl, true, not, ◌&&◌, ◌==◌, ltb, leb,
  if◌then◌else◌, arith, Table, update_self,
}
use rivet_rtos.Config.{Config}
use rivet_rtos.Preempt.Sched.{Sched, on_dispatch}
use rivet_rtos.Preempt.Sched.Choice.{runnable, level, IsBest}

-- How many of the first `n` tasks were not dispatched after task `j`.
ahead_of : Table ℕ → ℕ → ℕ → ℕ
ahead_of seqs j zero = 0
ahead_of seqs j (suc n) =
    ahead_of seqs j n + (if not (n == j) && leb (seqs n) (seqs j) then 1 else 0)

pub ahead : Config → Sched → ℕ → ℕ
ahead cfg s j = ahead_of s.dispatch_seq j cfg.max_ptasks

-- No stamp is newer than the counter.
abbrev pub Stamped : Config → Sched → Type 0
Stamped cfg s = (i : ℕ) → i < cfg.max_ptasks → s.dispatch_seq i ≤ s.dispatch_counter

pub on_dispatch-Stamped :
    (cfg : Config) (i : ℕ) (s : Sched)
    → s.dispatch_counter + 1 < 2 ^ 32
    → Stamped cfg s
    → Stamped cfg (on_dispatch cfg i s)
unfolding on_dispatch
on_dispatch-Stamped cfg i s room h k hk = ground (arith, h k)

-- The moments at which task `j` was runnable at the top priority and another task of its priority
-- was dispatched, counted from `s` on. Between dispatches the tasks may change in any way.
pub data Passed (cfg : Config) (j : ℕ) (s : Sched) : ℕ → Sched → Type 0 where
  start : Passed cfg j s 0 s
  changes :
      {n : ℕ} {t : Sched} (u : Sched)
      → Passed cfg j s n t
      → u.dispatch_seq ≡ t.dispatch_seq
      → u.dispatch_counter ≡ t.dispatch_counter
      → Passed cfg j s n u
  dispatches :
      {n : ℕ} {t : Sched} (i : ℕ)
      → Passed cfg j s n t
      → i ≢ j
      → t.dispatch_counter + 1 < 2 ^ 32
      → Passed cfg j s n (on_dispatch cfg i t)
  passes :
      {n : ℕ} {t : Sched} (i : ℕ)
      → Passed cfg j s n t
      → i ≢ j
      → t.dispatch_counter + 1 < 2 ^ 32
      → IsBest cfg t i
      → runnable cfg t j ≡ true
      → level t j ≡ level t i
      → Passed cfg j s (suc n) (on_dispatch cfg i t)

-- Task `i` is dispatched `n` times.
unfoldable pub dispatched : Config → ℕ → ℕ → Sched → Sched
dispatched cfg i zero s = s
dispatched cfg i (suc n) s = on_dispatch cfg i (dispatched cfg i n s)

-- The counter at its largest value wraps at the first of the dispatches.
record Wrapped (i n : ℕ) (s t : Sched) : Type 0 where
  pub counter : t.dispatch_counter ≡ n
  pub stamp : t.dispatch_seq i ≡ n
  pub others : (j : ℕ) → i ≢ j → t.dispatch_seq j ≡ s.dispatch_seq j
  pub tasks : t.tasks ≡ s.tasks

on_dispatch-Wrapped :
    (cfg : Config) (i n : ℕ) (s t : Sched)
    → i < cfg.max_ptasks
    → suc n < 2 ^ 32
    → Wrapped i n s t
    → Wrapped i (suc n) s (on_dispatch cfg i t)
unfolding on_dispatch
on_dispatch-Wrapped cfg i n s t hi small w =
    let p : ltb i cfg.max_ptasks ≡ true = ground (arith, hi) in
    let e : (t.dispatch_counter + 1) % 2 ^ 32 ≡ suc n = omega (arith, w.counter, small) in
    rw (p, e)
      (record {
        counter = refl;
        stamp = update_self t.dispatch_seq i (suc n);
        others = λ j ne. ground (arith, w.others j ne, ne);
        tasks = w.tasks;
      })

dispatched-Wrapped :
    (cfg : Config) (i n : ℕ) (s : Sched)
    → i < cfg.max_ptasks
    → s.dispatch_counter ≡ 2 ^ 32 - 1
    → n < 2 ^ 32
    → Wrapped i n s (dispatched cfg i (suc n) s)
unfolding dispatched on_dispatch
dispatched-Wrapped cfg i zero s hi top small =
    let p : ltb i cfg.max_ptasks ≡ true = ground (arith, hi) in
    let e : (s.dispatch_counter + 1) % 2 ^ 32 ≡ 0 = omega (arith, top) in
    rw (p, e)
      (record {
        counter = refl;
        stamp = update_self s.dispatch_seq i 0;
        others = λ j ne. ground arith;
        tasks = refl;
      })
dispatched-Wrapped cfg i (suc n) s hi top small =
    on_dispatch-Wrapped cfg i n s (dispatched cfg i (suc n) s) hi small
      (dispatched-Wrapped cfg i n s hi top (omega (arith, small)))

-- From a state in which the dispatch counter has its largest 32-bit value, after `n + 1`
-- dispatches of a runnable task, another task of the same priority, whose 32-bit stamp is above
-- `n`, is not a best task: the counter wraps, and the task is passed over for as many dispatches
-- as its stamp says.
pub wrapped_starves :
    (cfg : Config) (s : Sched) (i j : ℕ)
    → runnable cfg s i ≡ true
    → level s i ≡ level s j
    → i ≢ j
    → s.dispatch_counter ≡ 2 ^ 32 - 1
    → s.dispatch_seq j < 2 ^ 32
    → (n : ℕ) → n < s.dispatch_seq j
    → ¬ IsBest cfg (dispatched cfg i (suc n) s) j
wrapped_starves cfg s i j ri same ne top small n lt best =
    let hi : i < cfg.max_ptasks = ground (arith, ri) in
    let w = dispatched-Wrapped cfg i n s hi top (omega (arith, lt, small)) in
    let t = dispatched cfg i (suc n) s in
    let on : runnable cfg t i ≡ true = rw w.tasks ri in
    let level_same : level t i ≡ level t j = rw w.tasks same in
    let le : t.dispatch_seq j ≤ t.dispatch_seq i = best.oldest i on level_same in
    omega (arith, le, w.stamp, w.others j ne, lt)
