-- ===== src/Coop/Executor/Runs.antt =====
-- `rivet/src/executor.rs`: the runs of the executor, from `init` on, with interrupts in between.
use rivet_rtos.Base.{
  ℕ, zero, suc, ◌^◌, ◌<◌, ◌≡◌, ◌≢◌, refl, none, some, List, length, arith, Table, subst, false,
}
use rivet_rtos.Config
use rivet_rtos.Config.{Config}
use rivet_rtos.Coop.Waker.{Waker}
use rivet_rtos.Coop.Waker.Laws.{Holds}
use rivet_rtos.Coop.TaskCell
use rivet_rtos.Coop.TaskCell.{Code, TaskCell}
use rivet_rtos.Coop.Executor.{
  Registry, empty_registry, Rest, System, drained, went, undefined, init, run_step,
}
use rivet_rtos.Coop.Executor.Init.{Started, init-Started}
use rivet_rtos.Coop.Executor.Live.{IsLive, Keeps, run_step-Keeps, unfinished_below}

fresh_count :
    (F : Type 0) (n : ℕ) (sizes : Table ℕ)
    → unfinished_below n (λ k. TaskCell.new {F = F} (sizes k)) ≡ n
fresh_count F zero sizes = refl
fresh_count F (suc n) sizes = omega (arith, fresh_count F n sizes)

module _ {F W : Type 0} where
  -- The cells are fresh when `init` runs.
  abbrev pub started : Table ℕ → Registry → Waker → W → System F W
  started sizes r w world = record {
    registry = r;
    cells = λ k. TaskCell.new (sizes k);
    rest = record { waker = w; current = none; world = world };
  }

  pub data Reach (cfg : Config) (codes : ℕ → Code F (Rest W)) (regs : List ℕ)
      : System F W → Type 0 where
    boot :
        (w : Waker) {w' : Waker} {r : Registry} (sizes : Table ℕ) (world : W)
        → Holds w (λ p i. false)
        → init cfg regs (empty_registry, w) ≡ some (r, w')
        → Reach cfg codes regs (started sizes r w' world)
    round :
        {s s' : System F W}
        → Reach cfg codes regs s
        → run_step cfg codes s ≡ went s'
        → Reach cfg codes regs s'
    drain :
        {s s' : System F W}
        → Reach cfg codes regs s
        → run_step cfg codes s ≡ drained s'
        → Reach cfg codes regs s'
    -- what interrupts and the ends of a round change
    interrupt :
        {s : System F W} (w : Waker) (world : W)
        → Reach cfg codes regs s
        → Reach cfg codes regs (record s { rest = record (s.rest) { waker = w; world = world } })

  module _ (cfg : Config) (valid : Config.IsValid cfg) (codes : ℕ → Code F (Rest W)) (regs : List ℕ)
      (few : length regs < 2 ^ 32) where
    Started-IsLive :
        {r : Registry} {w : Waker} (sizes : Table ℕ) (world : W)
        → Started cfg regs r w
        → IsLive (length regs) (started sizes r w world)
    Started-IsLive sizes world st = record {
      sound = λ k. record { fresh = λ e. refl; filled = λ e f. cc };
      registered = λ p i k e. (st.filled.entries p i k e).0;
      counted = omega (arith, st.filled.live, fresh_count F (length regs) sizes);
      small = few;
    }

    Reach-IsLive : {s : System F W} → Reach cfg codes regs s → IsLive (length regs) s
    Reach-IsLive (boot w sizes world idle e) =
        Started-IsLive sizes world (init-Started cfg valid regs w idle e)
    Reach-IsLive (round {s} r e) =
        subst (Keeps (length regs)) e (run_step-Keeps cfg codes (length regs) s (Reach-IsLive r))
    Reach-IsLive (drain {s} r e) =
        subst (Keeps (length regs)) e (run_step-Keeps cfg codes (length regs) s (Reach-IsLive r))
    Reach-IsLive (interrupt w world r) =
        let v = Reach-IsLive r in
        record { sound = v.sound; registered = v.registered; counted = v.counted; small = v.small }

    -- From `init` on with fewer than 2^32 tasks and a valid configuration, whatever the futures
    -- and the interrupts do, the executor never polls a future that is not there, and `LIVE_TASKS`
    -- is the number of tasks that are not completed.
    pub Reach-polls_live :
        {s : System F W}
        → Reach cfg codes regs s
        → (run_step cfg codes s ≢ undefined)
          × (s.registry.live ≡ unfinished_below (length regs) s.cells)
    Reach-polls_live {s} r =
        let v = Reach-IsLive r in
        (λ e. subst (Keeps (length regs)) e (run_step-Keeps cfg codes (length regs) s v), v.counted)
