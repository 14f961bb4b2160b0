-- ===== src/Mutex/Waiters.antt =====
-- `wake_all_waiters` of `rivet/src/preempt/mutex.rs`.
use rivet_rtos.Base.{
  ℕ, zero, suc, ◌<◌, ◌≡◌, refl, ◌∙◌, subst, true, none, some, List, [], ◌∷◌, arith, ◌⊎◌, inl, inr,
  get_elem?,
}
use rivet_rtos.Config.{Config}
use rivet_rtos.Preempt.Tcb.{TaskRef, RawState}
use rivet_rtos.Preempt.Sched.{get}
use rivet_rtos.Preempt.Sched.Frame.{unblock-priority, unblock-ready, unblock-used, get-used}
use rivet_rtos.Timer.{Kernel}
use rivet_rtos.Mutex.{wake_waiters}

-- The slot at some place of a waiter list is this task's.
abbrev pub Listed : List TaskRef → ℕ → Type 0
Listed ws id = (i : ℕ) × (get_elem? ws i ≡ some (some id))

module _ (cfg : Config) (hart : ℕ) where
  pub wake_waiters-priority :
      (ws : List TaskRef) (k : Kernel) (i : ℕ)
      → ((wake_waiters cfg hart ws k).sched.tasks i).effective_priority
        ≡ (k.sched.tasks i).effective_priority
  unfolding wake_waiters
  wake_waiters-priority [] k i = refl
  wake_waiters-priority (none ∷ ws) k i = wake_waiters-priority ws k i
  wake_waiters-priority (some id ∷ ws) k i =
      wake_waiters-priority ws _ i ∙ unblock-priority cfg hart id k.sched i

  -- Every task of the list that is in use is ready afterwards, and a ready task stays ready.
  pub wake_waiters-ready :
      (ws : List TaskRef) (k : Kernel) (id : ℕ)
      → id < cfg.max_ptasks
      → (k.sched.tasks id).used ≡ true
      → Listed ws id ⊎ ((k.sched.tasks id).state ≡ RawState.ready)
      → ((wake_waiters cfg hart ws k).sched.tasks id).state ≡ RawState.ready
  unfolding wake_waiters
  wake_waiters-ready [] k id h live (inl (i, e)) = absurd (ground (arith, e))
  wake_waiters-ready [] k id h live (inr r) = r
  wake_waiters-ready (none ∷ ws) k id h live (inl (zero, e)) = absurd (ground (arith, e))
  wake_waiters-ready (none ∷ ws) k id h live (inl (suc i, e)) =
      wake_waiters-ready ws k id h live (inl (i, e))
  wake_waiters-ready (none ∷ ws) k id h live (inr r) = wake_waiters-ready ws k id h live (inr r)
  wake_waiters-ready (some j ∷ ws) k id h live (inl (zero, e)) =
      wake_waiters-ready ws _ id h (unblock-used cfg hart j k.sched id ∙ live) (
        inr (
          unblock-ready cfg hart j k.sched id (
            inl (
              ground (arith, e),
              (
                k.sched.tasks j,
                subst (λ q. get cfg q k.sched ≡ some (k.sched.tasks q)) {x = id} {y = j}
                    (ground (arith, e)) (get-used cfg id k.sched h live),
              ),
            ))))
  wake_waiters-ready (some j ∷ ws) k id h live (inl (suc i, e)) =
      wake_waiters-ready ws _ id h (unblock-used cfg hart j k.sched id ∙ live) (inl (i, e))
  wake_waiters-ready (some j ∷ ws) k id h live (inr r) =
      wake_waiters-ready ws _ id h (unblock-used cfg hart j k.sched id ∙ live)
        (inr (unblock-ready cfg hart j k.sched id (inr r)))
