-- ===== src/Irq/Handlers.antt =====
-- `rivet/src/irq.rs`: what registration means for a dispatch.
use rivet_rtos.Base.{
  ℕ, ◌<◌, ◌≤◌, ◌≡◌, ◌≢◌, refl, Bool, false, [], ◌∷◌, ◌==◌, ltb, arith, Bool-cases, inl, inr,
}
use rivet_rtos.Config.{Config}
use rivet_rtos.Preempt.Sched.Invariant.{==_refl}
use rivet_rtos.Irq.{
  IrqTable, ok, out_of_range, handler, register, mark_untraced, register_untraced, unregister,
  dispatch,
}

module _ (cfg : Config) (irq_num h : ℕ) (t : IrqTable) where
  -- What the three calls do: a number that is out of range is refused and changes nothing.
  pub record Registers (traced : Bool) : Type 0 where
    pub accepted : irq_num < cfg.max_irqs → (register cfg irq_num h t).0 ≡ ok
    pub refused : cfg.max_irqs ≤ irq_num → register cfg irq_num h t ≡ (out_of_range, t)
    pub called :
        irq_num < cfg.max_irqs
        → dispatch cfg false irq_num (register cfg irq_num h t).1 ≡ handler h ∷ []
    pub silent :
        irq_num < cfg.max_irqs
        → dispatch cfg traced irq_num (register_untraced cfg irq_num h t).1 ≡ handler h ∷ []
    pub gone : dispatch cfg traced irq_num (unregister cfg irq_num t) ≡ []
    pub others :
        (j : ℕ)
        → j ≢ irq_num
        → (dispatch cfg traced j (register cfg irq_num h t).1 ≡ dispatch cfg traced j t)
          × (dispatch cfg traced j (unregister cfg irq_num t) ≡ dispatch cfg traced j t)

  out : cfg.max_irqs ≤ irq_num → ltb irq_num cfg.max_irqs ≡ false
  out le = ground arith

  register-Registers : h ≢ 0 → (traced : Bool) → Registers traced
  unfolding register mark_untraced register_untraced unregister dispatch
  register-Registers ne traced =
      let live : (h == 0) ≡ false = ground (arith, ne) in
      let self = ==_refl irq_num in
      elim (Bool-cases (ltb irq_num cfg.max_irqs)) [
        | inl inside ↦ record {
          accepted = λ lt. rw inside refl;
          refused = λ le. ground arith;
          called = λ lt. rw (inside, self, live) refl;
          silent = λ lt. rw (inside, self, live) (ground arith);
          gone = rw (inside, self) refl;
          others = λ j away. (ground arith, ground arith);
        }
        | inr outside ↦ record {
          accepted = λ lt. ground arith;
          refused = λ le. rw outside refl;
          called = λ lt. ground arith;
          silent = λ lt. ground arith;
          gone = rw outside refl;
          others = λ j away. rw outside (refl, refl);
        }
      ]
