-- ===== src/Mutex/Inherit.antt =====
-- The priority that the drop of a guard computes, of `rivet/src/preempt/mutex.rs`.
use rivet_rtos.Base.{
  ℕ, zero, suc, ◌≤◌, ◌<◌, ◌≡◌, refl, subst, none, some, List, [], ◌∷◌, ltb, arith, Bool-cases, ◌⊎◌,
  inl, inr, get_elem?,
}
use rivet_rtos.Config.{Config}
use rivet_rtos.Preempt.Tcb.{HeldMutex}
use rivet_rtos.Mutex.{System, highest_waiter_priority, inherited}

-- The value is the largest of `base` and the highest waiters of the mutexes in the slots.
pub record IsInherited (cfg : Config) (w : System) (slots : List HeldMutex) (base eff : ℕ)
    : Type 0 where
  pub above_base : base ≤ eff
  pub above_waiters :
      (i k : ℕ) → get_elem? slots i ≡ some (some k) → highest_waiter_priority cfg k w ≤ eff
  pub attained :
      (eff ≡ base)
      ⊎ ((i : ℕ) × (k : ℕ) × (get_elem? slots i ≡ some (some k))
          × (eff ≡ highest_waiter_priority cfg k w))

module _ (cfg : Config) (w : System) (slots : List HeldMutex) where
  Below : List HeldMutex → ℕ → Type 0
  Below held eff =
      (i k : ℕ) → get_elem? held i ≡ some (some k) → highest_waiter_priority cfg k w ≤ eff

  Below-empty : (eff : ℕ) → Below slots eff → Below (none ∷ slots) eff
  unfolding Below
  Below-empty eff b zero k e = absurd (ground (arith, e))
  Below-empty eff b (suc i) k e = b i k e

  Below-held :
      (eff m : ℕ)
      → highest_waiter_priority cfg m w ≤ eff
      → Below slots eff
      → Below (some m ∷ slots) eff
  unfolding Below
  Below-held eff m h b zero k e =
      subst (λ q. highest_waiter_priority cfg q w ≤ eff) (ground (arith, e)) h
  Below-held eff m h b (suc i) k e = b i k e

  module _ {base eff : ℕ} where
    skip_empty : IsInherited cfg w slots base eff → IsInherited cfg w (none ∷ slots) base eff
    unfolding Below
    skip_empty r = record {
      above_base = r.above_base;
      above_waiters = Below-empty eff r.above_waiters;
      attained = elim (r.attained) [ inl e ↦ inl e | inr (i, k, e, f) ↦ inr (suc i, k, e, f) ];
    }

    -- A mutex whose waiters are not above the value so far.
    keep_below :
        (m : ℕ)
        → highest_waiter_priority cfg m w ≤ base
        → IsInherited cfg w slots base eff
        → IsInherited cfg w (some m ∷ slots) base eff
    unfolding Below
    keep_below m h r = record {
      above_base = r.above_base;
      above_waiters = Below-held eff m (omega (arith, h, r.above_base)) r.above_waiters;
      attained = elim (r.attained) [ inl e ↦ inl e | inr (i, k, e, f) ↦ inr (suc i, k, e, f) ];
    }

    raise_above :
        (m : ℕ)
        → base < highest_waiter_priority cfg m w
        → IsInherited cfg w slots (highest_waiter_priority cfg m w) eff
        → IsInherited cfg w (some m ∷ slots) base eff
    unfolding Below
    raise_above m h r = record {
      above_base = omega (arith, h, r.above_base);
      above_waiters = Below-held eff m r.above_base r.above_waiters;
      attained = elim (r.attained) [
        | inl e ↦ inr (zero, m, refl, e)
        | inr (i, k, e, f) ↦ inr (suc i, k, e, f)
      ];
    }

pub inherited-IsInherited :
    (cfg : Config) (w : System) (slots : List HeldMutex) (base : ℕ)
    → IsInherited cfg w slots base (inherited cfg w slots base)
unfolding inherited
inherited-IsInherited cfg w [] base = record {
  above_base = omega arith;
  above_waiters = λ i k e. absurd (ground (arith, e));
  attained = inl refl;
}
inherited-IsInherited cfg w (none ∷ slots) base =
    skip_empty cfg w slots (inherited-IsInherited cfg w slots base)
inherited-IsInherited cfg w (some m ∷ slots) base =
    elim (Bool-cases (ltb base (highest_waiter_priority cfg m w))) [
      | inl e ↦
          rw (inherited, e)
            (raise_above cfg w slots m (ground (arith, e))
              (inherited-IsInherited cfg w slots (highest_waiter_priority cfg m w)))
      | inr e ↦
          rw (inherited, e)
            (keep_below cfg w slots m (ground (arith, e)) (inherited-IsInherited cfg w slots base))
    ]
