-- ===== src/Critical/Progress.antt =====
-- `rivet/src/critical.rs`: what a hart at the compare-exchange loop waits for.
use rivet_rtos.Base.{
  ℕ, ◌≡◌, ◌≢◌, some, ◌⊎◌, inl, inr, true, false, Option-cases, arith, List, [], ap, subst,
}
use rivet_rtos.Critical.{Lock, spinning, nesting_up, Machine, Reach, Step, acquire}
use rivet_rtos.Critical.Owner.{inside, IsOwned, Reach-IsOwned}

-- A hart that spins is in no closure, and either its next compare-exchange succeeds, or another
-- hart is inside.
abbrev pub Waits : ℕ → Machine → List ℕ → Type 0
Waits i m frames =
    ((l : Lock) × Step i m.lock (spinning frames) l (nesting_up 0 frames))
    ⊎ ((j : ℕ) × (j ≢ i) × (inside (m.places j) ≡ true))

-- In every interleaving, a hart that spins at the lock is in no critical section itself, and
-- either it can acquire the lock with its next access, or another hart is inside.
pub spinning-Waits :
    {m : Machine}
    → Reach m
    → (i : ℕ) (frames : List ℕ) → m.places i ≡ spinning frames
    → (frames ≡ []) × Waits i m frames
spinning-Waits {m} r i frames e =
    let o : IsOwned m = Reach-IsOwned r in
    let out : inside (m.places i) ≡ false = ap inside e in
    (
      ground (arith, o.counts i),
      elim (Option-cases m.lock.owner) [
        | inl free ↦ inl (record m.lock { owner = some i }, acquire free)
        | inr (j, held) ↦ inr (
          j,
          λ eq. ground (arith, subst (λ k. inside (m.places k) ≡ true) eq (o.held j held)),
          o.held j held,
        )
      ],
    )
