-- ===== src/Critical/Exclusion.antt =====
-- `rivet/src/critical.rs`: the harts exclude each other.
use rivet_rtos.Base.{ℕ, ◌≡◌, none, some, ◌⊎◌, inl, inr, true, false, Option-cases, arith}
use rivet_rtos.Critical.{Machine, Reach}
use rivet_rtos.Critical.Owner.{inside, IsOwned, Reach-IsOwned}

-- At most one hart is between its acquisition and its release, and `LOCK_OWNER` names it.
abbrev pub Exclusive : Machine → Type 0
Exclusive m =
    ((m.lock.owner ≡ none) × ((i : ℕ) → inside (m.places i) ≡ false))
    ⊎ ((i : ℕ) × (m.lock.owner ≡ some i)
        × (inside (m.places i) ≡ true)
        × ((j : ℕ) → inside (m.places j) ≡ true → j ≡ i))

IsOwned-Exclusive : {m : Machine} → IsOwned m → Exclusive m
IsOwned-Exclusive {m} o = elim (Option-cases m.lock.owner) [
  | inl free ↦ inl (free, λ i. ground (arith, o.holds i))
  | inr (i, e) ↦ inr (i, e, o.held i e, λ j h. ground (arith, o.holds j h))
]

-- In every interleaving of the accesses of the harts, at most one hart is between its acquisition
-- of the critical section and its release, and `LOCK_OWNER` names it; when `LOCK_OWNER` is empty,
-- no hart is.
pub Reach-Exclusive : {m : Machine} → Reach m → Exclusive m
Reach-Exclusive r = IsOwned-Exclusive (Reach-IsOwned r)
