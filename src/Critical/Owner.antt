-- ===== src/Critical/Owner.antt =====
-- `rivet/src/critical.rs`: what the place of a hart says of the nesting depth and of the owner.
use rivet_rtos.Base.{
  ℕ, suc, ◌^◌, ◌<◌, ◌≡◌, some, List, [], ◌∷◌, refl, update, length, arith, Bool, true, false,
  update_self, subst,
}
use native.Mathlib.Decide.{ℕ_discrete}
use rivet_rtos.Critical.{
  Lock, Place, running, spinning, nesting_up, nesting_down, begin, store_nesting, release, Step,
  enter, spin, acquire, raise, lower, leave, Machine, Reach, boot, move,
}

-- The saved depths of the calls count down to 0.
abbrev pub Counted : List ℕ → Type 0
Counted [] = Unit {0}
Counted (d ∷ fs) = (d ≡ length fs) × Counted fs

-- Is the hart between its acquisition and its release?
abbrev pub inside : Place → Bool
inside (running []) = false
inside (running (d ∷ fs)) = true
inside (spinning fs) = false
inside (nesting_up d fs) = true
inside (nesting_down d fs) = true

-- The nesting depth of the hart, at each place.
abbrev pub Counts : ℕ → Place → Type 0
Counts n (running fs) = Counted fs × (n ≡ length fs) × (length fs < 2 ^ 32)
Counts n (spinning fs) = (n ≡ 0) × (fs ≡ [])
Counts n (nesting_up d fs) =
    Counted fs × (d ≡ length fs) × (n ≡ length fs) × (suc (length fs) < 2 ^ 32)
Counts n (nesting_down d fs) = Counted fs × (d ≡ length fs) × (n ≡ length fs) × (length fs < 2 ^ 32)

pub record IsOwned (m : Machine) : Type 0 where
  pub counts : (i : ℕ) → Counts (m.lock.nesting i) (m.places i)
  pub holds : (i : ℕ) → inside (m.places i) ≡ true → m.lock.owner ≡ some i
  pub held : (i : ℕ) → m.lock.owner ≡ some i → inside (m.places i) ≡ true

-- What a step of `hart` keeps of its own depth.
step-Counts :
    {hart : ℕ} {l l' : Lock} {p p' : Place}
    → Step hart l p l' p'
    → Counts (l.nesting hart) p
    → Counts (l'.nesting hart) p'
unfolding begin store_nesting release
step-Counts {hart} {l} (enter {frames} h) c = elim frames [
  | [] ↦ ground arith
  | d ∷ fs ↦ ground arith
]
step-Counts spin c = c
step-Counts (acquire e) c = ground arith
step-Counts raise c = ground arith
step-Counts lower c = ground arith
step-Counts leave c = ground arith

-- A step leaves the depths of the other harts alone.
step-nesting_other :
    {hart : ℕ} {l l' : Lock} {p p' : Place}
    → Step hart l p l' p'
    → (i : ℕ) → (hart ≡ i → ⊥)
    → l'.nesting i ≡ l.nesting i
unfolding store_nesting release
step-nesting_other (enter h) i ne = refl
step-nesting_other spin i ne = refl
step-nesting_other (acquire e) i ne = refl
step-nesting_other raise i ne = ground arith
step-nesting_other lower i ne = ground arith
step-nesting_other leave i ne = ground arith

-- The hart is inside after the step exactly if the lock is then its own.
step-own :
    {hart : ℕ} {l l' : Lock} {p p' : Place}
    → Step hart l p l' p'
    → Counts (l.nesting hart) p
    → (inside p ≡ true → l.owner ≡ some hart)
    → (l.owner ≡ some hart → inside p ≡ true)
    → (inside p' ≡ true → l'.owner ≡ some hart) × (l'.owner ≡ some hart → inside p' ≡ true)
unfolding begin store_nesting release
step-own {hart} {l} (enter {frames} h) c a b = elim frames [
  | [] ↦ ground arith
  | d ∷ fs ↦ ground arith
]
step-own spin c a b = (a, b)
step-own (acquire e) c a b = ground arith
step-own raise c a b = ground arith
step-own lower c a b = ground arith
step-own (leave {frames}) c a b = elim frames [ [] ↦ ground arith | d ∷ fs ↦ ground arith ]

-- What the step means for another hart's ownership.
step-other :
    {hart : ℕ} {l l' : Lock} {p p' : Place}
    → Step hart l p l' p'
    → Counts (l.nesting hart) p
    → (inside p ≡ true → l.owner ≡ some hart)
    → (i : ℕ) → (hart ≡ i → ⊥)
    → (l.owner ≡ some i → l'.owner ≡ some i) × (l'.owner ≡ some i → l.owner ≡ some i)
unfolding store_nesting release
step-other (enter h) c a i ne = ground arith
step-other spin c a i ne = ground arith
step-other (acquire e) c a i ne = ground arith
step-other raise c a i ne = ground arith
step-other lower c a i ne = ground arith
step-other leave c a i ne = ground arith

module _ {m : Machine} (o : IsOwned m) {hart : ℕ} {l : Lock} {p : Place}
    (s : Step hart m.lock (m.places hart) l p) where
  step-IsOwned : IsOwned (record { lock = l; places = update m.places hart p })
  step-IsOwned = record {
    counts = λ i. elim (ℕ_discrete hart i) [
      | yes e ↦
          subst (λ j. Counts (l.nesting j) (update m.places hart p j)) e
            (rw (update_self m.places hart p) (step-Counts s (o.counts hart)))
      | no ne ↦ ground (arith, step-nesting_other s i ne, o.counts i)
    ];
    holds = λ i h. elim (ℕ_discrete hart i) [
      | yes e ↦ ground (arith, (step-own s (o.counts hart) (o.holds hart) (o.held hart)).0)
      | no ne ↦ ground (arith, step-other s (o.counts hart) (o.holds hart) i ne, o.holds i)
    ];
    held = λ i h. elim (ℕ_discrete hart i) [
      | yes e ↦ ground (arith, (step-own s (o.counts hart) (o.holds hart) (o.held hart)).1)
      | no ne ↦ ground (arith, step-other s (o.counts hart) (o.holds hart) i ne, o.held i)
    ];
  }

pub Reach-IsOwned : {m : Machine} → Reach m → IsOwned m
Reach-IsOwned boot = record { counts = λ i. ground arith; holds = λ i h. cc; held = λ i h. cc }
Reach-IsOwned (move hart r s) = step-IsOwned (Reach-IsOwned r) s
