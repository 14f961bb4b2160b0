-- ===== src/Preempt/StackPool/Regions.antt =====
-- The parts of the section of `rivet/src/preempt/stack_pool.rs` that stacks occupy.
use rivet_rtos.Base.{ℕ, ◌+◌, ◌*◌, ◌≤◌, ◌≡◌, ◌⊎◌, inl, inr, List, [], ◌∷◌, ◌++◌, length}
use rivet_rtos.Preempt.StackPool.{Section, Pool, free_list_cap}

-- A predicate on every entry, and a relation between every two of them.
abbrev pub All : (ℕ × ℕ → Type 0) → List (ℕ × ℕ) → Type 0
All P [] = Unit {0}
All P (x ∷ xs) = P x × All P xs

abbrev pub Pairwise : (ℕ × ℕ → ℕ × ℕ → Type 0) → List (ℕ × ℕ) → Type 0
Pairwise R [] = Unit {0}
Pairwise R (x ∷ xs) = All (R x) xs × Pairwise R xs

pub All-mono :
    {P Q : ℕ × ℕ → Type 0} → ((x : ℕ × ℕ) → P x → Q x) → (l : List (ℕ × ℕ)) → All P l → All Q l
All-mono f [] h = tt
All-mono f (x ∷ l) h = (f x h.0, All-mono f l h.1)

pub All-append :
    (P : ℕ × ℕ → Type 0) (xs ys : List (ℕ × ℕ)) → All P xs → All P ys → All P (xs ++ ys)
All-append P [] ys h k = k
All-append P (x ∷ xs) ys h k = (h.0, All-append P xs ys h.1 k)

pub All-split : (P : ℕ × ℕ → Type 0) (xs ys : List (ℕ × ℕ)) → All P (xs ++ ys) → All P xs × All P ys
All-split P [] ys h = (tt, h)
All-split P (x ∷ xs) ys h = let (a, b) = All-split P xs ys h.1 in ((h.0, a), b)

-- An entry in the middle, taken out and put in front.
pub All-out :
    (P : ℕ × ℕ → Type 0) (xs : List (ℕ × ℕ)) (x : ℕ × ℕ) (ys : List (ℕ × ℕ))
    → All P (xs ++ (x ∷ ys))
    → All P (x ∷ (xs ++ ys))
All-out P xs x ys h = let (a, b) = All-split P xs (x ∷ ys) h in (b.0, All-append P xs ys a b.1)

pub All-into :
    (P : ℕ × ℕ → Type 0) (xs : List (ℕ × ℕ)) (x : ℕ × ℕ) (ys : List (ℕ × ℕ))
    → All P (x ∷ (xs ++ ys))
    → All P (xs ++ (x ∷ ys))
All-into P xs x ys h = let (a, b) = All-split P xs ys h.1 in All-append P xs (x ∷ ys) a (h.0, b)

module _ {R : ℕ × ℕ → ℕ × ℕ → Type 0} (symmetric : (x y : ℕ × ℕ) → R x y → R y x) where
  pub Pairwise-out :
      (xs : List (ℕ × ℕ)) (x : ℕ × ℕ) (ys : List (ℕ × ℕ))
      → Pairwise R (xs ++ (x ∷ ys))
      → Pairwise R (x ∷ (xs ++ ys))
  Pairwise-out [] x ys h = h
  Pairwise-out (y ∷ xs) x ys h =
      let (near, rest) = Pairwise-out xs x ys h.1 in
      let away = All-out (R y) xs x ys h.0 in ((symmetric y x away.0, near), (away.1, rest))

  pub Pairwise-into :
      (xs : List (ℕ × ℕ)) (x : ℕ × ℕ) (ys : List (ℕ × ℕ))
      → Pairwise R (x ∷ (xs ++ ys))
      → Pairwise R (xs ++ (x ∷ ys))
  Pairwise-into [] x ys h = h
  Pairwise-into (y ∷ xs) x ys h =
      (All-into (R y) xs x ys (symmetric x y h.0.0, h.1.0), Pairwise-into xs x ys (h.0.1, h.1.1))

-- Two stacks, each with the guard band below it, do not overlap.
abbrev pub Apart : ℕ → ℕ × ℕ → ℕ × ℕ → Type 0
Apart guard x y = (x.0 + x.1 + guard ≤ y.0) ⊎ (y.0 + y.1 + guard ≤ x.0)

pub Apart-sym : (guard : ℕ) (x y : ℕ × ℕ) → Apart guard x y → Apart guard y x
Apart-sym guard x y (inl h) = inr h
Apart-sym guard x y (inr h) = inl h

-- A stack lies with its guard band below the cursor, and its address is a multiple of its size.
abbrev pub Within : Section → ℕ → ℕ × ℕ → Type 0
Within sec next x =
    (sec.guard_size ≤ x.0) × (x.0 + x.1 ≤ next) × ((q : ℕ) × (sec.base + x.0 ≡ q * x.1))

-- The released stacks and those that tasks hold, `live`, share no byte.
pub record IsSound (sec : Section) (live : List (ℕ × ℕ)) (p : Pool) : Type 0 where
  pub within : All (Within sec p.next) (p.free_list ++ live)
  pub apart : Pairwise (Apart sec.guard_size) (p.free_list ++ live)
  pub in_pool : p.next ≤ sec.len
  pub few : length p.free_list ≤ free_list_cap
