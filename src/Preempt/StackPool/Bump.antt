-- ===== src/Preempt/StackPool/Bump.antt =====
-- `alloc_stack` of `rivet/src/preempt/stack_pool.rs`: where the next new stack lies.
use rivet_rtos.Base.{
  ℕ, ◌+◌, ◌-◌, ◌*◌, ◌^◌, ◌≤◌, ◌<◌, ◌≡◌, refl, none, some, [], ◌∷◌, ◌++◌, arith, ltb, ◌⊎◌,
  Bool-cases, inl, inr, ap,
}
use native.Mathlib.Nat.{one-le-pow}
use rivet_rtos.Word.{bits}
use rivet_rtos.Word.Align.{align_down, align_down_lem}
use rivet_rtos.Preempt.StackPool.{Section, Pool, wrapping_sub, wrap, bump, guard_register}

-- The sizes that the code asks for: a power of two that is not below the guard band. The section
-- ends so far below the top of the address space that the sums do not wrap.
pub record Fits (sec : Section) (k : ℕ) : Type 0 where
  pub word : k ≤ bits
  pub guarded : sec.guard_size ≤ 2 ^ k
  pub room : sec.base + sec.len + sec.guard_size + 2 ^ k + 2 ^ k ≤ 2 ^ bits

-- The address of the next new stack.
abbrev pub stack_base_at : Section → ℕ → ℕ → ℕ
stack_base_at sec size next = align_down (wrap (sec.base + next + sec.guard_size + size - 1)) size

module _ (sec : Section) (k : ℕ) (fits : Fits sec k) (next : ℕ) (le : next ≤ sec.len) where
  -- It is a multiple of the size, the first that leaves room for the guard band.
  pub record Placed (addr : ℕ) : Type 0 where
    pub above : sec.base + next + sec.guard_size ≤ addr
    pub first : addr < sec.base + next + sec.guard_size + 2 ^ k
    pub aligned : (q : ℕ) × (addr ≡ q * 2 ^ k)

  pub stack_base-Placed : Placed (stack_base_at sec (2 ^ k) next)
  stack_base-Placed =
      let w = sec.base + next + sec.guard_size + 2 ^ k - 1 in
      let e : wrap w ≡ w = omega (arith, fits.room, one-le-pow k 2) in
      let (q, multiple, below, near) = align_down_lem k (wrap w) fits.word (omega arith) in
      record {
        above = omega (arith, e, near, one-le-pow k 2);
        first = omega (arith, e, below, one-le-pow k 2);
        aligned = (q, multiple);
      }

-- What `bump` does: it takes the place, and puts the cursor at its end, or it finds no room.
pub record Bumped (sec : Section) (size : ℕ) (p : Pool) (addr : ℕ) (p' : Pool) : Type 0 where
  pub next : sec.base + p'.next ≡ addr + size
  pub counted : p'.alloc_count ≡ p.alloc_count + 1
  pub guarded : p'.calls ≡ p.calls ++ (guard_register (addr - sec.guard_size) p.alloc_count ∷ [])
  pub kept : (p'.free_list ≡ p.free_list) × (p'.memory ≡ p.memory)
  pub in_pool : p'.next ≤ sec.len

module _ (sec : Section) (k : ℕ) (fits : Fits sec k) (p : Pool) (le : p.next ≤ sec.len) where
  -- The offsets that the code computes from the address do not wrap.
  guard_base_lem :
      {a : ℕ} → Placed sec k fits p.next le a → wrapping_sub a sec.guard_size ≡ a - sec.guard_size
  guard_base_lem f = omega (arith, f.above, f.first, fits.room)

  end_lem :
      {a : ℕ}
      → Placed sec k fits p.next le a
      → wrap (wrapping_sub (wrapping_sub a sec.guard_size) sec.base + sec.guard_size + 2 ^ k)
        ≡ a + 2 ^ k - sec.base
  end_lem f = omega (arith, f.above, f.first, fits.room, fits.guarded, guard_base_lem f)

  -- A new stack is taken when there is room for it, and otherwise nothing changes.
  abbrev pub Bump : ℕ → Type 0
  Bump a =
      ((bump sec (2 ^ k) p ≡ (none, p)) × (sec.base + sec.len < a + 2 ^ k))
      ⊎ ((p' : Pool) × (bump sec (2 ^ k) p ≡ (some (record { addr = a; len = 2 ^ k }), p'))
          × Bumped sec (2 ^ k) p a p')

  pub bump_lem : Bump (stack_base_at sec (2 ^ k) p.next)
  unfolding bump
  bump_lem =
      let a = stack_base_at sec (2 ^ k) p.next in
      let f = stack_base-Placed sec k fits p.next le in
      let e = end_lem f in
      elim (Bool-cases (
        ltb sec.len (
          wrap (wrapping_sub (wrapping_sub a sec.guard_size) sec.base + sec.guard_size + 2 ^ k)))) [
            | inl full ↦ inl (rw full refl, ground (arith, e, f.above))
            | inr fit ↦ inr (
              record p {
                next = wrap (
                    wrapping_sub (wrapping_sub a sec.guard_size) sec.base + sec.guard_size + 2 ^ k);
                alloc_count = p.alloc_count + 1;
                calls =
                    p.calls ++ (guard_register (wrapping_sub a sec.guard_size) p.alloc_count ∷ []);
              },
              rw fit refl,
              record {
                next = omega (arith, e, f.above);
                counted = refl;
                guarded =
                    ap (λ g. p.calls ++ (guard_register g p.alloc_count ∷ [])) (guard_base_lem f);
                kept = (refl, refl);
                in_pool = ground arith;
              },
            )
          ]
