-- ===== src/Preempt/StackPool/Sound.antt =====
-- `alloc_stack` and `release_stack` of `rivet/src/preempt/stack_pool.rs`: which stacks they give out.
use rivet_rtos.Base.{
  ℕ, ◌+◌, ◌-◌, ◌^◌, ◌≤◌, ◌<◌, ◌≡◌, ◌⊎◌, inl, inr, refl, none, some, List, [], ◌∷◌, ◌++◌, ◌==◌,
  arith, length, ltb, ==_iff, Bool-cases, true, subst, ap, ◌∙◌,
}
use native.Mathlib.Nat.{one-le-pow}
use rivet_rtos.Word.{bits}
use mathlib.Core.List.{append_assoc}
use rivet_rtos.Preempt.StackPool.{
  Section, Slice, Pool, free_list_cap, wrapping_sub, wrap, push, pop, bump, alloc_stack,
  release_stack,
}
use rivet_rtos.Preempt.StackPool.Regions.{
  All, Pairwise, All-mono, All-into, All-out, Pairwise-into, Pairwise-out, Apart, Apart-sym, Within,
  IsSound,
}
use rivet_rtos.Preempt.StackPool.Bump.{
  Fits, Placed, stack_base_at, stack_base-Placed, Bumped, bump_lem,
}

-- A stack above the cursor touches none below it.
disjoint_above :
    (sec : Section) (size next a : ℕ) (l : List (ℕ × ℕ))
    → sec.base + next + sec.guard_size ≤ a
    → All (Within sec next) l
    → All (Apart sec.guard_size (a - sec.base, size)) l
disjoint_above sec size next a l h =
    All-mono {P = Within sec next} {Q = Apart sec.guard_size (a - sec.base, size)}
      (λ x w. inr (omega arith)) l

List-cases : (l : List (ℕ × ℕ)) → (l ≡ []) ⊎ ((x : ℕ × ℕ) × (r : List (ℕ × ℕ)) × (l ≡ x ∷ r))
List-cases [] = inl refl
List-cases (x ∷ l) = inr (x, l, refl)

module _ (sec : Section) (k : ℕ) (fits : Fits sec k) (live : List (ℕ × ℕ)) where
  Bumped-IsSound :
      {p p' : Pool} {a : ℕ} (s : IsSound sec live p)
      → Placed sec k fits p.next s.in_pool a
      → Bumped sec (2 ^ k) p a p'
      → IsSound sec ((a - sec.base, 2 ^ k) ∷ live) p'
  Bumped-IsSound {p} {p'} {a} s f b =
      let fresh : ℕ × ℕ = (a - sec.base, 2 ^ k) in
      let (q, e) = f.aligned in
      let grown =
        All-mono {P = Within sec p.next} {Q = Within sec p'.next}
          (λ x w. (w.0, omega (arith, b.next, f.above), w.2)) (p.free_list ++ live) s.within in
      let own : Within sec p'.next fresh =
        (omega (arith, f.above), omega (arith, f.above, b.next), (q, omega (arith, e, f.above))) in
      let away = disjoint_above sec (2 ^ k) p.next a (p.free_list ++ live) f.above s.within in
      record {
        within = rw b.kept.0 (All-into (Within sec p'.next) p.free_list fresh live (own, grown));
        apart =
            rw b.kept.0
              (Pairwise-into (Apart-sym sec.guard_size) p.free_list fresh live (away, s.apart));
        in_pool = b.in_pool;
        few = rw b.kept.0 s.few;
      }

  -- Either there is no room and nothing changes, or a stack of the size is given out, at an address
  -- that is a multiple of its size, and it shares no byte with the others, guard bands included.
  abbrev pub Allocated : Pool → Type 0
  Allocated p =
      ((alloc_stack sec (2 ^ k) p ≡ (none, p))
        × (sec.base + sec.len < stack_base_at sec (2 ^ k) p.next + 2 ^ k))
      ⊎ ((s : Slice) × (p' : Pool) × (alloc_stack sec (2 ^ k) p ≡ (some s, p'))
          × (s.len ≡ 2 ^ k)
          × (sec.base ≤ s.addr)
          × IsSound sec ((s.addr - sec.base, 2 ^ k) ∷ live) p')

  bump-Allocated :
      (p : Pool) → IsSound sec live p → alloc_stack sec (2 ^ k) p ≡ bump sec (2 ^ k) p → Allocated p
  bump-Allocated p s e = elim (bump_lem sec k fits p s.in_pool) [
    | inl full ↦ inl (e ∙ full.0, full.1)
    | inr (p', new, b) ↦
        let f = stack_base-Placed sec k fits p.next s.in_pool in
        inr (
          record { addr = stack_base_at sec (2 ^ k) p.next; len = 2 ^ k },
          p',
          e ∙ new,
          refl,
          omega (arith, f.above),
          Bumped-IsSound s f b,
        )
  ]

  reuse-Allocated :
      (p : Pool) (x : ℕ × ℕ) (l : List (ℕ × ℕ))
      → IsSound sec live p
      → p.free_list ≡ x ∷ l
      → x.1 ≡ 2 ^ k
      → Allocated p
  unfolding alloc_stack pop
  reuse-Allocated p x l s e same =
      let within : All (Within sec p.next) ((x ∷ l) ++ live) =
        subst (λ y. All (Within sec p.next) (y ++ live)) e s.within in
      let apart : Pairwise (Apart sec.guard_size) ((x ∷ l) ++ live) =
        subst (λ y. Pairwise (Apart sec.guard_size) (y ++ live)) e s.apart in
      let size_eq : wrap (sec.base + x.0) ≡ sec.base + x.0 =
        omega (arith, within.0, s.in_pool, fits.room, one-le-pow k 2) in
      let same_region : x ≡ (wrap (sec.base + x.0) - sec.base, 2 ^ k) = ground (arith, size_eq) in
      inr (
        record { addr = wrap (sec.base + x.0); len = 2 ^ k },
        record p { free_list = l },
        rw (e, pop, (==_iff x.1 (2 ^ k)).1 same) refl,
        refl,
        omega (arith, size_eq),
        subst (λ r. IsSound sec (r ∷ live) (record p { free_list = l })) same_region
            (record {
              within = All-into (Within sec p.next) l x live within;
              apart = Pairwise-into (Apart-sym sec.guard_size) l x live apart;
              in_pool = s.in_pool;
              few = omega (arith, ap length e, s.few);
            }),
      )

  pub alloc_stack-Allocated : (p : Pool) → IsSound sec live p → Allocated p
  unfolding alloc_stack pop push
  alloc_stack-Allocated p s = elim (List-cases p.free_list) [
    | inl e ↦ bump-Allocated p s (rw (e, pop) refl)
    | inr (x, l, e) ↦ elim (Bool-cases (x.1 == 2 ^ k)) [
      | inl same ↦ reuse-Allocated p x l s e ((==_iff x.1 (2 ^ k)).0 same)
      | inr other ↦
          let short : ltb (length l) free_list_cap ≡ true = ground (arith, ap length e, s.few) in
          bump-Allocated p s (rw (e, pop, other, short) refl)
    ]
  ]

-- An entry of `live` put in front of the entries.
fronted :
    (free xs ys : List (ℕ × ℕ)) (r : ℕ × ℕ) (W : ℕ × ℕ → Type 0) (guard : ℕ)
    → All W (free ++ (xs ++ (r ∷ ys)))
    → Pairwise (Apart guard) (free ++ (xs ++ (r ∷ ys)))
    → All W (r ∷ (free ++ (xs ++ ys))) × Pairwise (Apart guard) (r ∷ (free ++ (xs ++ ys)))
fronted free xs ys r W guard h k =
    let assoc = append_assoc free xs (r ∷ ys) in
    let assoc' = append_assoc free xs ys in
    let all = All-out W (free ++ xs) r ys (rw assoc h) in
    let pairs = Pairwise-out (Apart-sym guard) (free ++ xs) r ys (rw assoc k) in
    (rw assoc' at all, rw assoc' at pairs)

-- A stack that a task holds goes back to the pool, or is lost when the free list is full.
module _ (sec : Section) (xs ys : List (ℕ × ℕ)) (stack : Slice) {p : Pool} where
  pub release_stack-IsSound :
      sec.base + sec.len < 2 ^ bits
      → sec.base ≤ stack.addr
      → IsSound sec (xs ++ ((stack.addr - sec.base, stack.len) ∷ ys)) p
      → IsSound sec (xs ++ ys) (release_stack sec stack p)
  unfolding release_stack push
  release_stack-IsSound room above s =
      let r : ℕ × ℕ = (stack.addr - sec.base, stack.len) in
      let (all, pairs) =
        fronted p.free_list xs ys r (Within sec p.next) sec.guard_size s.within s.apart in
      elim (Bool-cases (ltb sec.len (wrap (wrapping_sub stack.addr sec.base + stack.len)))) [
        | inl outside ↦
            rw outside
              (record { within = all.1; apart = pairs.1; in_pool = s.in_pool; few = s.few })
        | inr inside ↦ elim (Bool-cases (ltb (length p.free_list) free_list_cap)) [
          | inl short ↦
              let e : wrapping_sub stack.addr sec.base ≡ stack.addr - sec.base =
                omega (arith, all.0.1, s.in_pool) in
              rw (inside, short, e)
                (record { within = all; apart = pairs; in_pool = s.in_pool; few = ground arith })
          | inr full ↦
              rw (inside, full)
                (record { within = all.1; apart = pairs.1; in_pool = s.in_pool; few = s.few })
        ]
      ]
