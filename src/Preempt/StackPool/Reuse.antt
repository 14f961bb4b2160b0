-- ===== src/Preempt/StackPool/Reuse.antt =====
-- The free list of `rivet/src/preempt/stack_pool.rs`: which released stacks are used again.
use rivet_rtos.Base.{
  ℕ, ◌+◌, ◌-◌, ◌^◌, ◌≤◌, ◌<◌, ◌≡◌, ◌≢◌, Option-cases, Option, sym, ◌∙◌, if◌then◌else◌, inl, inr,
  none, some, List, [], ◌∷◌, ◌++◌, ◌==◌, arith, refl, length, ltb, Bool-cases, true, false, ap,
}
use rivet_rtos.Word.{bits}
use rivet_rtos.Preempt.StackPool.{
  Section, Slice, scratch_open, scratch_close, Pool, free_list_cap, wrapping_sub, wrap, push, pop,
  fill, bump, alloc_stack, release_stack,
}

-- The slice that is given out depends on the cursor and the free list only.
bump_frame :
    (sec : Section) (size : ℕ) (p q : Pool)
    → p.next ≡ q.next
    → (bump sec size p).0 ≡ (bump sec size q).0
unfolding bump
bump_frame sec size p q e = rw e (ground arith)

-- The slice, when the entry on top of the free list is known.
alloc_stack_empty :
    (sec : Section) (size : ℕ) (p : Pool)
    → pop p.free_list ≡ none
    → (alloc_stack sec size p).0 ≡ (bump sec size p).0
unfolding alloc_stack
alloc_stack_empty sec size p e = rw (e, alloc_stack) refl

alloc_stack_top :
    (sec : Section) (size : ℕ) (p : Pool) (xl : (ℕ × ℕ) × List (ℕ × ℕ))
    → pop p.free_list ≡ some xl
    → (alloc_stack sec size p).0 ≡ (
        if xl.0.1 == size
        then some (record { addr = wrap (sec.base + xl.0.0); len = size })
        else (bump sec size p).0)
unfolding alloc_stack
alloc_stack_top sec size p xl e = elim (Bool-cases (xl.0.1 == size)) [
  | inl fits ↦ rw (e, alloc_stack, fits) refl
  | inr other ↦
      rw (e, alloc_stack, other)
        (bump_frame sec size (record p { free_list = push xl.0.0 xl.0.1 xl.1 }) p refl)
]

alloc_stack_frame :
    (sec : Section) (size : ℕ) (p q : Pool)
    → p.next ≡ q.next
    → pop p.free_list ≡ pop q.free_list
    → (alloc_stack sec size p).0 ≡ (alloc_stack sec size q).0
alloc_stack_frame sec size p q e l =
    let same = bump_frame sec size p q e in
    elim (Option-cases (pop q.free_list)) [
      | inl empty ↦
          alloc_stack_empty sec size p (l ∙ empty) ∙ same ∙ sym (alloc_stack_empty sec size q empty)
      | inr (xl, top) ↦
          alloc_stack_top sec size p xl (l ∙ top)
          ∙ ap
              (λ (b : Option Slice).
                if xl.0.1 == size
                then some (record { addr = wrap (sec.base + xl.0.0); len = size })
                else b)
              same
          ∙ sym (alloc_stack_top sec size q xl top)
    ]

module _ (sec : Section) (stack : Slice) (p : Pool) where
  -- The pool after the stack was released and handed out again.
  abbrev refilled : Pool
  refilled = record p {
    memory = fill stack 0xaa p.memory;
    calls = p.calls ++ (scratch_open stack.addr stack.len ∷ scratch_close ∷ []);
  }

  abbrev pub IsInside : Type 0
  IsInside =
      (sec.base ≤ stack.addr)
      × (stack.addr + stack.len ≤ sec.base + sec.len)
      × (sec.base + sec.len < 2 ^ bits)

  inside_test :
      IsInside
      → (ltb sec.len (wrap (wrapping_sub stack.addr sec.base + stack.len)) ≡ false)
        × (wrapping_sub stack.addr sec.base ≡ stack.addr - sec.base)
  inside_test h =
      let e : wrapping_sub stack.addr sec.base ≡ stack.addr - sec.base = omega arith in
      let f : wrap (wrapping_sub stack.addr sec.base + stack.len)
          ≡ stack.addr - sec.base + stack.len =
        omega (arith, e) in
      (ground (arith, f), e)

  -- A stack inside a section that ends below 2^32, released while the free list has room, is given
  -- out by the next allocation of its size: the cursor and the free list are as before, and the
  -- stack is filled with 0xaa.
  pub alloc_stack-release_stack :
      IsInside
      → length p.free_list < free_list_cap
      → alloc_stack sec stack.len (release_stack sec stack p) ≡ (
        some stack,
        record p {
          memory = fill stack 0xaa p.memory;
          calls = p.calls ++ (scratch_open stack.addr stack.len ∷ scratch_close ∷ []);
        },
      )
  unfolding alloc_stack release_stack push pop
  alloc_stack-release_stack h short =
      let (inside, e) = inside_test h in
      let free : ltb (length p.free_list) free_list_cap ≡ true = ground arith in
      let same : (stack.len == stack.len) ≡ true = ground arith in
      let back : wrap (sec.base + (stack.addr - sec.base)) ≡ stack.addr = omega arith in
      rw (inside, free, e, pop, same, back) refl

  pub release_stack_lost :
      length p.free_list ≡ free_list_cap
      → (size : ℕ)
      → (alloc_stack sec size (release_stack sec stack p)).0 ≡ (alloc_stack sec size p).0
  unfolding release_stack push
  release_stack_lost full size =
      let no_room : ltb (length p.free_list) free_list_cap ≡ false = ground arith in
      elim (Bool-cases (ltb sec.len (wrap (wrapping_sub stack.addr sec.base + stack.len)))) [
        | inl out ↦ rw out refl
        | inr inside ↦
            alloc_stack_frame sec size (release_stack sec stack p) p (rw inside refl)
              (rw (inside, no_room) refl)
      ]

-- Only the stack released last is looked at.
pub alloc_stack_mismatch :
    (sec : Section) (size : ℕ) (p : Pool) {x : ℕ × ℕ} {l : List (ℕ × ℕ)}
    → p.free_list ≡ x ∷ l
    → x.1 ≢ size
    → (alloc_stack sec size p).0 ≡ (bump sec size p).0
unfolding pop
alloc_stack_mismatch sec size p {x} {l} e ne =
    let other : (x.1 == size) ≡ false = ground (arith, ne) in
    alloc_stack_top sec size p (x, l) (ap pop e) ∙ rw other refl
