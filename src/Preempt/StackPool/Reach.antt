-- ===== src/Preempt/StackPool/Reach.antt =====
-- The runs of the pool of `rivet/src/preempt/stack_pool.rs`.
use rivet_rtos.Base.{
  ℕ, ◌+◌, ◌-◌, ◌^◌, ◌≤◌, ◌<◌, ◌≡◌, inl, inr, some, List, [], ◌∷◌, ◌++◌, arith, subst, sym, ◌∙◌,
  Table,
}
use rivet_rtos.Word.{bits}
use rivet_rtos.Preempt.StackPool.{Section, Slice, Pool, alloc_stack, release_stack}
use rivet_rtos.Preempt.StackPool.Regions.{IsSound}
use rivet_rtos.Preempt.StackPool.Bump.{Fits}
use rivet_rtos.Preempt.StackPool.Sound.{alloc_stack-Allocated, release_stack-IsSound}

-- The pool at boot, and what becomes of it: `live` are the stacks that tasks hold.
abbrev pub booted : Table ℕ → Pool
booted memory = record { next = 0; alloc_count = 0; free_list = []; memory = memory; calls = [] }

pub data Reach (sec : Section) : List (ℕ × ℕ) → Pool → Type 0 where
  boot : (memory : Table ℕ) → Reach sec [] (booted memory)
  alloc :
      {live : List (ℕ × ℕ)} {p p' : Pool} (k : ℕ) {s : Slice}
      → Fits sec k
      → Reach sec live p
      → alloc_stack sec (2 ^ k) p ≡ (some s, p')
      → Reach sec ((s.addr - sec.base, s.len) ∷ live) p'
  release :
      {live : List (ℕ × ℕ)} {p : Pool} (xs ys : List (ℕ × ℕ)) (s : Slice)
      → sec.base ≤ s.addr
      → live ≡ xs ++ ((s.addr - sec.base, s.len) ∷ ys)
      → Reach sec live p
      → Reach sec (xs ++ ys) (release_stack sec s p)
  -- the stores of the tasks
  write :
      {live : List (ℕ × ℕ)} {p : Pool} (memory : Table ℕ)
      → Reach sec live p
      → Reach sec live (record p { memory = memory })

-- If the section ends below 2^32, then, whatever is allocated, released and written, the stacks
-- that tasks hold and those in the free list lie within the allocated part of the section and do
-- not overlap. Each size asked for is a power of two, at least the guard size, with which no
-- address calculation passes 2^32.
pub Reach-IsSound :
    (sec : Section)
    → sec.base + sec.len < 2 ^ bits
    → {live : List (ℕ × ℕ)} {p : Pool} → Reach sec live p
    → IsSound sec live p
Reach-IsSound sec room (boot memory) = record {
  within = tt;
  apart = tt;
  in_pool = omega arith;
  few = omega arith;
}
Reach-IsSound sec room (alloc {live} {p} {p'} k {s} fits r e) =
    elim (alloc_stack-Allocated sec k fits live p (Reach-IsSound sec room r)) [
      | inl (full, _) ↦ absurd (let bad = sym full ∙ e in cc)
      | inr (s', q, e', size, above, sound) ↦
          let both = sym e' ∙ e in
          let same : s' ≡ s = cc in
          let same_pool : q ≡ p' = cc in
          let sized : IsSound sec ((s'.addr - sec.base, s'.len) ∷ live) q = rw size sound in
          subst (λ z. IsSound sec ((z.addr - sec.base, z.len) ∷ live) p') same
            (subst (IsSound sec ((s'.addr - sec.base, s'.len) ∷ live)) same_pool sized)
    ]
Reach-IsSound sec room (release {live} {p} xs ys s above e r) =
    release_stack-IsSound sec xs ys s room above
      (subst (λ l. IsSound sec l p) e (Reach-IsSound sec room r))
Reach-IsSound sec room (write {live} {p} memory r) =
    let s = Reach-IsSound sec room r in
    record { within = s.within; apart = s.apart; in_pool = s.in_pool; few = s.few }
