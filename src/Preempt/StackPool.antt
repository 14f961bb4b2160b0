-- ===== src/Preempt/StackPool.antt =====
-- `rivet/src/preempt/stack_pool.rs`: the stacks of the preemptive tasks, carved out of one section.
use rivet_rtos.Base.{
  ℕ, zero, suc, ◌+◌, ◌-◌, ◌%◌, ◌^◌, Bool, true, false, ◌&&◌, Option, none, some, List, [], ◌∷◌,
  ◌++◌, ◌==◌, ltb, leb, if◌then◌else◌, Table, length,
}
use rivet_rtos.Word.{bits}
use rivet_rtos.Word.Align.{align_down}
pub mod Regions
pub mod Bump
pub mod Sound
pub mod Reach
pub mod Reuse

-- What the linker script and the port give: `pool_base`, `pool_len` and `min_guard_size`.
pub record Section : Type 0 where
  pub base : ℕ
  pub len : ℕ
  pub guard_size : ℕ

-- A slice of bytes: its address and its length.
pub record Slice : Type 0 where
  pub addr : ℕ
  pub len : ℕ

-- The calls of the port.
pub data PortCall : Type 0 where
  guard_register : ℕ → ℕ → PortCall
  scratch_open : ℕ → ℕ → PortCall
  scratch_close : PortCall

-- `NEXT`, `ALLOC_COUNT`, the entries of `FREE_LIST` below its count, the newest first, as pairs of
-- an offset and a size; the memory, and the calls of the port so far.
pub record Pool : Type 0 where
  pub next : ℕ
  pub alloc_count : ℕ
  pub free_list : List (ℕ × ℕ)
  pub memory : Table ℕ
  pub calls : List PortCall

abbrev pub free_list_cap : ℕ
free_list_cap = 16

-- `usize` has 32 bits on every board that has a pool.
abbrev pub wrapping_sub : ℕ → ℕ → ℕ
wrapping_sub a b = (a + 2 ^ bits - b) % 2 ^ bits

abbrev pub wrap : ℕ → ℕ
wrap a = a % 2 ^ bits

-- `FreeList::push`: with 16 entries nothing is stored.
unfoldable pub push : ℕ → ℕ → List (ℕ × ℕ) → List (ℕ × ℕ)
push offset size l = if ltb (length l) free_list_cap then (offset, size) ∷ l else l

-- `FreeList::pop`.
unfoldable pub pop : List (ℕ × ℕ) → Option ((ℕ × ℕ) × List (ℕ × ℕ))
pop [] = none
pop (x ∷ l) = some (x, l)

-- Every byte of the slice becomes `b`.
unfoldable pub fill : Slice → ℕ → Table ℕ → Table ℕ
fill s b memory a = if leb s.addr a && ltb a (s.addr + s.len) then b else memory a

module _ (sec : Section) where
  -- The part of `alloc_stack` after the free list: the next stack above the cursor.
  unfoldable pub bump : ℕ → Pool → Option Slice × Pool
  bump size p =
      let stack_base = align_down (wrap (sec.base + p.next + sec.guard_size + size - 1)) size in
      let guard_base = wrapping_sub stack_base sec.guard_size in
      let offset = wrapping_sub guard_base sec.base in
      let last = wrap (offset + sec.guard_size + size) in
      if ltb sec.len last then (none, p) else (
        some (record { addr = stack_base; len = size }),
        record p {
          next = last;
          alloc_count = p.alloc_count + 1;
          calls = p.calls ++ (guard_register guard_base p.alloc_count ∷ []);
        },
      )

  -- The last released stack is used again if it has the size that is asked for.
  unfoldable pub alloc_stack : ℕ → Pool → Option Slice × Pool
  alloc_stack size p = elim (pop p.free_list) [
    | none ↦ bump size p
    | some (x, l) ↦
        if x.1 == size
        then (
          some (record { addr = wrap (sec.base + x.0); len = size }),
          record p { free_list = l },
        )
        else bump size (record p { free_list = push x.0 x.1 l })
  ]

  unfoldable pub release_stack : Slice → Pool → Pool
  release_stack stack p =
      let offset = wrapping_sub stack.addr sec.base in
      let size = stack.len in
      if ltb sec.len (wrap (offset + size)) then p else record p {
        free_list = push offset size p.free_list;
        memory = fill stack 0xaa p.memory;
        calls = p.calls ++ (scratch_open stack.addr size ∷ scratch_close ∷ []);
      }

  unfoldable pub pool_bounds : ℕ × ℕ
  pool_bounds = (sec.base, sec.len)

  unfoldable pub contains : ℕ → Bool
  contains addr = leb sec.base addr && ltb addr (wrap (sec.base + sec.len))

unfoldable pub reset_for_test : Pool → Pool
reset_for_test p = record p { next = 0; alloc_count = 0 }
