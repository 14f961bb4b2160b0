-- ===== src/Critical.antt =====
-- `rivet/src/critical.rs`: the critical section, as the single atomic accesses of every hart.
use rivet_rtos.Base.{
  ℕ, zero, suc, ◌+◌, ◌-◌, ◌%◌, ◌^◌, ◌<◌, ◌≡◌, Option, none, some, List, [], ◌∷◌, ◌==◌,
  if◌then◌else◌, Table, update, length,
}
pub mod Owner
pub mod Exclusion
pub mod Progress

-- `NESTING` and `LOCK_OWNER`, whose -1 is `none`.
pub record Lock : Type 0 where
  pub nesting : Table ℕ
  pub owner : Option ℕ

-- Where a hart stands. The list holds the local `depth` of each call of `enter_locked` whose closure
-- it is in, the innermost first.
pub data Place : Type 0 where
  -- in a closure, or outside of every call
  running : List ℕ → Place
  -- at the compare-exchange loop
  spinning : List ℕ → Place
  -- before the store of `depth + 1`
  nesting_up : ℕ → List ℕ → Place
  -- after the store of `depth`, before the test for the release
  nesting_down : ℕ → List ℕ → Place

-- The load of `NESTING[hart]` and the test `depth == 0`.
unfoldable pub begin : ℕ → Lock → List ℕ → Place
begin hart l frames =
    let depth = l.nesting hart in if depth == 0 then spinning frames else nesting_up depth frames

unfoldable pub store_nesting : ℕ → ℕ → Lock → Lock
store_nesting hart depth l = record l { nesting = update l.nesting hart depth }

-- `depth + 1` on a `u32`.
abbrev pub deeper : ℕ → ℕ
deeper depth = (depth + 1) % 2 ^ 32

-- The test `depth == 0`, and the store of -1.
unfoldable pub release : ℕ → Lock → Lock
release depth l = if depth == 0 then record l { owner = none } else l

-- One access of a hart to the lock, from a place to the next one. The closure of the call is what
-- happens between `raise` and `lower`; its nested calls are further steps.
pub data Step (hart : ℕ) (l : Lock) : Place → Lock → Place → Type 0 where
  enter :
      {frames : List ℕ}
      → suc (length frames) < 2 ^ 32
      → Step hart l (running frames) l (begin hart l frames)
  -- a failure of the weak compare-exchange, which may be spurious
  spin : {frames : List ℕ} → Step hart l (spinning frames) l (spinning frames)
  acquire :
      {frames : List ℕ}
      → l.owner ≡ none
      → Step hart l (spinning frames) (record l { owner = some hart }) (nesting_up 0 frames)
  raise :
      {depth : ℕ} {frames : List ℕ}
      → Step hart l
          (nesting_up depth frames)
          (store_nesting hart (deeper depth) l)
          (running (depth ∷ frames))
  lower :
      {depth : ℕ} {frames : List ℕ}
      → Step hart l
          (running (depth ∷ frames))
          (store_nesting hart depth l)
          (nesting_down depth frames)
  leave :
      {depth : ℕ} {frames : List ℕ}
      → Step hart l (nesting_down depth frames) (release depth l) (running frames)

-- The lock and the places of all harts.
pub record Machine : Type 0 where
  pub lock : Lock
  pub places : Table Place

abbrev pub booted : Machine
booted = record { lock = record { nesting = λ _. 0; owner = none }; places = λ _. running [] }

-- The runs of the harts, in any interleaving of their accesses.
pub data Reach : Machine → Type 0 where
  boot : Reach booted
  move :
      {m : Machine} {l : Lock} {p : Place} (hart : ℕ)
      → Reach m
      → Step hart m.lock (m.places hart) l p
      → Reach (record { lock = l; places = update m.places hart p })
