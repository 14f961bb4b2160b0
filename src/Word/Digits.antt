-- ===== src/Word/Digits.antt =====
-- The laws of `bit_and` and `bit_or` at the lowest digit.
use rivet_rtos.Base.{ℕ, zero, suc, ◌+◌, ◌*◌, ◌/◌, ◌%◌, ◌≤◌, ◌≡◌, refl, sym, ◌∙◌, arith}
use Prim.Native.Nat.{bit_and, bit_or, min, max, digits, bit_and-bitwise, bit_or-bitwise}

-- An operation by digits, with the value `last` takes at 0 and the operation on a digit.
module _ (last : ℕ → ℕ) (op : ℕ → ℕ → ℕ) where
  run_out : (steps w : ℕ) → digits last op steps 0 w ≡ last w
  run_out zero w = refl
  run_out (suc steps) w = refl

  -- Every count of steps that is enough gives the same.
  enough :
      (steps v w other : ℕ)
      → v ≤ steps
      → v ≤ other
      → digits last op steps v w ≡ digits last op other v w
  enough steps zero w other h k = run_out steps w ∙ sym (run_out other w)
  enough zero (suc v) w other h k = absurd (omega (arith, h))
  enough (suc steps) (suc v) w zero h k = absurd (omega (arith, k))
  enough (suc steps) (suc v) w (suc other) h k =
      let half = enough steps (suc v / 2) (w / 2) other (omega (arith, h)) (omega (arith, k)) in
      omega (arith, half)

  -- The lowest digit and the half, when 0 and 0 give 0.
  lowest :
      (v w : ℕ)
      → last w ≡ last (w / 2) * 2 + op 0 (w % 2)
      → digits last op v v w ≡ digits last op (v / 2) (v / 2) (w / 2) * 2 + op (v % 2) (w % 2)
  lowest zero w h = h
  lowest (suc v) w h =
      let half = enough v (suc v / 2) (w / 2) (suc v / 2) (omega arith) (omega arith) in
      omega (arith, half)

pub bit_and_step : (a b : ℕ) → bit_and a b ≡ bit_and (a / 2) (b / 2) * 2 + min (a % 2) (b % 2)
bit_and_step a b =
    let low = lowest (λ w. zero) min a b (omega arith) in
    omega (arith, low, bit_and-bitwise a b, bit_and-bitwise (a / 2) (b / 2))

pub bit_or_step : (a b : ℕ) → bit_or a b ≡ bit_or (a / 2) (b / 2) * 2 + max (a % 2) (b % 2)
bit_or_step a b =
    let low = lowest (λ w. w) max a b (omega arith) in
    omega (arith, low, bit_or-bitwise a b, bit_or-bitwise (a / 2) (b / 2))
