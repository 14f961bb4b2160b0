-- ===== src/Word/Update.antt =====
-- Bounds of the updates, when they leave a word empty, and what the counts of a whole word find.
use rivet_rtos.Base.{
  ℕ, zero, suc, ◌-◌, ◌/◌, ◌^◌, ◌≤◌, ◌<◌, ◌≡◌, ◌≢◌, ap, ◌∙◌, true, false, ◌&&◌, ◌==◌, arith,
  Bool-cases, inl, inr,
}
use Prim.Native.Nat.{bit_and, bit_or}
use native.Mathlib.Nat.{pow-suc}
use native.Mathlib.Decide.{ℕ_discrete}
use rivet_rtos.Word.{
  bits, bit, mask, complement, set_bit, clear_bit, trailing, leading, trailing_zeros, leading_zeros,
  clear_lowest,
}
use rivet_rtos.Word.Digits.{bit_and_step, bit_or_step}
use rivet_rtos.Word.Laws.{bit-zero, bit-set_bit, bit-clear_bit, bit-mask, bit_of_lt, pow_mono}
use rivet_rtos.Word.Scan.{
  bit-trailing, trailing-lt, bit_below_trailing, bit-leading, bit_above_leading, word_ext,
  word_zero, and-zero,
}

bit_or-lt : (n a b : ℕ) → a < 2 ^ n → b < 2 ^ n → bit_or a b < 2 ^ n
bit_or-lt zero a b ha hb =
    let e : a ≡ 0 = omega arith in let f : b ≡ 0 = omega arith in rw (e, f) (omega arith)
bit_or-lt (suc n) a b ha hb = omega (
  arith,
  pow-suc 2 n,
  bit_or_step a b,
  bit_or-lt n (a / 2) (b / 2) (omega (arith, pow-suc 2 n)) (omega (arith, pow-suc 2 n)),
)

bit_and-lt : (n a b : ℕ) → a < 2 ^ n → bit_and a b < 2 ^ n
bit_and-lt zero a b ha = omega (arith, and-zero a b (omega arith))
bit_and-lt (suc n) a b ha = omega (
  arith,
  pow-suc 2 n,
  bit_and_step a b,
  bit_and-lt n (a / 2) (b / 2) (omega (arith, pow-suc 2 n)),
)

pub set_bit-lt : (w i : ℕ) → w < 2 ^ bits → i < bits → set_bit w i < 2 ^ bits
unfolding set_bit
set_bit-lt w i hw hi = bit_or-lt bits w (mask i) hw (pow_mono i bits hi)

pub clear_bit-lt : (w i : ℕ) → w < 2 ^ bits → clear_bit w i < 2 ^ bits
unfolding clear_bit
clear_bit-lt w i hw = bit_and-lt bits w (complement (mask i)) hw

pub clear_lowest-lt : (w : ℕ) → w < 2 ^ bits → clear_lowest w < 2 ^ bits
unfolding clear_lowest
clear_lowest-lt w hw = bit_and-lt bits w (w - 1) hw

-- A word with a bit is not 0.
pub ne_zero_of_bit : (w i : ℕ) → bit w i ≡ true → w ≢ 0
ne_zero_of_bit w i h e = ground (arith, bit-zero i, ap (λ v. bit v i) e)

pub set_bit-ne-zero : (w i : ℕ) → set_bit w i ≢ 0
set_bit-ne-zero w i = ne_zero_of_bit (set_bit w i) i (ground (arith, bit-set_bit w i i))

pub clear_bit_absent : (w i : ℕ) → w < 2 ^ bits → i < bits → bit w i ≡ false → clear_bit w i ≡ w
clear_bit_absent w i hw hi h =
    word_ext bits (clear_bit w i) w (clear_bit-lt w i hw) hw
      (λ j. ground (arith, bit-clear_bit w i j hw hi))

-- The test `prev == 1 << i` of `fetch_and(!(1 << i))`: bit `i` was the last one.
pub mask_test :
    (w i : ℕ) → w < 2 ^ bits → i < bits → (w == mask i) ≡ (bit w i && (clear_bit w i == 0))
mask_test w i hw hi = elim (Bool-cases (bit w i)) [
  | inl on ↦ elim (ℕ_discrete w (mask i)) [
    | yes e ↦
        let z : clear_bit w i ≡ 0 =
          word_zero bits (clear_bit w i) (clear_bit-lt w i hw)
            (λ j. ground (arith, bit-clear_bit w i j hw hi, bit-mask i j, ap (λ v. bit v j) e)) in
        ground arith
    | no ne ↦
        let z : clear_bit w i ≢ 0 = λ e. ne (
          word_ext bits w (mask i) hw (pow_mono i bits hi) (λ j.
            ground
              (arith, bit-clear_bit w i j hw hi, bit-mask i j, ap (λ v. bit v j) e, bit-zero j))) in
        ground arith
  ]
  | inr off ↦
      let ne : w ≢ mask i = λ e. ground (arith, bit-mask i i, ap (λ v. bit v i) e) in ground arith
]

-- `31 - leading_zeros` is the highest set bit.
pub highest_bit :
    (w : ℕ)
    → w < 2 ^ bits
    → w ≢ 0
    → (31 - leading_zeros w < bits)
      × (bit w (31 - leading_zeros w) ≡ true)
      × ((j : ℕ) → bit w j ≡ true → j ≤ 31 - leading_zeros w)
unfolding leading_zeros
highest_bit w hw ne = (omega (arith, found.0), ap (bit w) (omega (arith, found.0)) ∙ found.1, above)
  where
    found : (leading bits w < bits) × (bit w (bits - 1 - leading bits w) ≡ true)
    found =
        bit-leading bits w (trailing bits w) (trailing-lt bits w hw ne) (bit-trailing bits w hw ne)

    above : (j : ℕ) → bit w j ≡ true → j ≤ 31 - leading bits w
    above j h = ground (arith, bit_of_lt bits w j hw, bit_above_leading bits w j)

-- `trailing_zeros` is the lowest set bit.
pub lowest_set :
    (w : ℕ)
    → w < 2 ^ bits
    → w ≢ 0
    → (trailing_zeros w < bits)
      × (bit w (trailing_zeros w) ≡ true)
      × ((j : ℕ) → j < trailing_zeros w → bit w j ≡ false)
unfolding trailing_zeros
lowest_set w hw ne =
    (trailing-lt bits w hw ne, bit-trailing bits w hw ne, bit_below_trailing bits w)
