-- ===== src/Word/Scan.antt =====
-- What the zero counts find: the lowest and the highest set bit.
use rivet_rtos.Base.{
  ℕ, zero, suc, ◌+◌, ◌-◌, ◌*◌, ◌/◌, ◌%◌, ◌^◌, ◌≤◌, ◌<◌, ◌≡◌, ◌≢◌, refl, sym, ap, ◌∙◌, true, false,
  ◌&&◌, ◌==◌, if◌then◌else◌, arith, Bool-cases, inl, inr,
}
use Prim.Native.Nat.{bit_and, bit_and-bitwise, min}
use rivet_rtos.Word.Digits.{bit_and_step}
use native.Mathlib.Decide.{ℕ_discrete}
use native.Mathlib.Nat.{pow-suc, one-le-pow}
use rivet_rtos.Word.{bits, bit, mask, trailing, leading, trailing_zeros, clear_lowest, lowest_bit}
use rivet_rtos.Word.Laws.{bit-and, bit-zero}

-- `trailing` is the place of the lowest set bit of a word that is not 0.
pub bit-trailing : (n w : ℕ) → w < 2 ^ n → w ≢ 0 → bit w (trailing n w) ≡ true
unfolding trailing bit
bit-trailing zero w h ne = absurd (omega arith)
bit-trailing (suc n) w h ne = elim (Bool-cases (w % 2 == 1)) [
  | inl odd ↦ rw (odd, bit) odd
  | inr even ↦ rw (even, bit) (bit-trailing n (w / 2) (omega (arith, pow-suc 2 n)) (ground arith))
]

pub trailing-lt : (n w : ℕ) → w < 2 ^ n → w ≢ 0 → trailing n w < n
unfolding trailing
trailing-lt zero w h ne = absurd (omega arith)
trailing-lt (suc n) w h ne = ground (arith, pow-suc 2 n, trailing-lt n (w / 2))

pub bit_below_trailing : (n w j : ℕ) → j < trailing n w → bit w j ≡ false
unfolding trailing bit
bit_below_trailing zero w j h = absurd (omega arith)
bit_below_trailing (suc n) w zero h = ground arith
bit_below_trailing (suc n) w (suc j) h = bit_below_trailing n (w / 2) j (ground arith)

odd_pred : (w j : ℕ) → w % 2 ≡ 1 → (bit w j && bit (w - 1) j) ≡ (if 0 == j then false else bit w j)
unfolding bit
odd_pred w zero h = ground arith
odd_pred w (suc j) h = ap (λ v. bit (w / 2) j && bit v j) {y = w / 2} (omega arith) ∙ ground arith

even_pred :
    (w t k : ℕ)
    → (w % 2 == 1) ≡ false
    → w ≢ 0
    → ((j : ℕ) → (bit (w / 2) j && bit (w / 2 - 1) j) ≡ (if t == j then false else bit (w / 2) j))
    → (bit w k && bit (w - 1) k) ≡ (if suc t == k then false else bit w k)
unfolding bit
even_pred w t zero even ne ih = ground arith
even_pred w t (suc k) even ne ih =
    ap (λ v. bit (w / 2) k && bit v k) {y = w / 2 - 1} (ground arith) ∙ ih k ∙ ground arith

-- `w & (w - 1)` loses exactly the lowest set bit.
bit-pred :
    (n w j : ℕ)
    → w < 2 ^ n
    → w ≢ 0
    → (bit w j && bit (w - 1) j) ≡ (if trailing n w == j then false else bit w j)
unfolding trailing
bit-pred zero w j h ne = absurd (omega arith)
bit-pred (suc n) w j h ne = elim (Bool-cases (w % 2 == 1)) [
  | inl odd ↦ rw odd (odd_pred w j (ground arith))
  | inr even ↦ rw even (
      even_pred w (trailing n (w / 2)) j even ne
        (λ k. bit-pred n (w / 2) k (omega (arith, pow-suc 2 n)) (ground arith)))
]

pub bit-clear_lowest :
    (w j : ℕ)
    → w < 2 ^ bits
    → w ≢ 0
    → bit (clear_lowest w) j ≡ (if trailing_zeros w == j then false else bit w j)
unfolding clear_lowest trailing_zeros
bit-clear_lowest w j h ne = bit-and w (w - 1) j ∙ bit-pred bits w j h ne

-- The highest bit that `leading` finds.
pub leading-le : (n w : ℕ) → leading n w ≤ n
unfolding leading
leading-le zero w = omega arith
leading-le (suc n) w = ground (arith, leading-le n w)

pub bit_above_leading : (n w j : ℕ) → j < n → n ≤ j + leading n w → bit w j ≡ false
unfolding leading
bit_above_leading zero w j hj h = absurd (omega arith)
bit_above_leading (suc n) w j hj h = elim (Bool-cases (bit w n)) [
  | inl top ↦ absurd (ground arith)
  | inr low ↦ elim (ℕ_discrete j n) [
    | yes e ↦ rw e low
    | no ne ↦ bit_above_leading n w j (omega arith) (ground arith)
  ]
]

pub bit-leading :
    (n w j : ℕ) → j < n → bit w j ≡ true → (leading n w < n) × (bit w (n - 1 - leading n w) ≡ true)
unfolding leading
bit-leading zero w j hj h = absurd (omega arith)
bit-leading (suc n) w j hj h = elim (Bool-cases (bit w n)) [
  | inl top ↦ rw top (omega arith, ap (bit w) (omega arith) ∙ top)
  | inr low ↦
      let below : j < n = ground arith in
      let ih = bit-leading n w j below h in rw low (omega arith, ap (bit w) (omega arith) ∙ ih.1)
]

pub and-zero : (a b : ℕ) → a ≡ 0 → bit_and a b ≡ 0
and-zero a b e = rw e (bit_and-bitwise 0 b)

and-complement : (n w : ℕ) → w < 2 ^ n → bit_and w (2 ^ n - 1 - w) ≡ 0
and-complement zero w h = and-zero w (2 ^ 0 - 1 - w) (omega arith)
and-complement (suc n) w h =
    bit_and_step w (2 ^ suc n - 1 - w)
    ∙ ap (λ v. bit_and (w / 2) v * 2 + min (w % 2) ((2 ^ suc n - 1 - w) % 2))
        {y = 2 ^ n - 1 - w / 2} (omega (arith, pow-suc 2 n))
    ∙ omega (arith, pow-suc 2 n, and-complement n (w / 2) (omega (arith, pow-suc 2 n)))

neg_step :
    (n w v : ℕ)
    → (2 ^ suc n - w) / 2 ≡ v
    → bit_and w (2 ^ suc n - w) ≡ bit_and (w / 2) v * 2 + min (w % 2) ((2 ^ suc n - w) % 2)
neg_step n w v e = bit_and_step w (2 ^ suc n - w) ∙ rw e

-- `w & w.wrapping_neg()` is the mask of the lowest set bit.
and-neg : (n w : ℕ) → w < 2 ^ n → w ≢ 0 → bit_and w (2 ^ n - w) ≡ 2 ^ trailing n w
unfolding trailing
and-neg zero w h ne = absurd (omega arith)
and-neg (suc n) w h ne = elim (Bool-cases (w % 2 == 1)) [
  | inl odd ↦
      let one : w % 2 ≡ 1 = ground arith in
      rw odd (
        omega (
          arith,
          pow-suc 2 n,
          neg_step n w (2 ^ n - 1 - w / 2) (omega (arith, pow-suc 2 n)),
          and-complement n (w / 2) (omega (arith, pow-suc 2 n)),
        ))
  | inr even ↦
      let nil : w % 2 ≡ 0 = ground arith in
      rw even (
        omega (
          arith,
          pow-suc 2 n,
          pow-suc 2 (trailing n (w / 2)),
          neg_step n w (2 ^ n - w / 2) (omega (arith, pow-suc 2 n)),
          and-neg n (w / 2) (omega (arith, pow-suc 2 n)) (omega arith),
        ))
]

pub lowest_bit_lem : (w : ℕ) → w < 2 ^ bits → w ≢ 0 → lowest_bit w ≡ mask (trailing_zeros w)
unfolding lowest_bit trailing_zeros
lowest_bit_lem w h ne = ap (bit_and w) (omega arith) ∙ and-neg bits w h ne

-- A single bit is found by `trailing`.
pub trailing-mask : (n i : ℕ) → i < n → trailing n (mask i) ≡ i
unfolding trailing
trailing-mask zero i h = absurd (omega arith)
trailing-mask (suc n) zero h = refl
trailing-mask (suc n) (suc i) h =
    let half : 2 ^ suc i / 2 ≡ 2 ^ i = omega (arith, pow-suc 2 i) in
    let even : (2 ^ suc i % 2 == 1) ≡ false = ground (arith, pow-suc 2 i) in
    rw (even, half) (ap suc (trailing-mask n i (omega arith)))

-- Words with the same bits are equal.
pub word_ext : (n v w : ℕ) → v < 2 ^ n → w < 2 ^ n → ((i : ℕ) → bit v i ≡ bit w i) → v ≡ w
unfolding bit
word_ext zero v w hv hw h = omega arith
word_ext (suc n) v w hv hw h =
    let half : v / 2 ≡ w / 2 =
      word_ext n (v / 2) (w / 2) (omega (arith, pow-suc 2 n)) (omega (arith, pow-suc 2 n))
        (λ i. h (suc i)) in
    ground (arith, h 0)

-- A word with no bit is 0.
pub word_zero : (n w : ℕ) → w < 2 ^ n → ((i : ℕ) → bit w i ≡ false) → w ≡ 0
word_zero n w hw h = word_ext n w 0 hw (one-le-pow n 2 (omega arith)) (λ i. h i ∙ sym (bit-zero i))
