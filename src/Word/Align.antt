-- ===== src/Word/Align.antt =====
-- `w & !(2^k - 1)`: a word rounded down to a multiple of a power of two.
use rivet_rtos.Base.{ℕ, zero, suc, ◌+◌, ◌-◌, ◌*◌, ◌/◌, ◌%◌, ◌^◌, ◌≤◌, ◌<◌, ◌≡◌, arith, refl, ap}
use Prim.Native.Nat.{bit_and}
use native.Mathlib.Nat.{pow-suc, one-le-pow}
use rivet_rtos.Word.Digits.{bit_and_step}
use rivet_rtos.Word.{bits}

-- `w & !(size - 1)`.
unfoldable pub align_down : ℕ → ℕ → ℕ
align_down w size = bit_and w (2 ^ bits - 1 - (size - 1))

and-ones : (n w : ℕ) → w < 2 ^ n → bit_and w (2 ^ n - 1) ≡ w
and-ones zero w h = let e : w ≡ 0 = omega arith in rw e refl
and-ones (suc n) w h =
    let half : (2 ^ suc n - 1) / 2 ≡ 2 ^ n - 1 = omega (arith, pow-suc 2 n, one-le-pow n 2) in
    omega (
      arith,
      bit_and_step w (2 ^ suc n - 1),
      ap (bit_and (w / 2)) half,
      and-ones n (w / 2) (omega (arith, pow-suc 2 n)),
      pow-suc 2 n,
      one-le-pow n 2,
    )

double_mul : (q p r : ℕ) → r ≡ p * 2 → q * r ≡ q * p * 2
double_mul q p r e = rw e (grind arith)

-- The multiple of `2 ^ k` at or below `w`.
and-high :
    (k n w : ℕ)
    → k ≤ n
    → w < 2 ^ n
    → (q : ℕ) × (bit_and w (2 ^ n - 2 ^ k) ≡ q * 2 ^ k)
      × (bit_and w (2 ^ n - 2 ^ k) ≤ w)
      × (w < bit_and w (2 ^ n - 2 ^ k) + 2 ^ k)
and-high zero n w le h =
    let e = and-ones n w h in (w, omega (arith, e), omega (arith, e), omega (arith, e))
and-high (suc k) zero w le h = absurd (omega arith)
and-high (suc k) (suc n) w le h =
    let (q, e, lo, hi) = and-high k n (w / 2) (omega arith) (omega (arith, pow-suc 2 n)) in
    let half : (2 ^ suc n - 2 ^ suc k) / 2 ≡ 2 ^ n - 2 ^ k =
      omega (arith, pow-suc 2 n, pow-suc 2 k) in
    let even : (2 ^ suc n - 2 ^ suc k) % 2 ≡ 0 = omega (arith, pow-suc 2 n, pow-suc 2 k) in
    let step : bit_and w (2 ^ suc n - 2 ^ suc k) ≡ bit_and (w / 2) (2 ^ n - 2 ^ k) * 2 =
      omega (arith, bit_and_step w (2 ^ suc n - 2 ^ suc k), ap (bit_and (w / 2)) half, even) in
    let wide : q * 2 ^ suc k ≡ q * 2 ^ k * 2 =
      double_mul q (2 ^ k) (2 ^ suc k) (omega (arith, pow-suc 2 k)) in
    (q, omega (arith, step, e, wide), omega (arith, step, lo), omega (arith, step, hi, pow-suc 2 k))

pub align_down_lem :
    (k w : ℕ)
    → k ≤ bits
    → w < 2 ^ bits
    → (q : ℕ) × (align_down w (2 ^ k) ≡ q * 2 ^ k)
      × (align_down w (2 ^ k) ≤ w)
      × (w < align_down w (2 ^ k) + 2 ^ k)
unfolding align_down
align_down_lem k w le h =
    let e : 2 ^ bits - 1 - (2 ^ k - 1) ≡ 2 ^ bits - 2 ^ k = omega (arith, one-le-pow k 2) in
    rw e (and-high k bits w le h)
