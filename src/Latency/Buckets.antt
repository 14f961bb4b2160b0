-- ===== src/Latency/Buckets.antt =====
-- `bucket_of` of `rivet/src/latency.rs`, and a count of halvings.
use rivet_rtos.Base.{
  ℕ, zero, suc, ◌-◌, ◌/◌, ◌^◌, ◌≤◌, ◌<◌, ◌≡◌, refl, sym, true, false, ◌==◌, leb, if◌then◌else◌,
  arith, Bool-cases, inl, inr,
}
use native.Mathlib.Nat.{pow-suc, one-le-pow}
use rivet_rtos.Word.{bit, leading}
use rivet_rtos.Latency.{buckets, bucket_of, min}

-- How often a number can be halved before it is 1, up to `n` times.
unfoldable pub halvings : ℕ → ℕ → ℕ
halvings zero c = 0
halvings (suc n) c = let rest = halvings n (c / 2) in if leb c 1 then 0 else suc rest

-- The top bit of a number below `2 ^ (n + 1)`.
bit_top : (n w : ℕ) → w < 2 ^ suc n → (bit w n ≡ true → 2 ^ n ≤ w) × (bit w n ≡ false → w < 2 ^ n)
unfolding bit
bit_top zero w h = ground arith
bit_top (suc n) w h =
    let (up, down) = bit_top n (w / 2) (omega (arith, pow-suc 2 (suc n))) in
    (λ e. omega (arith, up e, pow-suc 2 n), λ e. omega (arith, down e, pow-suc 2 n))

zero_sub : (n : ℕ) → suc n - 0 ≡ suc n
zero_sub n = omega arith

-- The leading zeros bound the number from both sides.
leading_bounds :
    (n w : ℕ)
    → w < 2 ^ n
    → 0 < w
    → (leading n w < n) × (2 ^ (n - 1 - leading n w) ≤ w) × (w < 2 ^ (n - leading n w))
unfolding leading
leading_bounds zero w h pos = absurd (omega arith)
leading_bounds (suc n) w h pos = elim (Bool-cases (bit w n)) [
  | inl top ↦
      let e : suc n - 1 - 0 ≡ n = omega arith in
      rw top (omega arith, rw e ((bit_top n w h).0 top), rw (zero_sub n) h)
  | inr low ↦
      let (small, le, lt) = leading_bounds n w ((bit_top n w h).1 low) pos in
      let e : suc n - 1 - suc (leading n w) ≡ n - 1 - leading n w = omega arith in
      let f : suc n - suc (leading n w) ≡ n - leading n w = omega arith in
      rw low (omega (arith, small), rw e le, rw f lt)
]

halvings_zero : (n : ℕ) → 0 ≡ halvings n 0
unfolding halvings
halvings_zero zero = refl
halvings_zero (suc n) = refl

-- A number between two powers of two is halved that often.
halvings_log : (n b c : ℕ) → 2 ^ b ≤ c → c < 2 ^ suc b → halvings n c ≡ min b n
unfolding halvings
halvings_log zero b c le lt = ground arith
halvings_log (suc n) zero c le lt = ground arith
halvings_log (suc n) (suc b) c le lt =
    let ih =
      halvings_log n b (c / 2) (omega (arith, pow-suc 2 b)) (omega (arith, pow-suc 2 (suc b))) in
    let big : leb c 1 ≡ false = ground (arith, pow-suc 2 b, one-le-pow b 2) in
    rw (big, ih) (ground arith)

-- The bucket of a 64-bit number of cycles, which the code finds from the leading zeros, is how
-- often the number can be halved before it is at most 1, up to 15 times.
pub bucket_of-halvings :
    (cycles : ℕ) → cycles < 2 ^ 64 → bucket_of cycles ≡ halvings (buckets - 1) cycles
unfolding bucket_of
bucket_of-halvings cycles h = elim (Bool-cases (cycles == 0)) [
  | inl is_zero ↦ rw is_zero (let e : cycles ≡ 0 = ground arith in rw e (halvings_zero 15))
  | inr pos ↦
      let (small, le, lt) = leading_bounds 64 cycles h (ground arith) in
      let l = leading 64 cycles in
      let e : 64 - 1 - l ≡ 63 - l = omega arith in
      let f : 64 - l ≡ suc (63 - l) = omega (arith, small) in
      rw pos (sym (halvings_log 15 (63 - l) cycles (rw e at le) (rw f at lt)))
]
