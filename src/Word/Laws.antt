-- ===== src/Word/Laws.antt =====
-- Which bits the operations on words leave set.
use rivet_rtos.Base.{
  ℕ, zero, suc, ◌-◌, ◌/◌, ◌^◌, ◌≤◌, ◌<◌, ◌≡◌, refl, sym, ap, ◌∙◌, true, false, not, ◌&&◌, ◌||◌,
  ◌==◌, ltb, if◌then◌else◌, arith,
}
use Prim.Native.Nat.{bit_and, bit_or}
use native.Mathlib.Nat.{pow-suc, one-le-pow}
use rivet_rtos.Word.Digits.{bit_and_step, bit_or_step}
use rivet_rtos.Word.{bits, bit, mask, complement, set_bit, clear_bit}

pub bit-zero : (i : ℕ) → bit 0 i ≡ false
unfolding bit
bit-zero zero = refl
bit-zero (suc i) = bit-zero i

pub bit-and : (a b i : ℕ) → bit (bit_and a b) i ≡ (bit a i && bit b i)
unfolding bit
bit-and a b zero = ground (arith, bit_and_step a b)
bit-and a b (suc i) =
    ap (λ w. bit w i) (omega (arith, bit_and_step a b)) ∙ bit-and (a / 2) (b / 2) i

pub bit-or : (a b i : ℕ) → bit (bit_or a b) i ≡ (bit a i || bit b i)
unfolding bit
bit-or a b zero = ground (arith, bit_or_step a b)
bit-or a b (suc i) = ap (λ w. bit w i) (omega (arith, bit_or_step a b)) ∙ bit-or (a / 2) (b / 2) i

suc-==-suc : (i j : ℕ) → (suc i == suc j) ≡ (i == j)
suc-==-suc i j = ground arith

pub bit-mask : (i j : ℕ) → bit (mask i) j ≡ (i == j)
unfolding bit
bit-mask zero zero = refl
bit-mask zero (suc j) = ground (arith, bit-zero j)
bit-mask (suc i) zero = ground (arith, pow-suc 2 i)
bit-mask (suc i) (suc j) =
    ap (λ w. bit w j) (omega (arith, pow-suc 2 i)) ∙ bit-mask i j ∙ sym (suc-==-suc i j)

-- The bits of `2 ^ n - 1 - w`.
pub bit-flip : (n w j : ℕ) → w < 2 ^ n → bit (2 ^ n - 1 - w) j ≡ (ltb j n && not (bit w j))
unfolding bit
bit-flip zero w zero h = ground (arith, h)
bit-flip zero w (suc j) h = ap (λ v. bit v j) (omega arith) ∙ bit-zero j ∙ ground arith
bit-flip (suc n) w zero h = ground (arith, pow-suc 2 n, one-le-pow n 2)
bit-flip (suc n) w (suc j) h =
    ap (λ w. bit w j) (omega (arith, pow-suc 2 n))
    ∙ bit-flip n (w / 2) j (omega (arith, pow-suc 2 n))
    ∙ ground arith

pub pow_mono : (i n : ℕ) → i < n → 2 ^ i < 2 ^ n
pow_mono i zero h = absurd (omega arith)
pow_mono zero (suc n) h = omega (arith, pow-suc 2 n, one-le-pow n 2)
pow_mono (suc i) (suc n) h = omega (arith, pow-suc 2 n, pow-suc 2 i, pow_mono i n)

-- A store into one bit, read back at any bit.
pub bit-set_bit : (w i j : ℕ) → bit (set_bit w i) j ≡ (if i == j then true else bit w j)
unfolding set_bit
bit-set_bit w i j = ground (arith, bit-or w (mask i) j, bit-mask i j)

-- A word has no bit at 32 or above.
pub bit_of_lt : (n w j : ℕ) → w < 2 ^ n → n ≤ j → bit w j ≡ false
unfolding bit
bit_of_lt zero w zero h le = ground (arith, h)
bit_of_lt zero w (suc j) h le = ap (λ v. bit v j) (omega arith) ∙ bit-zero j
bit_of_lt (suc n) w zero h le = absurd (omega arith)
bit_of_lt (suc n) w (suc j) h le = bit_of_lt n (w / 2) j (omega (arith, pow-suc 2 n)) (omega arith)

pub bit-clear_bit :
    (w i j : ℕ)
    → w < 2 ^ bits
    → i < bits
    → bit (clear_bit w i) j ≡ (if i == j then false else bit w j)
unfolding clear_bit
bit-clear_bit w i j h hi = ground (
  arith,
  bit-and w (complement (mask i)) j,
  bit-flip bits (mask i) j (pow_mono i bits hi),
  bit-mask i j,
  bit_of_lt bits w j h,
)
