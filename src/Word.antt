-- ===== src/Word.antt =====
-- `u32` words as bitmaps: the operations of `AtomicU32` and of `u32` that the kernel uses.
use rivet_rtos.Base.{ℕ, zero, suc, ◌+◌, ◌-◌, ◌/◌, ◌%◌, ◌^◌, Bool, true, false, ◌==◌, if◌then◌else◌}
use Prim.Native.Nat.{bit_and, bit_or}
pub mod Digits
pub mod Laws
pub mod Scan
pub mod Update
pub mod Align

abbrev pub bits : ℕ
bits = 32

-- `(w >> i) & 1 != 0`.
unfoldable pub bit : ℕ → ℕ → Bool
bit w zero = w % 2 == 1
bit w (suc i) = bit (w / 2) i

-- `1 << i`.
abbrev pub mask : ℕ → ℕ
mask i = 2 ^ i

-- `!w`.
abbrev pub complement : ℕ → ℕ
complement w = 2 ^ bits - 1 - w

-- `w | (1 << i)`.
unfoldable pub set_bit : ℕ → ℕ → ℕ
set_bit w i = bit_or w (mask i)

-- `w & !(1 << i)`.
unfoldable pub clear_bit : ℕ → ℕ → ℕ
clear_bit w i = bit_and w (complement (mask i))

-- `w & (w - 1)`, at `w != 0`.
unfoldable pub clear_lowest : ℕ → ℕ
clear_lowest w = bit_and w (w - 1)

-- `w & w.wrapping_neg()`.
unfoldable pub lowest_bit : ℕ → ℕ
lowest_bit w = bit_and w ((2 ^ bits - w) % 2 ^ bits)

-- Zeros counted from bit 0 up, over `n` bits.
unfoldable pub trailing : ℕ → ℕ → ℕ
trailing zero w = 0
trailing (suc n) w = if w % 2 == 1 then 0 else suc (trailing n (w / 2))

-- Zeros counted from bit `n - 1` down.
unfoldable pub leading : ℕ → ℕ → ℕ
leading zero w = 0
leading (suc n) w = if bit w n then 0 else suc (leading n w)

unfoldable pub trailing_zeros : ℕ → ℕ
trailing_zeros w = trailing bits w

unfoldable pub leading_zeros : ℕ → ℕ
leading_zeros w = leading bits w
