-- ===== src/Decimal/Digits.antt =====
-- The decimal digits that the kernel prints, read back.
use rivet_rtos.Base.{
  ℕ, zero, suc, ◌+◌, ◌-◌, ◌*◌, ◌/◌, ◌%◌, ◌^◌, ◌<◌, ◌≡◌, refl, ap, sym, ◌∙◌, some, List, [], ◌∷◌,
  ◌++◌, ◌==◌, arith, Bool-cases, inl, inr,
}
use native.Mathlib.Nat.{pow-suc}
use rivet_rtos.Decimal.{low_digits, turn, print_dec}

-- The number that a text of digits stands for.
unfoldable pub parse_from : ℕ → List ℕ → ℕ
parse_from acc [] = acc
parse_from acc (d ∷ ds) = parse_from (acc * 10 + (d - b'0')) ds

unfoldable pub parse : List ℕ → ℕ
parse ds = parse_from 0 ds

-- The value of digits that start with the lowest one.
value : List ℕ → ℕ
value [] = 0
value (d ∷ ds) = value ds * 10 + (d - b'0')

parse_from-append :
    (acc : ℕ) (xs ys : List ℕ) → parse_from acc (xs ++ ys) ≡ parse_from (parse_from acc xs) ys
unfolding parse_from
parse_from-append acc [] ys = refl
parse_from-append acc (x ∷ xs) ys = parse_from-append (acc * 10 + (x - b'0')) xs ys

parse-turn : (ds : List ℕ) → parse (turn ds) ≡ value ds
unfolding parse turn value parse_from
parse-turn [] = refl
parse-turn (d ∷ ds) =
    parse_from-append 0 (turn ds) (d ∷ []) ∙ ap (λ v. v * 10 + (d - b'0')) (parse-turn ds)

low_digits-value :
    (room n : ℕ) → n < 10 ^ room → (ds : List ℕ) × (low_digits room n ≡ some ds) × (value ds ≡ n)
unfolding low_digits value
low_digits-value zero n h = let e : n ≡ 0 = omega arith in ([], rw e refl, omega (arith, e))
low_digits-value (suc room) n h = elim (Bool-cases (n == 0)) [
  | inl e ↦ let z : n ≡ 0 = ground arith in ([], rw e refl, omega (arith, z))
  | inr e ↦
      let (ds, done, v) = low_digits-value room (n / 10) (omega (arith, pow-suc 10 room)) in
      ((b'0' + n % 10) ∷ ds, rw (e, done) refl, omega (arith, v))
]

-- The text stands for the number, when the buffer has room for its digits.
pub parse-print_dec :
    (room n : ℕ) → n < 10 ^ room → (ds : List ℕ) × (print_dec room n ≡ some ds) × (parse ds ≡ n)
unfolding print_dec parse parse_from
parse-print_dec room n h = elim (Bool-cases (n == 0)) [
  | inl e ↦ let z : n ≡ 0 = ground arith in (b'0' ∷ [], rw e refl, sym z)
  | inr e ↦
      let (ds, done, v) = low_digits-value room n h in
      (turn ds, rw (e, done) refl, parse-turn ds ∙ v)
]
