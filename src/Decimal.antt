-- ===== src/Decimal.antt =====
-- `print_dec` of `rivet/src/report.rs` and `rivet/src/watchdog.rs`, and `write_dec` of
-- `rivet/src/log.rs`: a number in decimal digits.
use rivet_rtos.Base.{
  ℕ, zero, suc, ◌+◌, ◌*◌, ◌/◌, ◌%◌, ◌^◌, ◌≤◌, ◌<◌, ◌≡◌, Option, none, some, List, [], ◌∷◌, ◌++◌,
  ◌==◌, if◌then◌else◌,
}
pub mod Digits

-- The loop that fills `digits`, the lowest digit first, with room for `room` more. `none` is the
-- panic of an index out of bounds.
unfoldable pub low_digits : ℕ → ℕ → Option (List ℕ)
low_digits zero n = if n == 0 then some [] else none
low_digits (suc room) n =
    let rest : Option (List ℕ) = elim (low_digits room (n / 10)) [
      | none ↦ none
      | some ds ↦ some ((b'0' + n % 10) ∷ ds)
    ] in
    if n == 0 then some [] else rest

-- The loop that turns them around.
unfoldable pub turn : List ℕ → List ℕ
turn [] = []
turn (d ∷ ds) = turn ds ++ (d ∷ [])

-- The text that is written, with a buffer of `room` bytes.
unfoldable pub print_dec : ℕ → ℕ → Option (List ℕ)
print_dec room n =
    if n == 0
    then some (b'0' ∷ [])
    else elim (low_digits room n) [ none ↦ none | some ds ↦ some (turn ds) ]
