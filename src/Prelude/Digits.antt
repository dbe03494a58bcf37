-- ===== src/Prelude/Digits.antt =====
-- `to_string` of an unsigned number, its decimal digits, and `parse` of one.
use Prim.Native.Nat.{ℕ, zero, suc, ◌+◌, ◌-◌, ◌*◌, ◌/◌, ◌%◌}
use mathlib.Core.Bool.{◌&&◌}
use mathlib.Core.Option.{Option, none, some}
use mathlib.Core.List.{[], ◌∷◌}
use ginbar.Prelude.Tests.{◌==◌, ltb, leb, if◌then◌else◌}
use ginbar.Prelude.Texts.{Text}

abbrev pub digit : ℕ → ℕ
digit n = b'0' + n % 10

-- The digits of `n` before those that are there; a number has no more digits than `suc n`.
unfoldable pub digits_before : ℕ → ℕ → Text → Text
digits_before zero n s = s
digits_before (suc fuel) n s =
    let rest = digits_before fuel (n / 10) (digit n ∷ s) in
    if n / 10 == 0 then digit n ∷ s else rest

unfoldable pub to_text : ℕ → Text
unfolding digits_before
to_text n = digits_before (suc n) n []

-- The digits of a number, behind the value of those before them; a number that does not lie below
-- `bound` is an error.
unfoldable pub parse_digits : ℕ → ℕ → Text → Option ℕ
parse_digits bound n [] = if ltb n bound then some n else none
parse_digits bound n (c ∷ s) =
    let rest = parse_digits bound (10 * n + (c - b'0')) s in
    if leb b'0' c && leb c b'9' then rest else none

unfoldable pub parse_unsigned : ℕ → Text → Option ℕ
unfolding parse_digits
parse_unsigned bound [] = none
parse_unsigned bound (c ∷ s) = parse_digits bound 0 (c ∷ s)

-- `parse` to an unsigned number below `bound`: a sign `+` may stand before the digits.
unfoldable pub parse_number : ℕ → Text → Option ℕ
unfolding parse_unsigned
parse_number bound [] = none
parse_number bound (c ∷ s) =
    if c == b'+' then parse_unsigned bound s else parse_unsigned bound (c ∷ s)
