-- ===== src/Prelude/Numerals.antt =====
-- The text of a number is read back as the number.
use Prim.Native.Nat.{ℕ, zero, suc, ◌+◌, ◌-◌, ◌*◌, ◌/◌, ◌%◌, ◌≤◌, ◌<◌}
use mathlib.Core.Path.{◌≡◌, refl, sym, ap, subst, ◌∙◌}
use mathlib.Core.Logic.{inl, inr}
use mathlib.Core.Option.{none, some}
use mathlib.Core.List.{[], ◌∷◌}
use native.Mathlib.Omega.{arith}
use ginbar.Prelude.Tests.{◌==◌, ltb, if◌then◌else◌, Bool-cases}
use ginbar.Prelude.Lists.{All}
use ginbar.Prelude.Texts.{Text}
use ginbar.Prelude.Digits.{
  digit, digits_before, to_text, parse_digits, parse_unsigned, parse_number,
}

abbrev pub IsDigit : ℕ → Type 0
IsDigit c = (48 ≤ c) × (c ≤ 57)

digits_before-IsDigit :
    (fuel n : ℕ) (s : Text) → All IsDigit s → All IsDigit (digits_before fuel n s)
unfolding digits_before
digits_before-IsDigit zero n s a = a
digits_before-IsDigit (suc fuel) n s a = elim (Bool-cases (n / 10 == 0)) [
  | inl e ↦ rw e ((omega arith, omega arith), a)
  | inr e ↦ rw e (digits_before-IsDigit fuel (n / 10) (digit n ∷ s) ((omega arith, omega arith), a))
]

-- The digits of a number are read as the number, and the rest behind it.
parse_digits-digits_before :
    (bound fuel n : ℕ) (s : Text)
    → n < fuel
    → parse_digits bound 0 (digits_before fuel n s) ≡ parse_digits bound n s
unfolding digits_before
parse_digits-digits_before bound zero n s h = absurd (omega arith)
parse_digits-digits_before bound (suc fuel) n s h = elim (Bool-cases (n / 10 == 0)) [
  | inl e ↦ rw e (one_digit 0 n s (ground arith))
  | inr e ↦ rw e (
      parse_digits-digits_before bound fuel (n / 10) (digit n ∷ s) (ground arith)
      ∙ one_digit (n / 10) n s (omega arith))
]
  where
    one_digit :
        (m n : ℕ) (s : Text)
        → 10 * m + n % 10 ≡ n
        → parse_digits bound m (digit n ∷ s) ≡ parse_digits bound n s
    one_digit m n s e =
        let d : 10 * m + (digit n - 48) ≡ n = omega arith in
        unfold parse_digits in ground (arith, ap (λ k. parse_digits bound k s) d)

digits_before-cons :
    (fuel n : ℕ) (s : Text) → (c : ℕ) × (t : Text) × (digits_before (suc fuel) n s ≡ c ∷ t)
unfolding digits_before
digits_before-cons zero n s = elim (Bool-cases (n / 10 == 0)) [
  | inl e ↦ (digit n, s, rw e refl)
  | inr e ↦ (digit n, s, rw e refl)
]
digits_before-cons (suc fuel) n s = elim (Bool-cases (n / 10 == 0)) [
  | inl e ↦ (digit n, s, rw e refl)
  | inr e ↦ let (c, t, q) = digits_before-cons fuel (n / 10) (digit n ∷ s) in (c, t, rw e q)
]

pub to_text-IsDigit : (n : ℕ) → All IsDigit (to_text n)
unfolding to_text
to_text-IsDigit n = digits_before-IsDigit (suc n) n [] tt

-- A text of digits, with the number that it stands for where that lies below `bound`.
pub record Stands (bound : ℕ) (t : Text) (n : ℕ) : Type 0 where
  pub head : ℕ
  pub tail : Text
  pub cons : t ≡ head ∷ tail
  pub digits : All IsDigit (head ∷ tail)
  pub value : parse_digits bound 0 (head ∷ tail) ≡ (if ltb n bound then some n else none)

pub to_text-Stands : (bound n : ℕ) → Stands bound (to_text n) n
unfolding to_text
to_text-Stands bound n =
    let (c, t, q) = digits_before-cons n n [] in
    record {
      head = c;
      tail = t;
      cons = q;
      digits = subst (All IsDigit) q (digits_before-IsDigit (suc n) n [] tt);
      value =
          ap (parse_digits bound 0) (sym q)
          ∙ (parse_digits-digits_before bound (suc n) n [] (omega arith)
              ∙ unfold parse_digits in refl);
    }

-- A number below the bound is read back from its text.
pub parse_number-to_text : (bound n : ℕ) → n < bound → parse_number bound (to_text n) ≡ some n
parse_number-to_text bound n h =
    let s = to_text-Stands bound n in
    ap (parse_number bound) s.cons ∙ read s.head s.tail s.digits s.value
  where
    read :
        (c : ℕ) (t : Text)
        → All IsDigit (c ∷ t)
        → parse_digits bound 0 (c ∷ t) ≡ (if ltb n bound then some n else none)
        → parse_number bound (c ∷ t) ≡ some n
    read c t d e = unfold parse_number parse_unsigned in ground (arith, e)
