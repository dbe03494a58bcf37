-- ===== src/Phash/Bits.antt =====
-- The bits of a word of the hash (src/worker/src/processing.rs), first bit highest.
use native.Mathlib.Nat.{pow-succ', mul-div_cancel}
use ginbar.Prelude.{
  ℕ, zero, suc, ◌+◌, ◌*◌, ◌/◌, ◌%◌, ◌^◌, ◌<◌, ◌≡◌, refl, sym, ap, subst, ◌∙◌, ◌++◌, Bool, true,
  false, List, [], ◌∷◌, arith, length, ◌==◌, if◌then◌else◌,
}
use ginbar.Database.Hamming.{differing, distance64, bit_count-xor_bits}
use ginbar.Phash.{set_bit}

-- The word whose bits are these answers.
unfoldable pub word_of : List Bool → ℕ
word_of [] = 0
word_of (b ∷ bs) = (if b then 2 ^ length bs else 0) + word_of bs

pub pow-suc : (n : ℕ) → 2 ^ suc n ≡ 2 * 2 ^ n
pow-suc n = pow-succ' 2 n

pub pow_pos : (n : ℕ) → 0 < 2 ^ n
pow_pos zero = omega arith
pow_pos (suc n) = omega (arith, pow_pos n, pow-suc n)

pub word_of-lt : (bs : List Bool) → word_of bs < 2 ^ length bs
unfolding word_of
word_of-lt [] = omega arith
word_of-lt (b ∷ bs) = ground (arith, word_of-lt bs, pow-suc (length bs))

even_quotient : (q p : ℕ) → 0 < p → q * (2 * p) / p ≡ 2 * q
even_quotient q p h =
    let e : q * (2 * p) ≡ 2 * q * p = grind arith in ap (λ x. x / p) e ∙ mul-div_cancel (2 * q) h

-- Setting a bit below all that are set adds it.
pub set_bit-add : (q n : ℕ) → set_bit (q * 2 ^ suc n) n ≡ q * 2 ^ suc n + 2 ^ n
unfolding set_bit
set_bit-add q n = ground (arith, pow-suc n, even_quotient q (2 ^ n) (pow_pos n))

-- The number of places at which two lists of answers differ.
unfoldable pub differences : List Bool → List Bool → ℕ
differences [] ys = 0
differences (a ∷ xs) [] = 0
differences (true ∷ xs) (true ∷ ys) = differences xs ys
differences (false ∷ xs) (false ∷ ys) = differences xs ys
differences (true ∷ xs) (false ∷ ys) = suc (differences xs ys)
differences (false ∷ xs) (true ∷ ys) = suc (differences xs ys)

low_bit :
    (x n a : ℕ) → ((x * 2 ^ suc n + a) % 2 ≡ a % 2) × ((x * 2 ^ suc n + a) / 2 ≡ x * 2 ^ n + a / 2)
low_bit x n a =
    let e : x * 2 ^ suc n ≡ 2 * (x * 2 ^ n) = grind (arith, pow-suc n) in
    (omega (arith, e), omega (arith, e))

-- The highest bits count apart from those below them.
differing-high :
    (n x y a b : ℕ)
    → x < 2
    → y < 2
    → a < 2 ^ n
    → b < 2 ^ n
    → differing (suc n) (x * 2 ^ n + a) (y * 2 ^ n + b)
      ≡ (if x == y then 0 else 1) + differing n a b
unfolding differing
differing-high zero x y a b hx hy ha hb = ground arith
differing-high (suc n) x y a b hx hy ha hb = ground (
  arith,
  low_bit x n a,
  low_bit y n b,
  differing-high n x y (a / 2) (b / 2) hx hy (omega (arith, pow-suc n)) (omega (arith, pow-suc n)),
)

abbrev as_bit : Bool → ℕ
as_bit true = 1
as_bit false = 0

word_of-high :
    (b : Bool) (bs : List Bool) → word_of (b ∷ bs) ≡ as_bit b * 2 ^ length bs + word_of bs
unfolding word_of
word_of-high true bs = grind arith
word_of-high false bs = grind arith

-- Two words differ in as many bits as the lists that they are made of.
pub differing-word_of :
    (xs ys : List Bool)
    → length xs ≡ length ys
    → differing (length xs) (word_of xs) (word_of ys) ≡ differences xs ys
unfolding differences
differing-word_of [] ys h = unfold differing in refl
differing-word_of (x ∷ xs) [] h = absurd (omega arith)
differing-word_of (x ∷ xs) (y ∷ ys) h =
    let n = length xs in
    let e : length ys ≡ n = omega arith in
    let k = subst (λ m. word_of ys < 2 ^ m) e (word_of-lt ys) in
    let high =
      differing-high n (as_bit x) (as_bit y) (word_of xs) (word_of ys) (bit_lt x) (bit_lt y)
        (word_of-lt xs) k in
    let l : word_of (y ∷ ys) ≡ as_bit y * 2 ^ n + word_of ys =
      word_of-high y ys ∙ ap (λ m. as_bit y * 2 ^ m + word_of ys) e in
    rw (word_of-high x xs, l, high, differing-word_of xs ys (omega arith)) (by_bits x y xs ys)
  where
    bit_lt : (b : Bool) → as_bit b < 2
    bit_lt true = omega arith
    bit_lt false = omega arith

    by_bits :
        (x y : Bool) (xs ys : List Bool)
        → (if as_bit x == as_bit y then 0 else 1) + differences xs ys
          ≡ differences (x ∷ xs) (y ∷ ys)
    by_bits true true xs ys = omega arith
    by_bits true false xs ys = omega arith
    by_bits false true xs ys = omega arith
    by_bits false false xs ys = omega arith

-- The distance of the duplicate check, between two words of the hash.
pub distance64-word_of :
    (xs ys : List Bool)
    → length xs ≡ 64
    → length ys ≡ 64
    → distance64 (word_of xs) (word_of ys) ≡ differences xs ys
unfolding distance64
distance64-word_of xs ys h k =
    bit_count-xor_bits 64 (word_of xs) (word_of ys)
    ∙ (ap (λ n. differing n (word_of xs) (word_of ys)) (sym h)
        ∙ differing-word_of xs ys (h ∙ sym k))

pub differences-append :
    (xs xs' ys ys' : List Bool)
    → length xs ≡ length xs'
    → differences (xs ++ ys) (xs' ++ ys') ≡ differences xs xs' + differences ys ys'
unfolding differences
differences-append [] [] ys ys' h = omega arith
differences-append [] (x ∷ xs) ys ys' h = absurd (omega arith)
differences-append (x ∷ xs) [] ys ys' h = absurd (omega arith)
differences-append (true ∷ xs) (true ∷ xs') ys ys' h =
    differences-append xs xs' ys ys' (omega arith)
differences-append (false ∷ xs) (false ∷ xs') ys ys' h =
    differences-append xs xs' ys ys' (omega arith)
differences-append (true ∷ xs) (false ∷ xs') ys ys' h =
    omega (arith, differences-append xs xs' ys ys' (omega arith))
differences-append (false ∷ xs) (true ∷ xs') ys ys' h =
    omega (arith, differences-append xs xs' ys ys' (omega arith))
