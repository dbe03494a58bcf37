-- ===== src/Database/Hamming.antt =====
-- The distance of the duplicate check: `bit_count(h::bit(64) # p::bit(64))`, four times
-- (src/worker/src/db.rs).
use ginbar.Prelude.{
  ℕ, zero, suc, ◌+◌, ◌*◌, ◌/◌, ◌%◌, ◌<◌, ◌≤◌, ◌≡◌, refl, sym, ◌∙◌, arith, ◌==◌, if◌then◌else◌,
}

-- `#`, exclusive or, on the low bits of a word.
unfoldable pub xor_bits : ℕ → ℕ → ℕ → ℕ
xor_bits zero a b = 0
xor_bits (suc w) a b = (if a % 2 == b % 2 then 0 else 1) + 2 * xor_bits w (a / 2) (b / 2)

unfoldable pub bit_count : ℕ → ℕ → ℕ
bit_count zero a = 0
bit_count (suc w) a = a % 2 + bit_count w (a / 2)

unfoldable pub distance64 : ℕ → ℕ → ℕ
distance64 a b = bit_count 64 (xor_bits 64 a b)

-- The same distance, counted bit by bit.
unfoldable pub differing : ℕ → ℕ → ℕ → ℕ
differing zero a b = 0
differing (suc w) a b = (if a % 2 == b % 2 then 0 else 1) + differing w (a / 2) (b / 2)

bit_count-add : (w b x : ℕ) → b < 2 → bit_count (suc w) (b + 2 * x) ≡ b + bit_count w x
unfolding bit_count
bit_count-add w b x h =
    let low : (b + 2 * x) % 2 ≡ b = omega arith in
    let high : (b + 2 * x) / 2 ≡ x = omega arith in rw (low, high) refl

pub bit_count-xor_bits : (w a b : ℕ) → bit_count w (xor_bits w a b) ≡ differing w a b
unfolding xor_bits differing
bit_count-xor_bits zero a b = unfold bit_count in refl
bit_count-xor_bits (suc w) a b = ground (
  arith,
  bit_count-add w (if a % 2 == b % 2 then 0 else 1) (xor_bits w (a / 2) (b / 2)),
  bit_count-xor_bits w (a / 2) (b / 2),
)

differing_comm : (w a b : ℕ) → differing w a b ≡ differing w b a
unfolding differing
differing_comm zero a b = refl
differing_comm (suc w) a b = ground (arith, differing_comm w (a / 2) (b / 2))

differing_self : (w a : ℕ) → differing w a a ≡ 0
unfolding differing
differing_self zero a = refl
differing_self (suc w) a = ground (arith, differing_self w (a / 2))

differing-triangle : (w a b c : ℕ) → differing w a c ≤ differing w a b + differing w b c
unfolding differing
differing-triangle zero a b c = omega arith
differing-triangle (suc w) a b c = ground (arith, differing-triangle w (a / 2) (b / 2) (c / 2))

differing_zero : (w a : ℕ) → differing w a 0 ≡ bit_count w a
unfolding differing bit_count
differing_zero zero a = refl
differing_zero (suc w) a = ground (arith, differing_zero w (a / 2))

pub distance64_comm : (a b : ℕ) → distance64 a b ≡ distance64 b a
unfolding distance64
distance64_comm a b =
    bit_count-xor_bits 64 a b ∙ (differing_comm 64 a b ∙ sym (bit_count-xor_bits 64 b a))

pub distance64_self : (a : ℕ) → distance64 a a ≡ 0
unfolding distance64
distance64_self a = bit_count-xor_bits 64 a a ∙ differing_self 64 a

pub distance64-triangle : (a b c : ℕ) → distance64 a c ≤ distance64 a b + distance64 b c
unfolding distance64
distance64-triangle a b c =
    rw (bit_count-xor_bits 64 a b, bit_count-xor_bits 64 b c, bit_count-xor_bits 64 a c)
      (differing-triangle 64 a b c)

pub distance64_zero : (a : ℕ) → distance64 a 0 ≡ bit_count 64 a
unfolding distance64
distance64_zero a = bit_count-xor_bits 64 a 0 ∙ differing_zero 64 a

distance64_test : distance64 0xFF 0x0F ≡ 4
unfolding distance64 bit_count xor_bits
distance64_test = refl
