-- ===== src/Phash/Words.antt =====
-- The words that `compute_phash` of src/worker/src/processing.rs packs four times 64 answers into.
use ginbar.Prelude.{
  ℕ, zero, suc, ◌+◌, ◌-◌, ◌*◌, ◌/◌, ◌%◌, ◌^◌, ◌<◌, ◌≡◌, refl, sym, ap, ◌∙◌, Bool, true, false, some,
  List, [], ◌∷◌, ◌++◌, arith, length,
}
use ginbar.Pipeline.{PHash}
use ginbar.Phash.{set_bit, set_in, continue_with, pack}
use ginbar.Phash.Bits.{word_of, set_bit-add, pow-suc}

word_at : ℕ → PHash → ℕ
word_at zero (w0, w1, w2, w3) = w0
word_at (suc zero) (w0, w1, w2, w3) = w1
word_at (suc (suc zero)) (w0, w1, w2, w3) = w2
word_at (suc (suc (suc k))) (w0, w1, w2, w3) = w3

with_word : ℕ → ℕ → PHash → PHash
with_word zero v (w0, w1, w2, w3) = (v, w1, w2, w3)
with_word (suc zero) v (w0, w1, w2, w3) = (w0, v, w2, w3)
with_word (suc (suc zero)) v (w0, w1, w2, w3) = (w0, w1, v, w3)
with_word (suc (suc (suc k))) v (w0, w1, w2, w3) = (w0, w1, w2, v)

word_at-with_word : (k v : ℕ) (r : PHash) → word_at k (with_word k v r) ≡ v
unfolding word_at with_word
word_at-with_word zero v (w0, w1, w2, w3) = refl
word_at-with_word (suc zero) v (w0, w1, w2, w3) = refl
word_at-with_word (suc (suc zero)) v (w0, w1, w2, w3) = refl
word_at-with_word (suc (suc (suc k))) v (w0, w1, w2, w3) = refl

with_word-with_word : (k u v : ℕ) (r : PHash) → with_word k v (with_word k u r) ≡ with_word k v r
unfolding with_word
with_word-with_word zero u v (w0, w1, w2, w3) = refl
with_word-with_word (suc zero) u v (w0, w1, w2, w3) = refl
with_word-with_word (suc (suc zero)) u v (w0, w1, w2, w3) = refl
with_word-with_word (suc (suc (suc k))) u v (w0, w1, w2, w3) = refl

with_word-word_at : (k : ℕ) (r : PHash) → with_word k (word_at k r) r ≡ r
unfolding word_at with_word
with_word-word_at zero (w0, w1, w2, w3) = refl
with_word-word_at (suc zero) (w0, w1, w2, w3) = refl
with_word-word_at (suc (suc zero)) (w0, w1, w2, w3) = refl
with_word-word_at (suc (suc (suc k))) (w0, w1, w2, w3) = refl

set_in_lem :
    (k b : ℕ) (r : PHash) → k < 4 → set_in k b r ≡ some (with_word k (set_bit (word_at k r) b) r)
unfolding set_in with_word word_at
set_in_lem zero b (w0, w1, w2, w3) h = refl
set_in_lem (suc zero) b (w0, w1, w2, w3) h = refl
set_in_lem (suc (suc zero)) b (w0, w1, w2, w3) h = refl
set_in_lem (suc (suc (suc zero))) b (w0, w1, w2, w3) h = refl
set_in_lem (suc (suc (suc (suc k)))) b r h = absurd (omega arith)

-- A round for an answer that is true, at place `j` of word `k`, with `n` places behind it.
set_here :
    (k j n q : ℕ) (r : PHash)
    → k < 4
    → j + suc n ≡ 64
    → word_at k r ≡ q * 2 ^ suc n
    → set_in ((64 * k + j) / 64) (63 - (64 * k + j) % 64) r
      ≡ some (with_word k ((2 * q + 1) * 2 ^ n) r)
set_here k j n q r h e w =
    let d : (64 * k + j) / 64 ≡ k = omega arith in
    let m : 63 - (64 * k + j) % 64 ≡ n = omega arith in
    let v : set_bit (word_at k r) n ≡ (2 * q + 1) * 2 ^ n =
      ap (λ x. set_bit x n) w ∙ (set_bit-add q n ∙ grind (arith, pow-suc n)) in
    ap (λ x. set_in x (63 - (64 * k + j) % 64) r) d
    ∙ (ap (λ x. set_in k x r) m ∙ (set_in_lem k n r h ∙ ap (λ x. some (with_word k x r)) v))

-- The answers of one word, and what follows them.
pack_word :
    (k j q : ℕ) (cs ds : List Bool) (r : PHash)
    → k < 4
    → j + length cs ≡ 64
    → word_at k r ≡ q * 2 ^ length cs
    → pack (64 * k + j) (cs ++ ds) r
      ≡ pack (64 * (k + 1)) ds (with_word k (q * 2 ^ length cs + word_of cs) r)
unfolding pack word_of
pack_word k j q [] ds r h e w =
    let i : 64 * k + j ≡ 64 * (k + 1) = omega arith in
    let v : q * 2 ^ 0 + 0 ≡ word_at k r = omega (arith, w) in
    ap (λ x. pack x ds r) i
    ∙ ap (pack (64 * (k + 1)) ds) (sym (ap (λ x. with_word k x r) v ∙ with_word-word_at k r))
pack_word k j q (true ∷ cs) ds r h e w =
    let n = length cs in
    let s = with_word k ((2 * q + 1) * 2 ^ n) r in
    let i : suc (64 * k + j) ≡ 64 * k + suc j = omega arith in
    let rest =
      pack_word k (suc j) (2 * q + 1) cs ds s h (omega arith)
        (word_at-with_word k ((2 * q + 1) * 2 ^ n) r) in
    let v : (2 * q + 1) * 2 ^ n + word_of cs ≡ q * 2 ^ suc n + (2 ^ n + word_of cs) =
      grind (arith, pow-suc n) in
    ap (λ o. continue_with o (pack (suc (64 * k + j)) (cs ++ ds))) (set_here k j n q r h e w)
    ∙ (ap (λ x. pack x (cs ++ ds) s) i
        ∙ (rest
            ∙ ap (pack (64 * (k + 1)) ds)
                (with_word-with_word k _ _ r ∙ ap (λ x. with_word k x r) v)))
pack_word k j q (false ∷ cs) ds r h e w =
    let n = length cs in
    let i : suc (64 * k + j) ≡ 64 * k + suc j = omega arith in
    let w' : word_at k r ≡ 2 * q * 2 ^ n = grind (arith, pow-suc n, w) in
    let v : 2 * q * 2 ^ n + word_of cs ≡ q * 2 ^ suc n + (0 + word_of cs) =
      grind (arith, pow-suc n) in
    ap (λ x. pack x (cs ++ ds) r) i
    ∙ (pack_word k (suc j) (2 * q) cs ds r h (omega arith) w'
        ∙ ap (λ x. pack (64 * (k + 1)) ds (with_word k x r)) v)

pack_fresh :
    (k : ℕ) (cs ds : List Bool) (r : PHash)
    → k < 4
    → length cs ≡ 64
    → word_at k r ≡ 0
    → pack (64 * k) (cs ++ ds) r ≡ pack (64 * (k + 1)) ds (with_word k (word_of cs) r)
pack_fresh k cs ds r h e w =
    let i : 64 * k ≡ 64 * k + 0 = omega arith in
    let v : 0 * 2 ^ length cs + word_of cs ≡ word_of cs = grind arith in
    let w' : word_at k r ≡ 0 * 2 ^ length cs = grind (arith, w) in
    ap (λ x. pack x (cs ++ ds) r) i
    ∙ (pack_word k 0 0 cs ds r h (omega (arith, e)) w'
        ∙ ap (λ x. pack (64 * (k + 1)) ds (with_word k x r)) v)

-- The four words of 256 answers.
pub pack-words :
    (a b c d : List Bool)
    → length a ≡ 64
    → length b ≡ 64
    → length c ≡ 64
    → length d ≡ 64
    → pack 0 (a ++ (b ++ (c ++ (d ++ [])))) (0, 0, 0, 0)
      ≡ some (word_of a, word_of b, word_of c, word_of d)
unfolding with_word word_at
pack-words a b c d ha hb hc hd =
    pack_fresh 0 a (b ++ (c ++ (d ++ []))) (0, 0, 0, 0) (omega arith) ha refl
    ∙ (pack_fresh 1 b (c ++ (d ++ [])) (word_of a, 0, 0, 0) (omega arith) hb refl
        ∙ (pack_fresh 2 c (d ++ []) (word_of a, word_of b, 0, 0) (omega arith) hc refl
            ∙ (pack_fresh 3 d [] (word_of a, word_of b, word_of c, 0) (omega arith) hd refl
                ∙ unfold pack in refl)))
