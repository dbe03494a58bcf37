-- ===== src/Phash/Chunks.antt =====
-- The 256 answers of `compute_phash` (src/worker/src/processing.rs), cut into those of each word.
use ginbar.Prelude.{
  ℕ, zero, suc, ◌+◌, ◌*◌, ◌≤◌, ◌<◌, ◌≡◌, refl, sym, ap, ◌∙◌, Bool, some, List, [], ◌∷◌, ◌++◌, arith,
  length, take, drop, take-append-drop, length-take, length-drop,
}
use ginbar.Phash.{pack}
use ginbar.Phash.Bits.{word_of}
use ginbar.Phash.Words.{pack-words}

-- The answers for the places of word `k`.
unfoldable pub chunk : ℕ → List Bool → List Bool
chunk k cs = take 64 (drop (64 * k) cs)

drop-nil : (n : ℕ) → drop {A = Bool} n [] ≡ []
drop-nil zero = refl
drop-nil (suc n) = refl

drop-drop : (n m : ℕ) (cs : List Bool) → drop n (drop m cs) ≡ drop (m + n) cs
drop-drop n zero cs = ap (λ k. drop k cs) (omega arith)
drop-drop n (suc m) [] = drop-nil n ∙ sym (drop-nil (suc m + n))
drop-drop n (suc m) (c ∷ cs) =
    let e : suc (m + n) ≡ suc m + n = omega arith in drop-drop n m cs ∙ ap (λ k. drop k (c ∷ cs)) e

drop_all : (n : ℕ) (cs : List Bool) → length cs ≤ n → drop n cs ≡ []
drop_all zero [] h = refl
drop_all zero (c ∷ cs) h = absurd (omega arith)
drop_all (suc n) [] h = refl
drop_all (suc n) (c ∷ cs) h = drop_all n cs (omega arith)

pub length-chunk : (k : ℕ) (cs : List Bool) → length cs ≡ 256 → k < 4 → length (chunk k cs) ≡ 64
unfolding chunk
length-chunk k cs h l = omega (arith, length-take 64 (drop (64 * k) cs), length-drop (64 * k) cs)

chunk_rest : (k : ℕ) (cs : List Bool) → chunk k cs ++ drop (64 * (k + 1)) cs ≡ drop (64 * k) cs
unfolding chunk
chunk_rest k cs =
    let e : 64 * (k + 1) ≡ 64 * k + 64 = omega arith in
    ap (λ n. take 64 (drop (64 * k) cs) ++ drop n cs) e
    ∙ (ap (λ r. take 64 (drop (64 * k) cs) ++ r) (sym (drop-drop 64 (64 * k) cs))
        ∙ take-append-drop 64 (drop (64 * k) cs))

abbrev pub chunks : List Bool → List Bool
chunks cs = chunk 0 cs ++ (chunk 1 cs ++ (chunk 2 cs ++ (chunk 3 cs ++ [])))

pub chunks_lem : (cs : List Bool) → length cs ≡ 256 → chunks cs ≡ cs
chunks_lem cs h =
    let last : chunk 3 cs ++ [] ≡ drop 192 cs =
      ap (λ r. chunk 3 cs ++ r) (sym (drop_all 256 cs (omega arith))) ∙ chunk_rest 3 cs in
    ap (λ r. chunk 0 cs ++ (chunk 1 cs ++ (chunk 2 cs ++ r))) last
    ∙ (ap (λ r. chunk 0 cs ++ (chunk 1 cs ++ r)) (chunk_rest 2 cs)
        ∙ (ap (λ r. chunk 0 cs ++ r) (chunk_rest 1 cs) ∙ chunk_rest 0 cs))

-- The words that 256 answers are packed into.
pub pack_all :
    (cs : List Bool)
    → length cs ≡ 256
    → pack 0 cs (0, 0, 0, 0)
      ≡ some
          (word_of (chunk 0 cs), word_of (chunk 1 cs), word_of (chunk 2 cs), word_of (chunk 3 cs))
pack_all cs h =
    ap (λ r. pack 0 r (0, 0, 0, 0)) (sym (chunks_lem cs h))
    ∙ pack-words (chunk 0 cs) (chunk 1 cs) (chunk 2 cs) (chunk 3 cs)
        (length-chunk 0 cs h (omega arith)) (length-chunk 1 cs h (omega arith))
        (length-chunk 2 cs h (omega arith)) (length-chunk 3 cs h (omega arith))
