-- ===== src/Phash/Packing.antt =====
-- The hash of src/worker/src/processing.rs as its 256 answers: the words that hold them, and the
-- distance of two hashes.
use ginbar.Prelude.{
  ℕ, zero, suc, ◌+◌, ◌*◌, ◌<◌, ◌≡◌, refl, sym, ap, ◌∙◌, Bool, some, List, [], ◌∷◌, map, arith,
  length, length-append, get_or,
}
use ginbar.Database.{Post, hamming_distance}
use ginbar.Database.Hamming.{distance64}
use ginbar.Pipeline.{PHash}
use ginbar.Phash.{
  Reals, range_from, by_rows, coefficients, transform_rows, transform_column, median_of_256,
  above_median, compute_phash,
}
use ginbar.Phash.Bits.{word_of, differences, distance64-word_of, differences-append}
use ginbar.Phash.Chunks.{chunk, chunks, chunks_lem, length-chunk, pack_all}

length-map : {A B : Type 0} (f : A → B) (xs : List A) → length (map f xs) ≡ length xs
length-map f [] = refl
length-map f (x ∷ xs) = ap suc (length-map f xs)

length-range_from : (i n : ℕ) → length (range_from i n) ≡ n
unfolding range_from
length-range_from i zero = refl
length-range_from i (suc n) = ap suc (length-range_from (suc i) n)

module _ (reals : Reals) where
  open reals use {Real}

  length-by_rows :
      (columns : List (List Real)) (ys : List ℕ)
      → length (by_rows reals columns ys) ≡ length ys * length columns
  unfolding by_rows
  length-by_rows columns [] = omega arith
  length-by_rows columns (y ∷ ys) =
      let row = λ (c : List Real). get_or c y reals.zero_real in
      grind (
        arith,
        length-append (map row columns) (by_rows reals columns ys),
        length-map row columns,
        length-by_rows columns ys,
      )

  length-above_median :
      (bytes : List ℕ) → length (above_median reals (coefficients reals bytes)) ≡ 256
  unfolding above_median coefficients
  length-above_median bytes =
      let columns =
        map (transform_column reals (transform_rows reals 256 256 bytes)) (range_from 0 16) in
      let coeffs = by_rows reals columns (range_from 0 16) in
      length-map (λ c. reals.gt c (median_of_256 reals coeffs)) coeffs
      ∙ (length-by_rows columns (range_from 0 16)
          ∙ omega (
            arith,
            length-range_from 0 16,
            length-map (transform_column reals (transform_rows reals 256 256 bytes))
                (range_from 0 16),
          ))

-- For every image, the hash is there, and its words hold the 256 answers of the comparison with the
-- median, 64 in each, the first in the highest bit.
pub compute_phash-words :
    (reals : Reals) (bytes : List ℕ)
    → let answers = above_median reals (coefficients reals bytes) in
      compute_phash reals bytes
      ≡ some (
        word_of (chunk 0 answers),
        word_of (chunk 1 answers),
        word_of (chunk 2 answers),
        word_of (chunk 3 answers),
      )
unfolding compute_phash
compute_phash-words reals bytes =
    pack_all (above_median reals (coefficients reals bytes)) (length-above_median reals bytes)

abbrev hash_distance : PHash → PHash → ℕ
hash_distance (a, b, c, d) (a', b', c', d') =
    distance64 a a' + distance64 b b' + distance64 c c' + distance64 d d'

differences-chunks :
    (xs ys : List Bool)
    → length xs ≡ 256
    → length ys ≡ 256
    → differences (chunk 0 xs) (chunk 0 ys)
        + differences (chunk 1 xs) (chunk 1 ys)
        + differences (chunk 2 xs) (chunk 2 ys)
        + differences (chunk 3 xs) (chunk 3 ys)
      ≡ differences xs ys
differences-chunks xs ys h k =
    let c = λ (n : ℕ) (l : n < 4). length-chunk n xs h l ∙ sym (length-chunk n ys k l) in
    let whole =
      ap (λ z. differences z (chunks ys)) (chunks_lem xs h)
      ∙ ap (differences xs) (chunks_lem ys k) in
    omega (
      arith,
      whole,
      differences-append (chunk 0 xs) (chunk 0 ys) _ _ (c 0 (omega arith)),
      differences-append (chunk 1 xs) (chunk 1 ys) _ _ (c 1 (omega arith)),
      differences-append (chunk 2 xs) (chunk 2 ys) _ _ (c 2 (omega arith)),
      differences-append (chunk 3 xs) (chunk 3 ys) _ _ (c 3 (omega arith)),
      nothing_left,
    )
  where
    nothing_left : differences [] [] ≡ 0
    nothing_left = unfold differences in refl

distance_lem :
    (reals : Reals) (bytes bytes' : List ℕ) (p q : PHash)
    → compute_phash reals bytes ≡ some p
    → compute_phash reals bytes' ≡ some q
    → hash_distance p q
      ≡ differences
          (above_median reals (coefficients reals bytes))
          (above_median reals (coefficients reals bytes'))
distance_lem reals bytes bytes' p q h k =
    let xs = above_median reals (coefficients reals bytes) in
    let ys = above_median reals (coefficients reals bytes') in
    let lx = length-above_median reals bytes in
    let ly = length-above_median reals bytes' in
    let e = is_hash (sym h ∙ compute_phash-words reals bytes) in
    let f = is_hash (sym k ∙ compute_phash-words reals bytes') in
    let d = λ (n : ℕ) (l : n < 4).
      distance64-word_of (chunk n xs) (chunk n ys) (length-chunk n xs lx l)
        (length-chunk n ys ly l) in
    ap (λ r. hash_distance r q) e
    ∙ (ap (hash_distance _) f
        ∙ (omega (arith, d 0 (omega arith), d 1 (omega arith), d 2 (omega arith), d 3 (omega arith))
            ∙ differences-chunks xs ys lx ly))
  where
    is_hash : {x y : PHash} → some x ≡ some y → x ≡ y
    is_hash h = cc

-- The distance by which the duplicate check compares an image with a post is the number of places at
-- which one has its coefficient above its median and the other has not, where the post holds the hash
-- of its image.
pub distance-compute_phash :
    (reals : Reals) (bytes bytes' : List ℕ) (h0 h1 h2 h3 : ℕ) (post : Post)
    → compute_phash reals bytes ≡ some (h0, h1, h2, h3)
    → compute_phash reals bytes' ≡ some (post.p_hash_0, post.p_hash_1, post.p_hash_2, post.p_hash_3)
    → hamming_distance h0 h1 h2 h3 post
      ≡ differences
          (above_median reals (coefficients reals bytes))
          (above_median reals (coefficients reals bytes'))
unfolding hamming_distance
distance-compute_phash reals bytes bytes' h0 h1 h2 h3 post =
    distance_lem reals bytes bytes' (h0, h1, h2, h3)
      (post.p_hash_0, post.p_hash_1, post.p_hash_2, post.p_hash_3)
