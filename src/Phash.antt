-- ===== src/Phash.antt =====
-- The perceptual hash, `compute_phash` of src/worker/src/processing.rs: the cosine transform, the
-- median and the packing of 256 comparisons into four words. The `f64` operations are parameters.
pub mod Bits
pub mod Words
pub mod Chunks
pub mod Packing
use ginbar.Prelude.{
  ℕ, zero, suc, ◌+◌, ◌-◌, ◌*◌, ◌/◌, ◌%◌, ◌^◌, Bool, true, false, Option, none, some, List, [], ◌∷◌,
  ◌++◌, map, ◌==◌, if◌then◌else◌, get_or, take, drop, replicate,
}
use ginbar.Pipeline.{PHash}

pub record Reals : Type 1 where
  pub Real : Type 0
  pub zero_real : Real
  pub add : Real → Real → Real
  -- A grey byte `as f64`.
  pub of_byte : ℕ → Real
  -- `v * (PI / (2.0 * n as f64) * k as f64 * (2 * x + 1) as f64).cos()`, from `n`, `k`, `x` and `v`.
  pub term : ℕ → ℕ → ℕ → Real → Real
  -- `(a + b) / 2.0`
  pub mean : Real → Real → Real
  -- `a > b`
  pub gt : Real → Real → Bool
  -- `a.partial_cmp(b).unwrap_or(Equal)` is not `Greater`.
  pub le : Real → Real → Bool

-- The numbers from `i` on.
unfoldable pub range_from : ℕ → ℕ → List ℕ
range_from i zero = []
range_from i (suc n) = i ∷ range_from (suc i) n

-- `word |= 1i64 << b`, on the bit pattern of the word.
unfoldable pub set_bit : ℕ → ℕ → ℕ
set_bit word b = if word / 2 ^ b % 2 == 1 then word else word + 2 ^ b

-- `result[array_idx] |= 1i64 << bit_idx`; an index of 4 or more is a panic.
unfoldable pub set_in : ℕ → ℕ → PHash → Option PHash
unfolding set_bit
set_in zero b (w0, w1, w2, w3) = some (set_bit w0 b, w1, w2, w3)
set_in (suc zero) b (w0, w1, w2, w3) = some (w0, set_bit w1 b, w2, w3)
set_in (suc (suc zero)) b (w0, w1, w2, w3) = some (w0, w1, set_bit w2 b, w3)
set_in (suc (suc (suc zero))) b (w0, w1, w2, w3) = some (w0, w1, w2, set_bit w3 b)
set_in (suc (suc (suc (suc n)))) b r = none

abbrev pub continue_with : Option PHash → (PHash → Option PHash) → Option PHash
continue_with none f = none
continue_with (some r) f = f r

-- The loop over the coefficients: from index `i` on, each with the answer of `c > median`.
unfoldable pub pack : ℕ → List Bool → PHash → Option PHash
unfolding set_in
pack i [] r = some r
pack i (true ∷ cs) r = continue_with (set_in (i / 64) (63 - i % 64) r) (pack (suc i) cs)
pack i (false ∷ cs) r = pack (suc i) cs r

module _ (reals : Reals) where
  open reals use {Real, zero_real, add, of_byte, term, mean, gt, le}

  -- `sum += v * …` over the input, from index `x` on.
  unfoldable pub dct_sum : ℕ → ℕ → ℕ → List Real → Real → Real
  dct_sum n k x [] sum = sum
  dct_sum n k x (v ∷ vs) sum = dct_sum n k (suc x) vs (add sum (term n k x v))

  -- The first `k_max` coefficients of an input of `n` numbers.
  unfoldable pub dct1d_partial : ℕ → ℕ → List Real → List Real
  unfolding dct_sum range_from
  dct1d_partial n k_max input = map (λ k. dct_sum n k 0 input zero_real) (range_from 0 k_max)

  unfoldable pub insert : Real → List Real → List Real
  insert x [] = x ∷ []
  insert x (y ∷ ys) = if le x y then x ∷ y ∷ ys else y ∷ insert x ys

  -- `sort_by`, which is stable.
  unfoldable pub sort : List Real → List Real
  unfolding insert
  sort [] = []
  sort (x ∷ xs) = insert x (sort xs)

  unfoldable pub median_of_256 : List Real → Real
  unfolding sort
  median_of_256 values =
      mean (get_or (sort values) 127 zero_real) (get_or (sort values) 128 zero_real)

  -- The transform of each row, of `w` grey bytes: `dct_rows`.
  unfoldable pub transform_rows : ℕ → ℕ → List ℕ → List (List Real)
  unfolding dct1d_partial
  transform_rows w zero bytes = []
  transform_rows w (suc n) bytes =
      dct1d_partial w 16 (map of_byte (take w bytes)) ∷ transform_rows w n (drop w bytes)

  -- The transform of column `x`: `col_out`.
  unfoldable pub transform_column : List (List Real) → ℕ → List Real
  unfolding dct1d_partial
  transform_column rows x = dct1d_partial 256 16 (map (λ row. get_or row x zero_real) rows)

  unfoldable pub by_rows : List (List Real) → List ℕ → List Real
  by_rows columns [] = []
  by_rows columns (y ∷ ys) = map (λ c. get_or c y zero_real) columns ++ by_rows columns ys

  -- `coeffs`, row by row: entry `y` of each column's transform.
  unfoldable pub coefficients : List ℕ → List Real
  unfolding transform_rows transform_column range_from by_rows
  coefficients bytes =
      let columns = map (transform_column (transform_rows 256 256 bytes)) (range_from 0 16) in
      by_rows columns (range_from 0 16)

  unfoldable pub above_median : List Real → List Bool
  unfolding median_of_256
  above_median coeffs = let m = median_of_256 coeffs in map (λ c. gt c m) coeffs

  -- The hash of the 256 × 256 grey bytes that the image is resized to.
  unfoldable pub compute_phash : List ℕ → Option PHash
  unfolding coefficients above_median pack
  compute_phash bytes = pack 0 (above_median (coefficients bytes)) (0, 0, 0, 0)
