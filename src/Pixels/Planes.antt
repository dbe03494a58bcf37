-- ===== src/Pixels/Planes.antt =====
-- The conversion of RGB to YUV420 (src/worker/src/avif.rs): no index out of bounds, the planes' sizes,
-- and the range of their bytes.
use ginbar.Prelude.{
  ℕ, zero, suc, ◌+◌, ◌*◌, ◌/◌, ◌<◌, ◌≤◌, ◌≡◌, refl, ap, ◌∙◌, Option, none, some, List, [], ◌∷◌,
  ◌++◌, arith, length, length-append, get_elem?, All,
}
use ginbar.Pixels.{Plane, pixel_at, line, grid, block_at, and_then, Rgb}

-- A cell lies within its rows.
pub cell_lt : (row col w h : ℕ) → row < h → col < w → row * w + col < h * w
cell_lt row col w h r c = grind arith

get_elem?-some : (xs : List ℕ) (i : ℕ) → i < length xs → (x : ℕ) × (get_elem? xs i ≡ some x)
get_elem?-some [] i h = absurd (omega arith)
get_elem?-some (x ∷ xs) zero h = (x, refl)
get_elem?-some (x ∷ xs) (suc i) h = get_elem?-some xs i (omega arith)

-- A result that is there and fulfils a predicate.
abbrev pub Yields : {A : Type 0} → (A → Type 0) → Option A → Type 0
Yields {A} P o = (x : A) × (o ≡ some x) × P x

pub and_then-Yields :
    {A B : Type 0} (P : A → Type 0) (Q : B → Type 0) (o : Option A) (f : A → Option B)
    → Yields P o
    → ((x : A) → P x → Yields Q (f x))
    → Yields Q (and_then o f)
and_then-Yields P Q none f (x, e, p) k = cc
and_then-Yields P Q (some a) f (x, e, p) k =
    let (y, e', q) = k x p in (y, ap (λ r. and_then r f) e ∙ e', q)

pub pixel_at-Yields :
    (raw : List ℕ) (w h row col : ℕ)
    → length raw ≡ h * w * 3
    → row < h
    → col < w
    → Yields (λ p. Unit {0}) (pixel_at raw w row col)
unfolding pixel_at
pixel_at-Yields raw w h row col len r c =
    let cell = cell_lt row col w h r c in
    let (x, e) = get_elem?-some raw ((row * w + col) * 3) (omega (arith, cell, len)) in
    let (y, f) = get_elem?-some raw ((row * w + col) * 3 + 1) (omega (arith, cell, len)) in
    let (z, g) = get_elem?-some raw ((row * w + col) * 3 + 2) (omega (arith, cell, len)) in
    ((x, y, z), ground (arith, e, f, g), tt)

pub block_at-Yields :
    (raw : List ℕ) (w h cy cx : ℕ)
    → length raw ≡ h * w * 3
    → cy < h / 2
    → cx < w / 2
    → Yields (λ p. Unit {0}) (block_at raw w cy cx)
unfolding block_at
block_at-Yields raw w h cy cx len r c =
    let T = λ (p : Rgb). Unit {0} in
    and_then-Yields T T (pixel_at raw w (cy * 2) (cx * 2)) _
      (pixel_at-Yields raw w h (cy * 2) (cx * 2) len (omega arith) (omega arith))
      λ p _.
        and_then-Yields T T (pixel_at raw w (cy * 2) (cx * 2 + 1)) _
          (pixel_at-Yields raw w h (cy * 2) (cx * 2 + 1) len (omega arith) (omega arith))
          λ q _.
            and_then-Yields T T (pixel_at raw w (cy * 2 + 1) (cx * 2)) _
              (pixel_at-Yields raw w h (cy * 2 + 1) (cx * 2) len (omega arith) (omega arith))
              λ s _.
                and_then-Yields T T (pixel_at raw w (cy * 2 + 1) (cx * 2 + 1)) _
                  (pixel_at-Yields raw w h (cy * 2 + 1) (cx * 2 + 1) len (omega arith)
                    (omega arith))
                  λ t _. (_, refl, tt)

-- A plane of a given size whose bytes lie between two bounds.
abbrev pub IsPlane : ℕ → ℕ → ℕ → Plane → Type 0
IsPlane size low high xs = (length xs ≡ size) × All (λ x. (low ≤ x) × (x ≤ high)) xs

module _ (low high : ℕ) where
  All-append :
      (xs ys : Plane)
      → All (λ x. (low ≤ x) × (x ≤ high)) xs
      → All (λ x. (low ≤ x) × (x ≤ high)) ys
      → All (λ x. (low ≤ x) × (x ≤ high)) (xs ++ ys)
  All-append [] ys a b = b
  All-append (x ∷ xs) ys a b = (a.0, All-append xs ys a.1 b)

  line-Yields :
      (f : ℕ → Option ℕ) (col n w : ℕ)
      → col + n ≡ w
      → ((c : ℕ) → c < w → Yields (λ x. (low ≤ x) × (x ≤ high)) (f c))
      → Yields (IsPlane n low high) (line f col n)
  unfolding line
  line-Yields f col zero w e k = ([], refl, (refl, tt))
  line-Yields f col (suc n) w e k =
      and_then-Yields (λ x. (low ≤ x) × (x ≤ high)) (IsPlane (suc n) low high) (f col) _
        (k col (omega arith))
        λ x b.
          and_then-Yields (IsPlane n low high) (IsPlane (suc n) low high) (line f (suc col) n) _
            (line-Yields f (suc col) n w (omega arith) k)
            λ xs p. (x ∷ xs, refl, (ap suc p.0, (b, p.1)))

  pub grid-Yields :
      (f : ℕ → ℕ → Option ℕ) (w row n h : ℕ)
      → row + n ≡ h
      → ((r c : ℕ) → r < h → c < w → Yields (λ x. (low ≤ x) × (x ≤ high)) (f r c))
      → Yields (IsPlane (n * w) low high) (grid f w row n)
  unfolding grid
  grid-Yields f w row zero h e k = ([], refl, (omega arith, tt))
  grid-Yields f w row (suc n) h e k =
      and_then-Yields (IsPlane w low high) (IsPlane (suc n * w) low high) (line (f row) 0 w) _
        (line-Yields (f row) 0 w w (omega arith) λ c lt. k row c (omega arith) lt)
        λ xs p.
          and_then-Yields (IsPlane (n * w) low high) (IsPlane (suc n * w) low high)
            (grid f w (suc row) n) _ (grid-Yields f w (suc row) n h (omega arith) k)
            λ ys q. (
              xs ++ ys,
              refl,
              (grind (arith, length-append xs ys, p.0, q.0), All-append xs ys p.1 q.1),
            )
