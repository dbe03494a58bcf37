-- ===== src/Saliency/Energy.antt =====
-- `region_gradient_energy` of src/worker/src/processing.rs: within an image its loops end, no pixel is
-- read outside, and the sum is bounded.
use ginbar.Prelude.{
  ℕ, zero, suc, ◌+◌, ◌-◌, ◌*◌, ◌≤◌, ◌<◌, ◌≡◌, refl, inl, inr, Bool-cases, List, [], ◌∷◌, arith, ltb,
  get_elem?, length, All,
}
use ginbar.Pixels.Planes.{Yields, cell_lt}
use ginbar.Saliency.{
  Gray, neighbour, get, square_diff, gradient, energy_row, energy_rows, region_gradient_energy,
}

-- A grey image has a byte for each of its pixels.
pub record IsImage (gray : Gray) : Type 0 where
  pub sized : length gray.bytes ≡ gray.height * gray.width
  pub bytes : All (λ b. b < 256) gray.bytes

byte_at :
    (xs : List ℕ) (i : ℕ)
    → All (λ b. b < 256) xs
    → i < length xs
    → Yields (λ b. b < 256) (get_elem? xs i)
byte_at [] i a h = absurd (omega arith)
byte_at (x ∷ xs) zero a h = (x, refl, a.0)
byte_at (x ∷ xs) (suc i) a h = byte_at xs i a.1 (omega arith)

neighbour-lt : (x k size : ℕ) → x < size → neighbour x k size < size
unfolding neighbour
neighbour-lt x k size h = omega arith

get-Yields :
    (gray : Gray) (x y i j : ℕ)
    → IsImage gray
    → x < gray.width
    → y < gray.height
    → Yields (λ b. b < 256) (get gray x y i j)
unfolding get
get-Yields gray x y i j s h k =
    let cell =
      cell_lt (neighbour y j gray.height) (neighbour x i gray.width) gray.width gray.height
        (neighbour-lt y j gray.height k) (neighbour-lt x i gray.width h) in
    byte_at gray.bytes (neighbour y j gray.height * gray.width + neighbour x i gray.width) s.bytes
      (omega (arith, s.sized, cell))

mul_mono : (d : ℕ) → d ≤ 1020 → d * d ≤ 1040400
mul_mono d h = grind arith

square_diff-le : (a b : ℕ) → a ≤ 1020 → b ≤ 1020 → square_diff a b ≤ 1040400
unfolding square_diff
square_diff-le a b h k = mul_mono (a - b + (b - a)) (omega arith)

-- The greatest energy of a pixel, twice the square of 1020.
abbrev pub pixel_bound : ℕ
pixel_bound = 2080800

module _ (gray : Gray) (s : IsImage gray) where
  gradient-Yields :
      (x y : ℕ)
      → x < gray.width
      → y < gray.height
      → Yields (λ g. g ≤ pixel_bound) (gradient gray x y)
  unfolding gradient
  gradient-Yields x y h k =
      let (ne, e0, l0) = get-Yields gray x y 2 0 s h k in
      let (e, e1, l1) = get-Yields gray x y 2 1 s h k in
      let (se, e2, l2) = get-Yields gray x y 2 2 s h k in
      let (nw, e3, l3) = get-Yields gray x y 0 0 s h k in
      let (w, e4, l4) = get-Yields gray x y 0 1 s h k in
      let (sw, e5, l5) = get-Yields gray x y 0 2 s h k in
      let (so, e6, l6) = get-Yields gray x y 1 2 s h k in
      let (n, e7, l7) = get-Yields gray x y 1 0 s h k in
      let a = square_diff (ne + 2 * e + se) (nw + 2 * w + sw) in
      let b = square_diff (sw + 2 * so + se) (nw + 2 * n + ne) in
      (
        a + b,
        rw (e0, e1, e2, e3, e4, e5, e6, e7) refl,
        omega (
          arith,
          square_diff-le (ne + 2 * e + se) (nw + 2 * w + sw) (omega arith) (omega arith),
          square_diff-le (sw + 2 * so + se) (nw + 2 * n + ne) (omega arith) (omega arith),
        ),
      )

  module _ (step : ℕ) (forward : 0 < step) where
    energy_row-Yields :
        (end y : ℕ)
        → end ≤ gray.width
        → y < gray.height
        → (fuel x energy : ℕ) → end ≤ x + fuel
        → Yields
            (λ e. e ≤ energy + pixel_bound * (end - x))
            (energy_row gray end step y (suc fuel) x energy)
    unfolding energy_row
    energy_row-Yields end y he hy zero x energy h = (energy, ground arith, omega arith)
    energy_row-Yields end y he hy (suc fuel) x energy h = elim (Bool-cases (ltb x end)) [
      | inl t ↦
          let lt : x < end = ground arith in
          let (g, e, l) = gradient-Yields x y (omega arith) hy in
          let (r, e', l') =
            energy_row-Yields end y he hy fuel (x + step) (energy + g) (omega arith) in
          (r, ground (arith, e, e'), omega arith)
      | inr t ↦ (energy, ground arith, omega arith)
    ]

    mul_step : (k a b : ℕ) → suc b ≤ a → k + k * b ≤ k * a
    mul_step k a b h = grind arith

    energy_rows-Yields :
        (rx end_x end_y : ℕ)
        → end_x ≤ gray.width
        → end_y ≤ gray.height
        → (fuel y energy : ℕ) → end_y ≤ y + fuel
        → Yields
            (λ e. e ≤ energy + pixel_bound * (end_x - rx) * (end_y - y))
            (energy_rows gray rx end_x end_y step (suc fuel) y energy)
    unfolding energy_rows
    energy_rows-Yields rx end_x end_y hx hy zero y energy h = (energy, ground arith, omega arith)
    energy_rows-Yields rx end_x end_y hx hy (suc fuel) y energy h =
        elim (Bool-cases (ltb y end_y)) [
          | inl t ↦
              let lt : y < end_y = ground arith in
              let (e, q, l) =
                energy_row-Yields end_x y hx (omega arith) (end_x - rx) rx energy (omega arith) in
              let (r, q', l') =
                energy_rows-Yields rx end_x end_y hx hy fuel (y + step) e (omega arith) in
              let k =
                mul_step (pixel_bound * (end_x - rx)) (end_y - y) (end_y - (y + step))
                  (omega arith) in
              (r, ground (arith, q, q'), omega (arith, l, l', k))
          | inr t ↦ (energy, ground arith, omega arith)
        ]

-- For a region in a grey image, and a step of at least 1: the loops come to an end, every pixel is
-- there, and the energy is at most 2,080,800 for each pixel of the region.
pub region_gradient_energy-Yields :
    (gray : Gray) (rx ry width rh step : ℕ)
    → IsImage gray
    → 0 < step
    → rx + width ≤ gray.width
    → ry + rh ≤ gray.height
    → Yields
        (λ energy. energy ≤ pixel_bound * width * rh)
        (region_gradient_energy gray rx ry width rh step)
unfolding region_gradient_energy
region_gradient_energy-Yields gray rx ry width rh step s p h k =
    let (e, q, l) =
      energy_rows-Yields gray s step p rx (rx + width) (ry + rh) h k rh ry 0 (omega arith) in
    let a : rx + width - rx ≡ width = omega arith in
    let b : ry + rh - ry ≡ rh = omega arith in
    let c : pixel_bound * (rx + width - rx) * (ry + rh - ry) ≡ pixel_bound * width * rh =
      rw (a, b) refl in
    (e, q, omega (arith, l, c))
