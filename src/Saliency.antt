-- ===== src/Saliency.antt =====
-- The content-aware square of a thumbnail: `smart_crop` and `region_gradient_energy` of
-- src/worker/src/processing.rs. A grey image is its bytes, row by row, with its width and height;
-- `none` is a panic, or a loop that is out of fuel. The `f32` scaling is a parameter.
pub mod Energy
pub mod Search
pub mod Crop
use ginbar.Prelude.{
  ℕ, zero, suc, ◌+◌, ◌-◌, ◌*◌, ◌/◌, min, max, Bool, Option, none, some, List, ◌&&◌, ◌==◌, leb, ltb,
  if◌then◌else◌, get_elem?,
}
use ginbar.Pixels.{and_then}

pub record Gray : Type 0 where
  pub bytes : List ℕ
  pub width : ℕ
  pub height : ℕ

-- `(x as i32 + dx).clamp(0, iw as i32 - 1)` for `dx = k - 1`.
unfoldable pub neighbour : ℕ → ℕ → ℕ → ℕ
neighbour x k size = min (x + k - 1) (size - 1)

-- The closure `get` at `dx = i - 1` and `dy = j - 1`.
unfoldable pub get : Gray → ℕ → ℕ → ℕ → ℕ → Option ℕ
unfolding neighbour
get gray x y i j =
    get_elem? gray.bytes (neighbour y j gray.height * gray.width + neighbour x i gray.width)

-- `g * g` for `g = a - b`.
unfoldable pub square_diff : ℕ → ℕ → ℕ
square_diff a b = (a - b + (b - a)) * (a - b + (b - a))

-- The eight neighbours of a pixel by the kernels of Sobel: `gx * gx + gy * gy`.
unfoldable pub gradient : Gray → ℕ → ℕ → Option ℕ
unfolding get square_diff
gradient gray x y = and_then (get gray x y 2 0) λ ne. and_then (get gray x y 2 1) λ e.
    and_then (get gray x y 2 2) λ se. and_then (get gray x y 0 0) λ nw.
      and_then (get gray x y 0 1) λ w. and_then (get gray x y 0 2) λ sw.
        and_then (get gray x y 1 2) λ s. and_then (get gray x y 1 0) λ n. some (
          square_diff (ne + 2 * e + se) (nw + 2 * w + sw)
          + square_diff (sw + 2 * s + se) (nw + 2 * n + ne))

-- `while x < rx + rw`
unfoldable pub energy_row : Gray → ℕ → ℕ → ℕ → ℕ → ℕ → ℕ → Option ℕ
unfolding gradient
energy_row gray end step y zero x energy = none
energy_row gray end step y (suc fuel) x energy =
    let rest =
      and_then (gradient gray x y) λ g. energy_row gray end step y fuel (x + step) (energy + g) in
    if ltb x end then rest else some energy

-- `while y < ry + rh`
unfoldable pub energy_rows : Gray → ℕ → ℕ → ℕ → ℕ → ℕ → ℕ → ℕ → Option ℕ
unfolding energy_row
energy_rows gray rx end_x end_y step zero y energy = none
energy_rows gray rx end_x end_y step (suc fuel) y energy =
    let rest =
      and_then (energy_row gray end_x step y (suc (end_x - rx)) rx energy)
        λ e. energy_rows gray rx end_x end_y step fuel (y + step) e in
    if ltb y end_y then rest else some energy

unfoldable pub region_gradient_energy : Gray → ℕ → ℕ → ℕ → ℕ → ℕ → Option ℕ
unfolding energy_rows
region_gradient_energy gray rx ry rw rh step =
    energy_rows gray rx (rx + rw) (ry + rh) step (suc rh) ry 0

pub record Best : Type 0 where
  pub x : ℕ
  pub y : ℕ
  pub energy : ℕ

unfoldable pub better : ℕ → ℕ → ℕ → Best → Best
better x y energy best =
    if ltb best.energy energy then record { x = x; y = y; energy = energy } else best

-- A window of `crop_w` by `crop_h` in an image of `width` by `height`, and its energy by its corner.
pub record Windows : Type 0 where
  pub width : ℕ
  pub height : ℕ
  pub crop_w : ℕ
  pub crop_h : ℕ
  pub energy : ℕ → ℕ → Option ℕ

-- The inner loop, from `x_an` on.
unfoldable pub search_row : Windows → ℕ → ℕ → ℕ → Best → Option Best
unfolding better
search_row v y zero x best = none
search_row v y (suc fuel) x best =
    let round = and_then (v.energy x y) λ energy.
      let found = better x y energy best in
      let rest = search_row v y fuel (x + 2) found in
      if ltb v.width (x + 2 + v.crop_w) then some found else rest in
    if ltb v.width (x + v.crop_w) then some best else round

-- The outer loop, from `y_an` on.
unfoldable pub search_rows : Windows → ℕ → ℕ → Best → Option Best
unfolding search_row
search_rows v zero y best = none
search_rows v (suc fuel) y best =
    let round = and_then (search_row v y (suc v.width) 0 best) λ found.
      let rest = search_rows v fuel (y + 2) found in
      if ltb v.height (y + 2 + v.crop_h) then some found else rest in
    if ltb v.height (y + v.crop_h) then some best else round

-- The middle of the image is taken if no window has any energy.
unfoldable pub middle : Windows → Best
middle v = record { x = (v.width - v.crop_w) / 2; y = (v.height - v.crop_h) / 2; energy = 0 }

unfoldable pub search : Windows → Option Best
unfolding search_rows middle
search v = search_rows v (suc v.height) 0 (middle v)

-- The computations in `f32`, with `side` the longer side of the source.
pub record Scaling : Type 0 where
  -- `(n as f32 * (256.0 / side as f32).min(1.0)).round() as u32`
  pub to_analysis : ℕ → ℕ → ℕ
  -- `(n as f32 / (256.0 / side as f32).min(1.0)).round() as u32`
  pub from_analysis : ℕ → ℕ → ℕ
  -- The size of a crop that is no square: source, then target.
  pub fit : ℕ × ℕ → ℕ × ℕ → ℕ × ℕ

-- A part of an image: its corner and its size.
pub record Region : Type 0 where
  pub x : ℕ
  pub y : ℕ
  pub width : ℕ
  pub height : ℕ

unfoldable pub crop_size : Scaling → ℕ → ℕ → ℕ → ℕ → ℕ × ℕ
crop_size s src_w src_h target_w target_h =
    if target_w == target_h
    then (min src_w src_h, min src_w src_h)
    else s.fit (src_w, src_h) (target_w, target_h)

-- The analysis image: its size, the window's, and the energies of the windows.
unfoldable pub windows : Scaling → (ℕ → ℕ → List ℕ) → ℕ → ℕ → ℕ × ℕ → Windows
unfolding region_gradient_energy
windows s analyse src_w src_h crop =
    let side = max src_w src_h in
    let an_w = max (s.to_analysis side src_w) 1 in
    let an_h = max (s.to_analysis side src_h) 1 in
    let an_crop_w = min (max (s.to_analysis side crop.0) 1) an_w in
    let an_crop_h = min (max (s.to_analysis side crop.1) 1) an_h in
    record {
      width = an_w;
      height = an_h;
      crop_w = an_crop_w;
      crop_h = an_crop_h;
      energy = λ x y.
          region_gradient_energy (record { bytes = analyse an_w an_h; width = an_w; height = an_h })
            x y an_crop_w an_crop_h 2;
    }

unfoldable pub source_region : Scaling → ℕ → ℕ → ℕ × ℕ → Best → Region
source_region s src_w src_h crop best =
    let side = max src_w src_h in
    record {
      x = min (s.from_analysis side best.x) (src_w - crop.0);
      y = min (s.from_analysis side best.y) (src_h - crop.1);
      width = crop.0;
      height = crop.1;
    }

unfoldable pub smart_region : Scaling → (ℕ → ℕ → List ℕ) → ℕ → ℕ → ℕ × ℕ → Option Region
unfolding windows search source_region
smart_region s analyse src_w src_h crop =
    and_then (search (windows s analyse src_w src_h crop))
      λ best. some (source_region s src_w src_h crop best)

-- The part that `smart_crop` cuts out, `some none` for the image as it is. `analyse` is the image
-- resized to a width and a height, as grey bytes.
unfoldable pub smart_crop : Scaling → (ℕ → ℕ → List ℕ) → ℕ → ℕ → ℕ → ℕ → Option (Option Region)
unfolding crop_size smart_region
smart_crop s analyse src_w src_h target_w target_h =
    if leb src_w target_w && leb src_h target_h
    then some none
    else and_then (smart_region s analyse src_w src_h (crop_size s src_w src_h target_w target_h))
        λ region. some (some region)
