-- ===== src/Saliency/Crop.antt =====
-- `smart_crop` of src/worker/src/processing.rs as a whole: it succeeds, and the square that it cuts out
-- lies in the image.
use ginbar.Prelude.{
  ℕ, suc, ◌+◌, ◌*◌, ◌%◌, ◌≤◌, ◌<◌, ◌≡◌, refl, ap, subst, ◌⊎◌, inl, inr, min, Bool-cases, Option,
  none, some, List, arith, leb, ◌&&◌,
}
use ginbar.Pixels.{and_then}
use ginbar.Pixels.Planes.{Yields}
use ginbar.Saliency.{
  Best, Windows, Scaling, Region, middle, search, crop_size, windows, source_region, smart_region,
  smart_crop,
}
use ginbar.Saliency.Energy.{IsImage, pixel_bound, region_gradient_energy-Yields}
use ginbar.Saliency.Search.{Fits, IsWindow, search_rows-SweepsRows}

-- No window at an even corner has more energy than the one that was found, which fits. It is itself at
-- an even corner and was found with its own energy; or no window at an even corner has any energy, and
-- it is the middle one.
pub record IsBest (v : Windows) (energy : ℕ → ℕ → ℕ) (found : Best) : Type 0 where
  pub greatest : (i j : ℕ) → Fits v (2 * i) (2 * j) → energy (2 * i) (2 * j) ≤ found.energy
  pub fits : Fits v found.x found.y
  pub source :
      ((found.x % 2 ≡ 0) × (found.y % 2 ≡ 0) × (found.energy ≡ energy found.x found.y))
      ⊎ ((found ≡ middle v) × ((i j : ℕ) → Fits v (2 * i) (2 * j) → energy (2 * i) (2 * j) ≡ 0))

module _ (v : Windows) (energy : ℕ → ℕ → ℕ)
    (total : (x y : ℕ) → Fits v x y → v.energy x y ≡ some (energy x y)) where
  abbrev FromStart : Best → Type 0
  FromStart found = (found ≡ middle v) ⊎ IsWindow v energy total 0 found

  best-Fits :
      (found : Best)
      → v.crop_w ≤ v.width
      → v.crop_h ≤ v.height
      → FromStart found
      → Fits v found.x found.y
  unfolding middle
  best-Fits found h k (inl e) =
      let ex = ap (λ b. b.x) e in let ey = ap (λ b. b.y) e in (omega (arith, ex), omega (arith, ey))
  best-Fits found h k (inr (f, e, p, q)) = f

  found_source :
      (found : Best)
      → ((i j : ℕ) → Fits v (2 * i) (2 * j) → energy (2 * i) (2 * j) ≤ found.energy)
      → FromStart found
      → ((found.x % 2 ≡ 0) × (found.y % 2 ≡ 0) × (found.energy ≡ energy found.x found.y))
        ⊎ ((found ≡ middle v) × ((i j : ℕ) → Fits v (2 * i) (2 * j) → energy (2 * i) (2 * j) ≡ 0))
  unfolding middle
  found_source found greatest (inl e) =
      inr (e, λ i j k. omega (arith, greatest i j k, ap (λ b. b.energy) e))
  found_source found greatest (inr (f, e, p, q)) = inl (p, omega (arith, q), e)

  from_zero :
      (found : Best)
      → ((i j : ℕ) → Fits v (2 * i) (0 + 2 * j) → energy (2 * i) (0 + 2 * j) ≤ found.energy)
      → (i j : ℕ) → Fits v (2 * i) (2 * j)
      → energy (2 * i) (2 * j) ≤ found.energy
  from_zero found h i j k =
      let e : 0 + 2 * j ≡ 2 * j = omega arith in
      subst (λ z. energy (2 * i) z ≤ found.energy) e (h i j (k.0, omega (arith, k.1)))

-- Where the window is no larger than the analysis image, and has an energy wherever it lies in the
-- image, the search ends with a window in the image at an even corner that no other such window exceeds;
-- or, if those have no energy at all, with the window in the middle, at whatever corner.
pub search-IsBest :
    (v : Windows) (energy : ℕ → ℕ → ℕ)
    → v.crop_w ≤ v.width
    → v.crop_h ≤ v.height
    → ((x y : ℕ) → Fits v x y → v.energy x y ≡ some (energy x y))
    → Yields (IsBest v energy) (search v)
unfolding search
search-IsBest v energy h k total =
    let (found, q, s) =
      search_rows-SweepsRows v energy total (suc v.height) 0 (middle v) (omega arith)
        (omega arith) in
    let greatest = from_zero v energy total found s.covers in
    (
      found,
      q,
      record {
        greatest = greatest;
        fits = best-Fits v energy total found h k s.source;
        source = found_source v energy total found greatest s.source;
      },
    )

-- The image as it is, and it is small; or the square on its shorter side, within it, and it is not.
abbrev pub IsSquare : ℕ → ℕ → ℕ → Option Region → Type 0
IsSquare src_w src_h target none = (src_w ≤ target) × (src_h ≤ target)
IsSquare src_w src_h target (some r) =
    ((target < src_w) ⊎ (target < src_h))
    × (r.width ≡ min src_w src_h)
    × (r.height ≡ min src_w src_h)
    × (r.x + r.width ≤ src_w)
    × (r.y + r.height ≤ src_h)

abbrev or_nothing : Option ℕ → ℕ
or_nothing none = 0
or_nothing (some n) = n

module _ (s : Scaling) (analyse : ℕ → ℕ → List ℕ)
    (gray : (w h : ℕ) → IsImage (record { bytes = analyse w h; width = w; height = h })) where
  module _ (src_w src_h : ℕ) (crop : ℕ × ℕ) where
    abbrev v : Windows
    unfolding windows
    v = windows s analyse src_w src_h crop

    abbrev energy : ℕ → ℕ → ℕ
    unfolding windows
    energy x y = or_nothing (v.energy x y)

    is_there :
        (o : Option ℕ)
        → Yields (λ e. e ≤ pixel_bound * v.crop_w * v.crop_h) o
        → o ≡ some (or_nothing o)
    unfolding windows
    is_there none (e, q, l) = cc
    is_there (some n) (e, q, l) = refl

    all_there : (x y : ℕ) → Fits v x y → v.energy x y ≡ some (energy x y)
    unfolding windows
    all_there x y f = is_there (v.energy x y) (
        region_gradient_energy-Yields
          (record { bytes = analyse v.width v.height; width = v.width; height = v.height }) x y
          v.crop_w v.crop_h 2 (gray v.width v.height) (omega arith) f.0 f.1)

    found_window : Yields (IsBest v energy) (search v)
    unfolding windows
    found_window = search-IsBest v energy (omega arith) (omega arith) all_there

    region_lem :
        crop.0 ≤ src_w
        → crop.1 ≤ src_h
        → Yields
            (λ r.
              (r.width ≡ crop.0)
              × (r.height ≡ crop.1)
              × (r.x + r.width ≤ src_w)
              × (r.y + r.height ≤ src_h))
            (smart_region s analyse src_w src_h crop)
    unfolding smart_region source_region windows
    region_lem h k =
        let (best, q, b) = found_window in
        (
          source_region s src_w src_h crop best,
          ap (λ o. and_then o λ best. some (source_region s src_w src_h crop best)) q,
          (refl, refl, omega arith, omega arith),
        )

  -- Where the analysis image has a byte for each of its pixels, whatever its size, `smart_crop` succeeds
  -- for a square target: every pixel that it reads is there, and its loops end.
  -- Where it leaves the image as it is, both sides are no longer than the target. Where it cuts out a
  -- region, a side is longer than the target, and the region is a square on the shorter side, which lies
  -- within the image.
  pub smart_crop-IsSquare :
      (src_w src_h target : ℕ)
      → Yields (IsSquare src_w src_h target) (smart_crop s analyse src_w src_h target target)
  unfolding smart_crop crop_size
  smart_crop-IsSquare src_w src_h target =
      let side = min src_w src_h in
      let (r, q, a) = region_lem src_w src_h (side, side) (omega arith) (omega arith) in
      elim (Bool-cases (leb src_w target && leb src_h target)) [
        | inl e ↦ (none, ground arith, (ground arith, ground arith))
        | inr e ↦ (some r, ground (arith, q), (ground arith, a.0, a.1, a.2, a.3))
      ]
