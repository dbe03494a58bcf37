-- ===== src/Processing/Slices.antt =====
-- The planes that the fast path of `process_image` (src/worker/src/processing.rs) cuts out of the
-- decoder's buffer, whose rows are as wide as the image.
use ginbar.Prelude.{
  ℕ, zero, suc, ◌+◌, ◌-◌, ◌*◌, ◌/◌, ◌%◌, ◌≤◌, ◌<◌, ◌≡◌, refl, sym, ap, subst, ◌∙◌, Bool-cases,
  Option, none, some, inl, inr, arith, leb, length, get_elem?, take, drop,
}
use ginbar.Pixels.{Plane, and_then, slice}
use ginbar.Pixels.Crop.{get_elem?-take, get_elem?-drop}
use ginbar.Processing.Decode.{Yuv}
use ginbar.Processing.{even_size, yuv_slices}
use ginbar.Host.{Host}

-- The bytes of a slice are those of the plane from its start on.
abbrev From : Plane → ℕ → ℕ → Plane → Type 0
From plane start len xs = (i : ℕ) → i < len → get_elem? xs i ≡ get_elem? plane (start + i)

slice-From :
    (plane : Plane) (start len : ℕ) (xs : Plane)
    → slice plane start len ≡ some xs
    → From plane start len xs
unfolding slice
slice-From plane start len xs h i k = elim (Bool-cases (leb (start + len) (length plane))) [
  | inl e ↦
      let q : take len (drop start plane) ≡ xs = ground arith in
      ap (λ z. get_elem? z i) (sym q)
      ∙ (get_elem?-take len (drop start plane) i k ∙ get_elem?-drop start plane i)
  | inr e ↦ absurd (ground arith)
]

abbrev three : Option Plane → Option Plane → Option Plane → Option (Plane × Plane × Plane)
three a b c = and_then a λ y. and_then b λ u. and_then c λ v. some (y, u, v)

module _ (host : Host) (yuv : Yuv) where
  abbrev pub enc_w : ℕ
  enc_w = (even_size host yuv).0

  abbrev pub enc_h : ℕ
  enc_h = (even_size host yuv).1

  -- The three slices, where they are there.
  slices_lem :
      (y u v : Plane)
      → yuv_slices host yuv ≡ some (y, u, v)
      → From yuv.buf 0 (enc_w * enc_h) y
        × From yuv.buf yuv.y_len (enc_w / 2 * enc_h / 2) u
        × From yuv.buf (yuv.y_len + yuv.uv_len) (enc_w / 2 * enc_h / 2) v
  unfolding yuv_slices
  slices_lem y u v h =
      by_slices (slice yuv.buf 0 (enc_w * enc_h)) (slice yuv.buf yuv.y_len (enc_w / 2 * enc_h / 2))
        (slice yuv.buf (yuv.y_len + yuv.uv_len) (enc_w / 2 * enc_h / 2)) refl refl refl h
    where
      parts :
          {y' u' v' : Plane}
          → ◌≡◌ {A = Option (Plane × Plane × Plane)} (some (y', u', v')) (some (y, u, v))
          → (y' ≡ y) × (u' ≡ u) × (v' ≡ v)
      parts h = (cc, cc, cc)

      by_slices :
          (a b c : Option Plane)
          → slice yuv.buf 0 (enc_w * enc_h) ≡ a
          → slice yuv.buf yuv.y_len (enc_w / 2 * enc_h / 2) ≡ b
          → slice yuv.buf (yuv.y_len + yuv.uv_len) (enc_w / 2 * enc_h / 2) ≡ c
          → three a b c ≡ some (y, u, v)
          → From yuv.buf 0 (enc_w * enc_h) y
            × From yuv.buf yuv.y_len (enc_w / 2 * enc_h / 2) u
            × From yuv.buf (yuv.y_len + yuv.uv_len) (enc_w / 2 * enc_h / 2) v
      by_slices none b c ea eb ec h = cc
      by_slices (some y') none c ea eb ec h = cc
      by_slices (some y') (some u') none ea eb ec h = cc
      by_slices (some y') (some u') (some v') ea eb ec h =
          let (p, q, r) = parts h in
          (
            slice-From yuv.buf 0 _ y (ea ∙ ap (λ z. some z) p),
            slice-From yuv.buf yuv.y_len _ u (eb ∙ ap (λ z. some z) q),
            slice-From yuv.buf (yuv.y_len + yuv.uv_len) _ v (ec ∙ ap (λ z. some z) r),
          )

cell_in : (r c w h : ℕ) → c < w → r < h → r * w + c < w * h
cell_in r c w h k l = grind arith

twice_le : (a k d : ℕ) → a * k * 2 ≤ a * (2 * k + d)
twice_le a k d = grind arith

half_cells : (a h : ℕ) → a * (h / 2) ≤ a * h / 2
half_cells a h =
    let e : 2 * (h / 2) + h % 2 ≡ h = omega arith in
    let m = subst (λ x. a * (h / 2) * 2 ≤ a * x) e (twice_le a (h / 2) (h % 2)) in omega (arith, m)

displaced : (r c w d : ℕ) → d < 2 → d ≤ w → r * (w - d) + c ≡ r * w + c - r * d
displaced r c zero zero l m = omega arith
displaced r c (suc w) zero l m = grind arith
displaced r c zero (suc zero) l m = absurd (omega arith)
displaced r c (suc w) (suc zero) l m =
    let e : r * suc w ≡ r * w + r = grind arith in
    let f : r * (suc w - 1) ≡ r * w = ap (λ n. r * n) (omega arith) in omega (arith, e, f)
displaced r c zero (suc (suc d)) l m = absurd (omega arith)
displaced r c (suc w) (suc (suc d)) l m = absurd (omega arith)

-- The byte that the encoder takes for a pixel in row `r` and column `c` of the image, and that for one
-- in row `i` and column `j` of the first chroma plane, are those of the decoded planes where the
-- image's width is even. Where the width is odd, the byte is `r` (or `i`) places before that pixel: each
-- row is displaced by one pixel more than the row above it.
pub yuv_slices-rows :
    (host : Host) (yuv : Yuv) (y u v : Plane)
    → yuv_slices host yuv ≡ some (y, u, v)
    → (r c i j : ℕ) → r < enc_h host yuv
    → c < enc_w host yuv
    → i < enc_h host yuv / 2
    → j < enc_w host yuv / 2
    → (get_elem? y (r * enc_w host yuv + c)
        ≡ get_elem? yuv.buf (r * yuv.width + c - r * (yuv.width % 2)))
      × (get_elem? u (i * (enc_w host yuv / 2) + j)
          ≡ get_elem? yuv.buf (yuv.y_len + (i * ((yuv.width + 1) / 2) + j - i * (yuv.width % 2))))
yuv_slices-rows host yuv y u v h r c i j k l k' l' =
    let (fy, fu, fv) = slices_lem host yuv y u v h in
    let w = enc_w host yuv in
    (
      fy (r * w + c) (cell_in r c w (enc_h host yuv) l k)
          ∙ ap (get_elem? yuv.buf) (
              zero_add (r * w + c)
              ∙ displaced r c yuv.width (yuv.width % 2) (omega arith) (omega arith)),
      fu (i * (w / 2) + j) (
            omega (
              arith,
              cell_in i j (w / 2) (enc_h host yuv / 2) l' k',
              half_cells (w / 2) (enc_h host yuv),
            ))
          ∙ ap (λ n. get_elem? yuv.buf (yuv.y_len + n))
              (ap (λ n. i * n + j) (halved yuv.width)
                ∙ displaced i j ((yuv.width + 1) / 2) (yuv.width % 2) (omega arith) (omega arith)),
    )
  where
    zero_add : (n : ℕ) → 0 + n ≡ n
    zero_add n = omega arith

    halved : (w : ℕ) → (w - w % 2) / 2 ≡ (w + 1) / 2 - w % 2
    halved w = omega arith
