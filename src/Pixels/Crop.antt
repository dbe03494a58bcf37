-- ===== src/Pixels/Crop.antt =====
-- Cutting planes to multiples of eight: `repack_plane` and `encode_avif_from_yuv_planes` of
-- src/worker/src/avif.rs.
use ginbar.Prelude.{
  ℕ, zero, suc, ◌+◌, ◌*◌, ◌/◌, ◌%◌, ◌<◌, ◌≤◌, ◌≡◌, refl, sym, ap, ◌∙◌, true, false, some, [], ◌∷◌,
  ◌++◌, arith, length, length-append, length-take, length-drop, get_elem?, take, drop, Bool, ◌==◌,
  ◌&&◌, if◌then◌else◌,
}
use ginbar.Pixels.{Plane, align, slice, repack_from, repack_plane, repacked_planes, aligned_planes}
use ginbar.Pixels.Planes.{Yields, and_then-Yields}

get_elem?-append-left :
    (xs ys : Plane) (i : ℕ) → i < length xs → get_elem? (xs ++ ys) i ≡ get_elem? xs i
get_elem?-append-left [] ys i h = absurd (omega arith)
get_elem?-append-left (x ∷ xs) ys zero h = refl
get_elem?-append-left (x ∷ xs) ys (suc i) h = get_elem?-append-left xs ys i (omega arith)

get_elem?-append-right :
    (xs ys : Plane) (i : ℕ) → get_elem? (xs ++ ys) (length xs + i) ≡ get_elem? ys i
get_elem?-append-right [] ys i = ap (get_elem? ys) (omega arith)
get_elem?-append-right (x ∷ xs) ys i =
    let e : suc (length xs) + i ≡ suc (length xs + i) = omega arith in
    ap (get_elem? (x ∷ xs ++ ys)) e ∙ get_elem?-append-right xs ys i

pub get_elem?-take : (n : ℕ) (xs : Plane) (i : ℕ) → i < n → get_elem? (take n xs) i ≡ get_elem? xs i
get_elem?-take zero xs i h = absurd (omega arith)
get_elem?-take (suc n) [] i h = refl
get_elem?-take (suc n) (x ∷ xs) zero h = refl
get_elem?-take (suc n) (x ∷ xs) (suc i) h = get_elem?-take n xs i (omega arith)

pub get_elem?-drop : (n : ℕ) (xs : Plane) (i : ℕ) → get_elem? (drop n xs) i ≡ get_elem? xs (n + i)
get_elem?-drop zero xs i = ap (get_elem? xs) (omega arith)
get_elem?-drop (suc n) [] i = refl
get_elem?-drop (suc n) (x ∷ xs) i =
    let e : suc (n + i) ≡ suc n + i = omega arith in
    get_elem?-drop n xs i ∙ ap (get_elem? (x ∷ xs)) e

-- A slice within the plane is there, has its length, and holds the plane's bytes.
record IsSlice (plane : Plane) (start len : ℕ) (xs : Plane) : Type 0 where
  size : length xs ≡ len
  bytes : (i : ℕ) → i < len → get_elem? xs i ≡ get_elem? plane (start + i)

slice-Yields :
    (plane : Plane) (start len : ℕ)
    → start + len ≤ length plane
    → Yields (IsSlice plane start len) (slice plane start len)
unfolding slice
slice-Yields plane start len h = (
  take len (drop start plane),
  ground arith,
  record {
    size = omega (arith, length-take len (drop start plane), length-drop start plane);
    bytes = λ i k. get_elem?-take len (drop start plane) i k ∙ get_elem?-drop start plane i;
  },
)

-- The rows of a plane from `row` on, cut to `width` bytes each.
pub record AreRows (plane : Plane) (stride width row n : ℕ) (out : Plane) : Type 0 where
  size : length out ≡ n * width
  bytes :
      (r c : ℕ)
      → r < n
      → c < width
      → get_elem? out (r * width + c) ≡ get_elem? plane ((row + r) * stride + c)

rows-bytes :
    (plane xs ys : Plane) (stride width row n r c : ℕ)
    → IsSlice plane (row * stride) width xs
    → AreRows plane stride width (suc row) n ys
    → r < suc n
    → c < width
    → get_elem? (xs ++ ys) (r * width + c) ≡ get_elem? plane ((row + r) * stride + c)
rows-bytes plane xs ys stride width row n zero c first rest k l =
    let e : 0 * width + c ≡ c = omega arith in
    let e' : row * stride + c ≡ (row + 0) * stride + c = grind arith in
    ap (get_elem? (xs ++ ys)) e
    ∙ (get_elem?-append-left xs ys c (omega (arith, first.size))
        ∙ (first.bytes c l ∙ ap (get_elem? plane) e'))
rows-bytes plane xs ys stride width row n (suc r) c first rest k l =
    let e : suc r * width + c ≡ length xs + (r * width + c) = grind (arith, first.size) in
    let e' : (suc row + r) * stride + c ≡ (row + suc r) * stride + c = grind arith in
    ap (get_elem? (xs ++ ys)) e
    ∙ (get_elem?-append-right xs ys (r * width + c)
        ∙ (rest.bytes r c (omega arith) l ∙ ap (get_elem? plane) e'))

repack_from-Yields :
    (plane : Plane) (stride width row n rows : ℕ)
    → row + n ≡ rows
    → width ≤ stride
    → rows * stride ≤ length plane
    → Yields (AreRows plane stride width row n) (repack_from plane stride width row n)
unfolding repack_from
repack_from-Yields plane stride width row zero rows e fits enough =
    ([], refl, record { size = omega arith; bytes = λ r c k l. absurd (omega arith) })
repack_from-Yields plane stride width row (suc n) rows e fits enough =
    and_then-Yields (IsSlice plane (row * stride) width) (AreRows plane stride width row (suc n))
      (slice plane (row * stride) width) _ (slice-Yields plane (row * stride) width (grind arith))
      λ xs first.
        and_then-Yields (AreRows plane stride width (suc row) n)
          (AreRows plane stride width row (suc n)) (repack_from plane stride width (suc row) n) _
          (repack_from-Yields plane stride width (suc row) n rows (omega arith) fits enough)
          λ ys rest. (
            xs ++ ys,
            refl,
            record {
              size = grind (arith, length-append xs ys, first.size, rest.size);
              bytes = λ r c k l. rows-bytes plane xs ys stride width row n r c first rest k l;
            },
          )

-- Cutting a plane of at least `rows` rows of `stride` bytes to rows of `width` bytes reads nothing out
-- of bounds, and each of the rows is the beginning of its own row in the plane.
pub repack_plane-Yields :
    (plane : Plane) (stride width rows : ℕ)
    → width ≤ stride
    → rows * stride ≤ length plane
    → Yields (AreRows plane stride width 0 rows) (repack_plane plane stride width rows)
unfolding repack_plane
repack_plane-Yields plane stride width rows fits enough =
    repack_from-Yields plane stride width 0 rows rows (omega arith) fits enough

pub align_lem : (n : ℕ) → (align n % 8 ≡ 0) × (align n ≤ n) × (n < align n + 8)
unfolding align
align_lem n = (omega arith, omega arith, omega arith)

-- Planes for an encoder that takes only multiples of eight, none larger than before, with their sizes.
pub record IsEncodable (width height : ℕ) (r : Plane × Plane × Plane × ℕ × ℕ) : Type 0 where
  pub aligned : (r.3 % 8 ≡ 0) × (r.4 % 8 ≡ 0)
  pub smaller : (r.3 ≤ width) × (r.4 ≤ height) × (width < r.3 + 8) × (height < r.4 + 8)
  pub luma_size : length r.0 ≡ r.4 * r.3
  pub chroma_size : (length r.1 ≡ r.4 / 2 * (r.3 / 2)) × (length r.2 ≡ r.4 / 2 * (r.3 / 2))

enough_rows : (h k w : ℕ) (p : Plane) → k ≤ h → length p ≡ h * w → k * w ≤ length p
enough_rows h k w p le e = grind (arith, le, e)

mul_eq : {a b c d : ℕ} → a ≡ c → b ≡ d → a * b ≡ c * d
mul_eq {b = b} {c = c} e f = ap (λ x. x * b) e ∙ ap (λ x. c * x) f

module _ (y u v : Plane) (width height : ℕ) (hy : length y ≡ height * width)
    (hu : length u ≡ (height + 1) / 2 * ((width + 1) / 2))
    (hv : length v ≡ (height + 1) / 2 * ((width + 1) / 2)) where
  same-IsEncodable :
      align width ≡ width
      → align height ≡ height
      → IsEncodable width height (y, u, v, align width, align height)
  same-IsEncodable e f =
      let (w8, w1, w2) = align_lem width in
      let (h8, h1, h2) = align_lem height in
      let chroma : (height + 1) / 2 * ((width + 1) / 2) ≡ align height / 2 * (align width / 2) =
        mul_eq (omega (arith, e, f, w8, h8)) (omega (arith, e, f, w8, h8)) in
      record {
        aligned = (w8, h8);
        smaller = (w1, h1, w2, h2);
        luma_size = hy ∙ mul_eq (sym f) (sym e);
        chroma_size = (hu ∙ chroma, hv ∙ chroma);
      }

  chroma-Yields :
      (p : Plane)
      → length p ≡ (height + 1) / 2 * ((width + 1) / 2)
      → Yields
          (AreRows p ((width + 1) / 2) (align width / 2) 0 (align height / 2))
          (repack_plane p ((width + 1) / 2) (align width / 2) (align height / 2))
  chroma-Yields p hp =
      let (w8, w1, w2) = align_lem width in
      let (h8, h1, h2) = align_lem height in
      repack_plane-Yields p ((width + 1) / 2) (align width / 2) (align height / 2)
        (omega (arith, w1))
        (enough_rows ((height + 1) / 2) (align height / 2) ((width + 1) / 2) p (omega (arith, h1))
          hp)

  repacked_planes-Yields :
      Yields (IsEncodable width height) (repacked_planes y u v width (align width) (align height))
  unfolding repacked_planes
  repacked_planes-Yields =
      let (w8, w1, w2) = align_lem width in
      let (h8, h1, h2) = align_lem height in
      let Q = IsEncodable width height in
      and_then-Yields (AreRows y width (align width) 0 (align height)) Q
        (repack_plane y width (align width) (align height)) _
        (repack_plane-Yields y width (align width) (align height) w1
          (enough_rows height (align height) width y h1 hy))
        λ y' py.
          and_then-Yields (AreRows u ((width + 1) / 2) (align width / 2) 0 (align height / 2)) Q
            (repack_plane u ((width + 1) / 2) (align width / 2) (align height / 2)) _
            (chroma-Yields u hu)
            λ u' pu.
              and_then-Yields (AreRows v ((width + 1) / 2) (align width / 2) 0 (align height / 2)) Q
                (repack_plane v ((width + 1) / 2) (align width / 2) (align height / 2)) _
                (chroma-Yields v hv)
                λ v' pv. (
                  _,
                  refl,
                  record {
                    aligned = (w8, h8);
                    smaller = (w1, h1, w2, h2);
                    luma_size = py.size;
                    chroma_size = (pu.size, pv.size);
                  },
                )

  -- The planes of a decoded image of any size, with chroma rounded up as turbojpeg does, are handed to
  -- the encoder without an index out of bounds: its width and height are multiples of eight, at most
  -- seven less than the image's, and each plane has exactly the bytes for them.
  pub aligned_planes-Yields : Yields (IsEncodable width height) (aligned_planes y u v width height)
  unfolding aligned_planes
  aligned_planes-Yields =
      chosen (align width == width && align height == height) (λ e. ground arith)
        (λ e. ground arith)
    where
      chosen :
          (b : Bool)
          → (b ≡ true → align width ≡ width)
          → (b ≡ true → align height ≡ height)
          → Yields (IsEncodable width height) (
              if b
              then some (y, u, v, align width, align height)
              else repacked_planes y u v width (align width) (align height))
      chosen true k l = (_, refl, same-IsEncodable (k refl) (l refl))
      chosen false k l = repacked_planes-Yields
