-- ===== src/Examples/Encoding.antt =====
-- A small image, its planes, and a download, with the theorems applied to them
-- (src/worker/src/avif.rs, src/worker/src/download.rs, src/worker/src/queue.rs).
use ginbar.Prelude.{
  ◌/◌, ◌%◌, ◌<◌, ltb, ◌+◌, ◌*◌, ◌≤◌, ◌↔◌, ◌⊎◌, if◌then◌else◌, ◌≡◌, refl, true, Option, none, some,
  [], Text, text_eq, codes, arith, replicate,
}
use ginbar.Paths.{join}
use ginbar.Download.{basename_of, download_file, stream_to_file}
use ginbar.Download.Contents.{Fetched, download_file-ok}
use ginbar.Prelude.Digits.{parse_number}
use ginbar.Pixels.{rgb_to_yuv420_full_range, aligned_planes}
use ginbar.Pixels.Size.{Floats, encode_size, below_minimum, encode_size-aligned}
use ginbar.Pixels.Planes.{Yields}
use ginbar.Pixels.Colors.{ArePlanes, rgb_to_yuv420_full_range-Yields}
use ginbar.Pixels.Crop.{IsEncodable, aligned_planes-Yields}
use ginbar.Threads.{
  Environment, worker_concurrency, override, parse_u32, fullres_encode_threads,
  fullres_encode_threads-none, fullres_encode_threads-budget,
}
use ginbar.Examples.{http, world}

download_file-ok_example :
    (name : Option Text) × (http.parse (codes "http://h/a.png") ≡ some name)
    × (codes "x/a.png" ≡ join (codes "x") (basename_of name))
    × Fetched
        (codes "x/a.png")
        (download_file http (codes "http://h/a.png") (codes "x") (world [])).1
        (http.get (codes "http://h/a.png") [])
unfolding download_file join stream_to_file
download_file-ok_example =
    download_file-ok http (codes "http://h/a.png") (codes "x") (codes "x/a.png") (world []) refl

-- Two pixels by three.
rgb_to_yuv420_full_range-Yields_example :
    Yields (ArePlanes 2 3 0 255 255) (rgb_to_yuv420_full_range (replicate 18 200) 2 3)
rgb_to_yuv420_full_range-Yields_example =
    rgb_to_yuv420_full_range-Yields (replicate 18 200) 2 3 refl

-- Nine pixels by nine.
aligned_planes-Yields_example :
    Yields (IsEncodable 9 9) (aligned_planes (replicate 81 1) (replicate 25 2) (replicate 25 3) 9 9)
aligned_planes-Yields_example =
    aligned_planes-Yields (replicate 81 1) (replicate 25 2) (replicate 25 3) 9 9 refl refl refl

-- Twelve CPUs and a concurrency of 3.
abbrev env : Environment
env key = if text_eq key (codes "WORKER_CONCURRENCY") then some (codes "3") else none

fullres_encode_threads-none_example :
    (fullres_encode_threads env 12 ≡ none)
    ↔ ((worker_concurrency env ≡ 0) × ((override env ≡ none) ⊎ (override env ≡ some 0)))
fullres_encode_threads-none_example = fullres_encode_threads-none env 12

fullres_encode_threads-budget_example :
    (worker_concurrency env * (1 + 3) ≤ 12) ↔ (2 * worker_concurrency env ≤ 12)
unfolding fullres_encode_threads text_eq parse_u32 parse_number
fullres_encode_threads-budget_example = fullres_encode_threads-budget env 12 3 refl refl

-- Ratios in hundredths, and heights that are rounded to the nearest number.
abbrev pub floats : Floats
floats = record {
  is_near = λ w m. ltb (w * 100) (m * 115 + 1);
  scaled = λ h m w. (h * m * 2 + w) / (w * 2);
}

encode_size-aligned_example :
    let size = encode_size floats 100 200 70 in
    (size.0 % 8 ≡ 0)
    × (size.1 % 8 ≡ 0)
    × (size.0 ≤ 200)
    × (size.1 ≤ 70)
    × ((100 < 200) ⊎ ((200 < size.0 + 8) × (70 < size.1 + 8)))
    × ((below_minimum size ≡ true) ⊎ ((64 ≤ size.0) × (64 ≤ size.1)))
encode_size-aligned_example = encode_size-aligned floats 100 200 70 (omega arith) (λ _. omega arith)
