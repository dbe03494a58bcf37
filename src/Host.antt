-- ===== src/Host.antt =====
-- What the media pipeline (src/worker/src/processing.rs, avif.rs and ffmpeg.rs) takes from elsewhere:
-- the crates `image`, `turbojpeg`, `svt_av1_enc`, `ravif`, `avif_serialize` and `uuid`, the programs
-- ffmpeg and ffprobe, the floating-point operations, the environment and the number of CPUs.
use ginbar.Prelude.{ℕ, Bool, Option, List, Text}
use ginbar.Prelude.Int.{ℤ}
use ginbar.World.{World}
use ginbar.World.FileSystem.{Files}
use ginbar.Pixels.{Plane}
use ginbar.Pixels.Size.{Floats}
use ginbar.Saliency.{Scaling}
use ginbar.Phash.{Reals}
use ginbar.Threads.{Environment}

-- `turbojpeg::DecompressHeader`, with `subsamp == Sub2x2`.
pub record Header : Type 0 where
  pub width : ℕ
  pub height : ℕ
  pub is_420 : Bool

-- `SvtAv1EncoderConfig`: its size and preset, and the settings that the code makes. `is_full_range` is
-- `color_range == CrFullRange`.
pub record EncoderConfig : Type 0 where
  pub width : ℕ
  pub height : ℕ
  pub preset : ℤ
  pub rate_control_mode : ℕ
  pub qp : ℕ
  pub pred_structure : ℕ
  pub intra_period_length : ℤ
  pub logical_processors : ℕ
  pub is_full_range : Bool

-- `svt_av1_enc::Frame`
pub record Frame : Type 0 where
  pub y : Plane
  pub u : Plane
  pub v : Plane
  pub y_stride : ℕ
  pub cb_stride : ℕ
  pub cr_stride : ℕ
  pub size : ℕ

-- `avif_serialize::Aviffy`, with what the code sets.
pub record Aviffy : Type 0 where
  pub seq_profile : ℕ
  pub chroma_subsampling : Bool × Bool

pub record Host : Type 1 where
  -- `image::DynamicImage`
  pub Image : Type 0
  pub width : Image → ℕ
  pub height : Image → ℕ
  -- `image::open`, on the bytes of the file.
  pub decode : Text → Option Image
  -- `resize` keeps the ratio, `resize_exact` does not; both with `FilterType::Triangle`.
  pub resize : Image → ℕ → ℕ → Image
  pub resize_exact : Image → ℕ → ℕ → Image
  pub crop_imm : Image → ℕ → ℕ → ℕ → ℕ → Image
  pub to_rgb8 : Image → List ℕ
  pub to_luma8 : Image → List ℕ
  -- `RgbImage::from_raw`, from a width, a height and the bytes.
  pub from_raw : ℕ → ℕ → List ℕ → Option Image
  pub read_header : Text → Option Header
  -- `header.scaled(ScalingFactor::new(1, 2))`, for one side.
  pub scaled_half : ℕ → ℕ
  -- `decompress` to RGB bytes at a width and a height.
  pub decompress : Text → ℕ → ℕ → Option (List ℕ)
  -- `yuv_pixels_len` of a 4:2:0 image with no padding.
  pub yuv_pixels_len : ℕ → ℕ → Option ℕ
  -- `decompress_to_yuv`: the three planes, one behind the other.
  pub decompress_to_yuv : Text → Option Plane
  -- `y_width`, `y_height`, `uv_width` and `uv_height` of a `YuvImage` of 4:2:0 with no padding.
  pub plane_lengths : ℕ → ℕ → ℕ × ℕ
  -- The encoder of SVT-AV1, after what it was sent. `send_picture` has the time 0 and is a key frame.
  pub Encoder : Type 0
  pub into_encoder : EncoderConfig → Option Encoder
  pub send_picture : Encoder → Frame → Option Encoder
  pub send_eos : Encoder → Option Encoder
  -- `get_packet(1)`
  pub get_packet : Encoder → Option Text
  -- `ravif`, at a quality and a speed, of RGB bytes, width and height.
  pub ravif : ℕ → ℕ → List ℕ → ℕ → ℕ → Option Text
  -- `to_vec` without alpha: the stream, width, height and depth.
  pub to_vec : Aviffy → Text → ℕ → ℕ → ℕ → Text
  -- A run of ffmpeg: whether it succeeds, and what it writes to its output file, if anything.
  pub ffmpeg : List Text → Files → Bool × Option Text
  -- A run of ffprobe: its output, if it succeeds.
  pub ffprobe : List Text → Files → Option Text
  -- The name that `Uuid::new_v4` comes to.
  pub uuid : World → Text
  -- Whether the first of two joined tasks runs before the second.
  pub thumb_first : World → Bool
  pub floats : Floats
  -- `(h as f64 * (max_width as f64 / w as f64)).round() as i32`
  pub scaled_height : ℤ → ℕ → ℤ → ℤ
  pub scaling : Scaling
  pub reals : Reals
  pub env : Environment
  pub cpus : ℕ
