-- ===== src/Avif/Codec.antt =====
-- The calls of the encoder of SVT-AV1 and of the writer of containers: `encode_av1_raw`,
-- `encode_av1_raw_full_range` and `wrap_avif_container` of src/worker/src/avif.rs.
use ginbar.Prelude.{ℕ, ◌*◌, ◌-◌, ◌/◌, ◌%◌, ◌^◌, Bool, true, false, Option, Text, ltb, if◌then◌else◌}
use ginbar.Prelude.Int.{ℤ, pos, negsuc}
use ginbar.Pixels.{Plane, and_then}
use ginbar.Host.{Host, EncoderConfig, Frame}

-- `preset as i8`
unfoldable pub as_i8 : ℕ → ℤ
as_i8 n = if ltb (n % 256) 128 then pos (n % 256) else negsuc (255 - n % 256)

-- One key frame, at a constant quality.
unfoldable pub encoder_config : Bool → ℕ → ℕ → ℕ → ℕ → ℕ → EncoderConfig
unfolding as_i8
encoder_config is_full_range width height crf preset threads = record {
  width = width;
  height = height;
  preset = as_i8 preset;
  rate_control_mode = 0;
  qp = crf;
  pred_structure = 1;
  intra_period_length = negsuc 0;
  logical_processors = threads;
  is_full_range = is_full_range;
}

-- `width * height * 3 / 2` on 32 bits.
unfoldable pub frame_of : Plane → Plane → Plane → ℕ → ℕ → Frame
frame_of y u v width height = record {
  y = y;
  u = u;
  v = v;
  y_stride = width;
  cb_stride = width / 2;
  cr_stride = width / 2;
  size = width * height * 3 % 2 ^ 32 / 2;
}

module _ (host : Host) where
  -- From the settings to the packet.
  unfoldable pub encode_frame : EncoderConfig → Frame → Option Text
  encode_frame config frame = and_then (host.into_encoder config) λ encoder.
      and_then (host.send_picture encoder frame)
        λ sent. and_then (host.send_eos sent) host.get_packet

  unfoldable pub encode_av1_raw : Plane → Plane → Plane → ℕ → ℕ → ℕ → ℕ → ℕ → Option Text
  unfolding encoder_config frame_of encode_frame
  encode_av1_raw y u v width height crf preset threads =
      encode_frame (encoder_config false width height crf preset threads)
        (frame_of y u v width height)

  unfoldable pub encode_av1_raw_full_range : Plane → Plane → Plane → ℕ → ℕ → ℕ → ℕ → ℕ → Option Text
  unfolding encoder_config frame_of encode_frame
  encode_av1_raw_full_range y u v width height crf preset threads =
      encode_frame (encoder_config true width height crf preset threads)
        (frame_of y u v width height)

  -- The container of the stream, with the profile and the subsampling that the encoder has. It never
  -- fails.
  unfoldable pub wrap_avif_container : Text → ℕ → ℕ → Text
  wrap_avif_container av1_data width height =
      host.to_vec (record { seq_profile = 0; chroma_subsampling = (true, true) }) av1_data width
        height 8
