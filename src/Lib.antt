-- ===== src/Lib.antt =====
-- The media worker of Wallium, src/worker: a model of the Rust program that takes new posts from the
-- database, fetches their files, has them encoded, and finalizes or deletes their rows, and that
-- encodes the images of old posts again.
--
-- The parts and their files:
--   Database    src/worker/src/db.rs, the queries as functions of the table of posts (DirtyPost,
--               DuplicateRow, FinalizeParams, and a function of the query's name for each query).
--               Hamming is the distance of the duplicate check. Dirty and Duplicates hold proofs.
--   World       what the tasks share: the table, the files, Redis, the map of posts in flight; and
--               `Result` with `?`, `let _ =`, `.context` and `tokio::time::timeout`. Rules, Answers and
--               Footprint are the rules by which the proofs follow a sequence of calls.
--   Paths       `std::path` as far as it is used, and `Directories` of src/worker/src/processing.rs.
--   Media       `classify_file` (queue.rs) and `can_decode_natively` (processing.rs).
--   Download    src/worker/src/download.rs: `download_file`, `download_pr0gramm_file` and
--               `stream_to_file`.
--   Pipeline    the results of `process_image`, `regenerate_image` and `process_video`
--               (processing.rs), and these three as records of an operation with its laws.
--   Pixels      the bytes that the encoder is given, src/worker/src/avif.rs: `rgb_to_yuv420_full_range`,
--               `rgb_to_yuv420`, `repack_plane`, and the planes of `encode_avif_from_yuv_planes`; in
--               Size the size that `encode_avif` encodes at, over its two `f64` computations as
--               parameters. Planes, Colors and Crop hold proofs.
--   Threads     `encoder_thread_count` (avif.rs), `fullres_encode_threads` (processing.rs) and
--               `ffmpeg_thread_count` (src/worker/src/ffmpeg.rs).
--   Config      `Config::from_env` of src/worker/src/config.rs; Defaults holds proofs.
--   Saliency    `smart_crop` and `region_gradient_energy` of src/worker/src/processing.rs. Energy, Search
--               and Crop hold proofs.
--   Phash       `compute_phash`, `dct1d_partial` and `median_of_256` (processing.rs). Bits and Packing
--               hold proofs.
--   Host        what the media pipeline takes from crates and programs, as a record of parameters.
--   Ffmpeg      src/worker/src/ffmpeg.rs: `get_dimensions`, `normalize_to_jpeg`, `extract_video_frame`,
--               `parse_dimensions`, `compute_scaled_dims`; in Convert `convert_to_avif`. Dimensions
--               holds proofs.
--   Avif        `encode_avif`, `encode_avif_ravif` and `encode_avif_from_yuv_planes` (avif.rs), and
--               `encode_avif_inprocess` (processing.rs); in Codec
--               `encode_av1_raw`, `encode_av1_raw_full_range` and `wrap_avif_container`. Frame, Written
--               and Fitted hold proofs.
--   Processing  `load_image`, `process_image`, `process_image_fallback` and `regenerate_image`
--               (processing.rs); in Decode the functions on JPEG and `prepare_thumbnail_pixels`, in Video
--               `process_video` and `create_thumbnail`. Regenerates, Images and Clips fill the records of
--               Pipeline with these functions. Variants has `process_image_v_b`, `process_image_v_c` and
--               `process_image_v_d`. The other children hold proofs.
--   Queue       the processing queue of src/worker/src/queue.rs. Queue has one post's way from
--               `resolve_source` to `process_downloaded_post`; State has `QueueState` and
--               `publish_status`; Batch has `drain` and `download_stage` as a step relation. Active
--               has the map of posts in flight. Outcome, Success, Working, Calm, Counters, Once, Live and
--               Progress hold proofs.
--   Regen       the regeneration queue of src/worker/src/queue.rs: `pop_regen_items` and
--               `recover_processing_list`; in Work `process_regen_item`, `publish_regen_progress` and the
--               acknowledgement; in Concurrent `drain_regen` and its `for_each_concurrent`; in Lists the
--               Redis commands. The other children hold proofs.
--   Examples    concrete data, and the theorems applied to it.
--
-- State and failure. A call to Postgres, Redis or the file system takes its outcome from a script in
-- the state: carried out and answered, refused, carried out with the reply lost, never answered, or
-- carried out and never answered. A theorem over every state is thus one over every pattern of
-- failures. `script = []` is the run where no call fails. A future that never completes is the result
-- `hung`; only `timeout` turns it into an error, and what the call did stays done.
--
-- Interleaving. The tasks of `drain` are interleaved by the steps of `Queue.Batch.Step`; the body of
-- a task is one step, with what the other tasks did before it and after it. The two encodes that
-- `tokio::join!` runs are carried out one after the other, in an order that the state decides: they
-- write different files. The items of a regeneration batch are tasks that start as the limit of
-- `for_each_concurrent` allows and go on, one at a time, from one of their three awaits (the item, its
-- report, its acknowledgement) to the next; an argument `choices` says which, and a task that never
-- ends keeps its slot. No other client of Redis or Postgres writes in the middle of a function.
--
-- Fuel. `pop_loop` has one round more than there are texts in the queue, and `recover_loop` one more
-- than there are on the processing list; each round but the last moves a text, and the theorems on
-- runs where no call fails say that the functions return. `for_each_concurrent` has three rounds for
-- each item and one more, since a task ends at its third stop. The loops of `region_gradient_energy` and of
-- `smart_crop` have one round more than the region or the image has rows or columns, and the theorems
-- on them say that they come to an end.
--
-- Parameters. `serde_json` is the parser `from_str` of the regeneration items; `reqwest` is the
-- record `Http`, a parser of URLs and what a GET comes to. The queues use `process_image`,
-- `regenerate_image` and `process_video` as the records `Processor` and `Regenerator`, whose laws
-- are that they touch files alone; that `regenerate_image` removes no file and writes its image
-- under a free name; and that where no call fails they return. The pipeline takes a `Host`: the
-- decoders of `image` and `turbojpeg`, the encoders of `svt_av1_enc` and `ravif`, the container of
-- `avif_serialize`, the programs ffmpeg and ffprobe, the `f32` and `f64`
-- operations, and the names of `uuid`. A run of ffmpeg writes its output file and no other.
-- `FreshNames` says that a new name is that of no file yet; `Resizes` that an image cut or resized
-- has the size that was asked for. Postgres and Redis are modelled by the commands that the code
-- sends to them (the SQL text, LMOVE, LREM, LLEN, INCR, PUBLISH, SET EX), on lists of rows, texts
-- and counters.
--
-- Not modelled: the select loops of `run` and `run_regen_queue` and the Pub/Sub subscriptions, which
-- decide only when a drain starts; logging; the expiry of Redis keys; work that `spawn_blocking` goes
-- on with after a timeout has dropped its task; letters beyond ASCII in file extensions; a file that is
-- written in part when its write fails; calls of two joined encodes that interleave, or of two
-- regeneration tasks within one await; `priority_cmd`
-- and `suppress_stdio_for`; `init_tracing` (config.rs) and main.rs; the Go backend, the frontend and
-- the scripts.
pub mod Prelude
pub mod Database
pub mod World
pub mod Paths
pub mod Media
pub mod Pipeline
pub mod Regen
pub mod Download
pub mod Queue
pub mod Pixels
pub mod Saliency
pub mod Phash
pub mod Threads
pub mod Config
pub mod Host
pub mod Ffmpeg
pub mod Avif
pub mod Processing
pub mod Examples
