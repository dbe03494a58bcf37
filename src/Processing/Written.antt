-- ===== src/Processing/Written.antt =====
-- Where the tasks of src/worker/src/processing.rs both succeed, the image and the thumbnail are there,
-- whichever of the two ran first.
use ginbar.Prelude.{
  ℕ, ◌≡◌, ◌≢◌, ◌⊎◌, inl, inr, refl, sym, ap, subst, ◌∙◌, Bool, true, false, Option, some, Text,
  codes,
}
use ginbar.Prelude.Int.{ℤ}
use ginbar.World.{
  World, M, Result, ok, err, hung, panicked, undecodable, Try, got, failed, pure, with_context,
  ◌>>=◌, ◌>>◌,
}
use ginbar.World.FileSystem.{file_at, is_file}
use ginbar.World.Footprint.{present-Footprint}
use ginbar.World.Rules.{Keeps, bind-Keeps, bind-ok}
use ginbar.Pipeline.{PHash}
use ginbar.Pixels.{Plane}
use ginbar.Threads.{fullres_encode_threads}
use ginbar.Avif.{or_fail, encode_avif, encode_avif_from_yuv_planes}
use ginbar.Avif.Written.{
  Writes, bind-Writes_first, bind-Writes, pure-Writes, with_context-Writes, encode_avif-Writes,
  encode_avif_from_yuv_planes-Writes,
}
use ginbar.Processing.Decode.{Yuv, prepare_thumbnail_pixels, decode_jpeg_to_yuv_planes, small_image}
use ginbar.Processing.{
  both_results, join_tasks, encode_thumbnail, thumbnail_task, fullres_task, results, joined,
  encode_both, remove_tmp, encode_loaded, yuv_slices, even_size, encode_slices, yuv_task,
  encode_fast,
}
use ginbar.Processing.Frame.{remove_tmp-Keeps}
use ginbar.Processing.Tasks.{thumbnail_task-Keeps, fullres_task-Keeps, yuv_task-Keeps}
use ginbar.Host.{Host}

both_results-got :
    {A B : Type 0} (r : Result A) (s : Result B) (a : A) (b : B)
    → both_results r s ≡ ok (got a, got b)
    → (r ≡ ok a) × (s ≡ ok b)
both_results-got hung s a b h = cc
both_results-got (ok x) (ok y) a b h = (cc, cc)
both_results-got (ok x) (err e) a b h = cc
both_results-got (ok x) hung a b h = cc
both_results-got (err e) (ok y) a b h = cc
both_results-got (err e) (err f) a b h = cc
both_results-got (err e) hung a b h = cc

abbrev Present : Text → World → Type 0
Present path w = is_file (file_at path w.files) ≡ true

module _ (host : Host) (c : Text) where
  -- The values that were got, in the world that the tasks left.
  results-ok :
      (r : Try PHash × Try (ℤ × ℤ)) (w : World) (a : PHash × ℤ × ℤ)
      → (results host c r w).0 ≡ ok a
      → (r ≡ (got a.0, got (a.1, a.2))) × ((results host c r w).1 ≡ w)
  results-ok (got p, got (x, y)) w a h = (cc, refl)
  results-ok (got p, failed e) w a h = cc
  results-ok (failed e, s) w a h = cc

  module _ (path : Text) (m : M PHash) (n : M (ℤ × ℤ)) where
    -- One of the tasks writes the file, and the other does not remove it.
    abbrev Shared : Type 0
    Shared = (Writes path m × Keeps (Present path) n) ⊎ (Writes path n × Keeps (Present path) m)

    join_tasks-Present :
        (first : Bool) (w : World) (a : PHash) (b : ℤ × ℤ)
        → Shared
        → (join_tasks first m n w).0 ≡ ok (got a, got b)
        → Present path (join_tasks first m n w).1
    join_tasks-Present true w a b (inl (wm, kn)) h =
        let (p, q) = both_results-got (m w).0 (n (m w).1).0 a b h in kn (m w).1 (wm w a p)
    join_tasks-Present true w a b (inr (wn, km)) h =
        let (p, q) = both_results-got (m w).0 (n (m w).1).0 a b h in wn (m w).1 b q
    join_tasks-Present false w a b (inl (wm, kn)) h =
        let (p, q) = both_results-got (m (n w).1).0 (n w).0 a b h in wm (n w).1 a p
    join_tasks-Present false w a b (inr (wn, km)) h =
        let (p, q) = both_results-got (m (n w).1).0 (n w).0 a b h in km (n w).1 (wn w b q)

    joined-Writes : Shared → Writes path (joined host c m n)
    joined-Writes k w a h =
        let tasks = join_tasks (host.thumb_first w) m n in
        let (r, e, g, s) = bind-ok tasks (results host c) w a h in
        let (f, u) = results-ok r (tasks w).1 a g in
        subst (λ x. Present path x.1) (sym s)
          (subst (Present path) (sym u)
            (join_tasks-Present (host.thumb_first w) w a.0 (a.1, a.2) k (e ∙ ap (λ x. ok x) f)))

module _ (host : Host) (thumb_path output_path : Text) where
  open host use {Image}

  thumbnail_task-Writes : (small : Image) → Writes thumb_path (thumbnail_task host small thumb_path)
  unfolding thumbnail_task encode_avif
  thumbnail_task-Writes small =
      bind-Writes thumb_path (or_fail panicked _)
        (λ p_hash.
          or_fail panicked (prepare_thumbnail_pixels host small)
          >>= (encode_thumbnail host thumb_path)
          >>= λ size. pure p_hash)
        λ p_hash.
          pure-Writes thumb_path
            (or_fail panicked (prepare_thumbnail_pixels host small)
              >>= encode_thumbnail host thumb_path)
            (λ size. p_hash)
            (bind-Writes thumb_path (or_fail panicked (prepare_thumbnail_pixels host small))
              (encode_thumbnail host thumb_path)
              λ thumb.
                with_context-Writes thumb_path _ (encode_avif host thumb thumb_path 40 10 150 1)
                  (encode_avif-Writes host thumb_path thumb 40 10 150 1))

  fullres_task-Writes : (img : Image) → Writes output_path (fullres_task host img output_path)
  unfolding fullres_task
  fullres_task-Writes img =
      bind-Writes output_path (or_fail panicked (fullres_encode_threads host.env host.cpus))
        (encode_avif host img output_path 18 8 920)
        (encode_avif-Writes host output_path img 18 8 920)

  yuv_task-Writes : (yuv : Yuv) → Writes output_path (yuv_task host yuv output_path)
  unfolding yuv_task encode_avif_from_yuv_planes
  yuv_task-Writes yuv =
      bind-Writes output_path (or_fail panicked (yuv_slices host yuv))
        (λ planes. or_fail panicked (fullres_encode_threads host.env host.cpus) >>= λ threads.
          encode_slices host yuv output_path threads planes)
        λ planes.
          bind-Writes output_path (or_fail panicked (fullres_encode_threads host.env host.cpus))
            (λ threads. encode_slices host yuv output_path threads planes)
            λ threads. slices-Writes yuv threads planes
    where
      slices-Writes :
          (yuv : Yuv) (threads : ℕ) (p : Plane × Plane × Plane)
          → Writes output_path (encode_slices host yuv output_path threads p)
      slices-Writes yuv threads (y, u, v) =
          encode_avif_from_yuv_planes-Writes host output_path 18 8 threads y u v
            (even_size host yuv).0 (even_size host yuv).1

  module _ (apart : thumb_path ≢ output_path) where
    output_kept :
        (small : Image) → Keeps (Present output_path) (thumbnail_task host small thumb_path)
    output_kept = thumbnail_task-Keeps host (present-Footprint output_path) thumb_path apart

    thumb_kept : (img : Image) → Keeps (Present thumb_path) (fullres_task host img output_path)
    thumb_kept =
        fullres_task-Keeps host (present-Footprint thumb_path) output_path λ e. apart (sym e)

    -- Both files, for a path that is one of them.
    encode_both-Writes :
        (path : Text)
        → (path ≡ thumb_path) ⊎ (path ≡ output_path)
        → (img : Image) → Writes path (encode_both host thumb_path output_path img)
    unfolding encode_both
    encode_both-Writes path (inl e) img =
        subst (λ p. Writes p (encode_both host thumb_path output_path img)) (sym e)
          (joined-Writes host _ thumb_path
            (thumbnail_task host (host.resize img 512 512) thumb_path)
            (fullres_task host img output_path)
            (inl (thumbnail_task-Writes (host.resize img 512 512), thumb_kept img)))
    encode_both-Writes path (inr e) img =
        subst (λ p. Writes p (encode_both host thumb_path output_path img)) (sym e)
          (joined-Writes host _ output_path
            (thumbnail_task host (host.resize img 512 512) thumb_path)
            (fullres_task host img output_path)
            (inr (fullres_task-Writes img, output_kept (host.resize img 512 512))))

    -- The normalized file that is removed is neither of the two.
    pub encode_loaded-Writes :
        (path : Text)
        → (path ≡ thumb_path) ⊎ (path ≡ output_path)
        → (img : Image) (tmp : Option Text) → ((t : Text) → tmp ≡ some t → t ≢ path)
        → Writes path (encode_loaded host thumb_path output_path (img, tmp))
    unfolding encode_loaded
    encode_loaded-Writes path which img tmp other =
        bind-Writes_first path (encode_both host thumb_path output_path img)
          (λ r. remove_tmp host tmp >> pure r) (encode_both-Writes path which img)
          λ r.
            bind-Keeps (Present path) (remove_tmp host tmp) (λ _. pure r)
              (remove_tmp-Keeps host (present-Footprint path) tmp other) λ _ w h. h

    fast_joined-Writes :
        (path : Text)
        → (path ≡ thumb_path) ⊎ (path ≡ output_path)
        → (small : Image) (yuv : Yuv) (c : Text)
        → Writes path
            (joined host c (thumbnail_task host small thumb_path) (yuv_task host yuv output_path))
    fast_joined-Writes path (inl e) small yuv c =
        let m = thumbnail_task host small thumb_path in
        let n = yuv_task host yuv output_path in
        subst (λ p. Writes p (joined host c m n)) (sym e)
          (joined-Writes host c thumb_path m n (
            inl (
              thumbnail_task-Writes small,
              yuv_task-Keeps host (present-Footprint thumb_path) output_path (λ x. apart (sym x))
                  yuv,
            )))
    fast_joined-Writes path (inr e) small yuv c =
        let m = thumbnail_task host small thumb_path in
        let n = yuv_task host yuv output_path in
        subst (λ p. Writes p (joined host c m n)) (sym e)
          (joined-Writes host c output_path m n (inr (yuv_task-Writes yuv, output_kept small)))

    pub encode_fast-Writes :
        (path : Text)
        → (path ≡ thumb_path) ⊎ (path ≡ output_path)
        → (bytes : Text) → Writes path (encode_fast host thumb_path output_path bytes)
    unfolding encode_fast
    encode_fast-Writes path which bytes =
        bind-Writes path
          (with_context _ (or_fail undecodable (decode_jpeg_to_yuv_planes host bytes)))
          (λ yuv.
            with_context (codes "RGB-512 decode failed")
              (or_fail undecodable (small_image host bytes))
            >>= λ small.
                joined host (codes "full-res YUV encode failed")
                  (thumbnail_task host small thumb_path) (yuv_task host yuv output_path))
          λ yuv.
            bind-Writes path (with_context _ (or_fail undecodable (small_image host bytes)))
              (λ small.
                joined host (codes "full-res YUV encode failed")
                  (thumbnail_task host small thumb_path) (yuv_task host yuv output_path))
              λ small. fast_joined-Writes path which small yuv _
