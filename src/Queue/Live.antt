-- ===== src/Queue/Live.antt =====
-- The tasks of a batch end where no call fails: `resolve_source`, `process_downloaded_post` and
-- `publish_status` of src/worker/src/queue.rs, and the downloads of src/worker/src/download.rs.
use ginbar.Prelude.{ℕ, Option, none, some, List, [], ◌∷◌, Text, codes, arith, if◌then◌else◌}
use ginbar.Database.{
  DirtyPost, DuplicateRow, finalize_post, delete_dirty_post, get_possible_duplicates,
}
use ginbar.World.{
  Error, unsupported, call_failed, bad_url, bad_status, no_source, M, Try, got, failed, attempt,
  ignore, with_context, call, pure, fail, encoding, decoding, dedup_check, finalizing,
  processing_video, ◌>>=◌, ◌>>◌,
}
use ginbar.World.FileSystem.{erase, write}
use ginbar.World.Calls.{nothing, remove_file, db_delete_dirty, db_finalize}
use ginbar.World.Answers.{
  Answers, pure-Answers, fail-Answers, bind-Answers, attempt-Answers, ignore-Answers,
  with_context-Answers, call-Answers, if-Answers,
}
use ginbar.Paths.{Directories, join}
use ginbar.Media.{FileType, classify_file}
use ginbar.Media
use ginbar.Download.{
  Http, Response, no_response, response, is_success, basename_of, append_to, create_file,
  write_chunks, stream_to_file, receive, request, fetch, download_file, download_pr0gramm_file,
}
use ginbar.Pipeline.{ImageResult, VideoResult, Processor}
use ginbar.Queue.Active.{enter_phase}
use ginbar.Queue.{
  DownloadedPost, starts_with, pr0gramm_img_base, fetched, resolve_url, resolve_upload,
  resolve_source, real_dups, settle_image, process_image_post, process_video_post, remove_temp,
  conclude, finish_post, process_as, process_downloaded_post, announce_if, report_duplicates,
  discard_files, reject, find_duplicates, finalize_video,
}

write_chunks-Answers :
    (path : Text) (chunks : List (Option Text)) → Answers (write_chunks path chunks)
unfolding write_chunks
write_chunks-Answers path [] = pure-Answers tt
write_chunks-Answers path (none ∷ chunks) = fail-Answers call_failed
write_chunks-Answers path (some chunk ∷ chunks) =
    bind-Answers (call nothing (append_to path chunk)) (λ _. write_chunks path chunks)
      (call-Answers nothing (append_to path chunk) (λ w h. h)) λ _. write_chunks-Answers path chunks

stream_to_file-Answers :
    (chunks : List (Option Text)) (path : Text) → Answers (stream_to_file chunks path)
unfolding stream_to_file
stream_to_file-Answers chunks path =
    bind-Answers (create_file path) (λ _. write_chunks path chunks >> call nothing (λ w. w))
      (call-Answers nothing (λ w. record w { files = write path [] w.files }) (λ w h. h))
      λ _.
        bind-Answers (write_chunks path chunks) (λ _. call nothing (λ w. w))
          (write_chunks-Answers path chunks) λ _. call-Answers nothing (λ w. w) (λ w h. h)

module _ (http : Http) (headers : List (Text × Text)) (what : Text) where
  receive-Answers : (r : Response) (dst : Text) → Answers (receive http headers what r dst)
  unfolding receive
  receive-Answers no_response dst = fail-Answers call_failed
  receive-Answers (response status chunks) dst =
      if-Answers (is_success status)
        (with_context what (stream_to_file chunks dst) >>= (λ _. pure dst))
        (fail (bad_status status))
        (bind-Answers (with_context what (stream_to_file chunks dst)) (λ _. pure dst)
          (with_context-Answers what (stream_to_file chunks dst)
            (stream_to_file-Answers chunks dst))
          λ _. pure-Answers dst)
        (fail-Answers (bad_status status))

  request-Answers :
      (parsed : Option (Option Text)) (url dir : Text)
      → Answers (request http headers what parsed url dir)
  unfolding request
  request-Answers none url dir = fail-Answers bad_url
  request-Answers (some name) url dir =
      receive-Answers (http.get url headers) (join dir (basename_of name))

  fetch-Answers : (url dir : Text) → Answers (fetch http headers what url dir)
  unfolding fetch
  fetch-Answers url dir = request-Answers (http.parse url) url dir

delete-Answers : (id : ℕ) → Answers (ignore (db_delete_dirty id))
delete-Answers id =
    ignore-Answers (db_delete_dirty id)
      (call-Answers nothing (λ w. record w { posts = delete_dirty_post id w.posts }) λ w h. h)

reject-Answers : (id : ℕ) (e : Error) → Answers (reject id e)
reject-Answers id e =
    bind-Answers (ignore (db_delete_dirty id)) (λ _. fail e) (delete-Answers id) λ _. fail-Answers e

module _ (http : Http) (dirs : Directories) (post : DirtyPost) where
  download-Answers :
      (url : Text)
      → Answers (
          if starts_with url pr0gramm_img_base
          then download_pr0gramm_file http url dirs.tmp
          else download_file http url dirs.tmp)
  unfolding download_file download_pr0gramm_file
  download-Answers url =
      if-Answers (starts_with url pr0gramm_img_base) (download_pr0gramm_file http url dirs.tmp)
        (download_file http url dirs.tmp) (fetch-Answers http _ _ url dirs.tmp)
        (fetch-Answers http _ _ url dirs.tmp)

  resolve_url-Answers : (url : Text) → Answers (resolve_url http dirs post url)
  unfolding resolve_url
  resolve_url-Answers [] =
      bind-Answers (ignore (db_delete_dirty post.id)) (λ _. fail (no_source post.id))
        (delete-Answers post.id) λ _. fail-Answers (no_source post.id)
  resolve_url-Answers (c ∷ url) =
      bind-Answers
        (with_context (codes "download failed") (
          if starts_with (c ∷ url) pr0gramm_img_base
          then download_pr0gramm_file http (c ∷ url) dirs.tmp
          else download_file http (c ∷ url) dirs.tmp))
        (λ path. pure (fetched post path))
        (with_context-Answers (codes "download failed") _ (download-Answers (c ∷ url)))
        λ path. pure-Answers (fetched post path)

  resolve_upload-Answers : (name : Text) → Answers (resolve_upload http dirs post name)
  unfolding resolve_upload
  resolve_upload-Answers [] = resolve_url-Answers post.url
  resolve_upload-Answers (c ∷ name) = pure-Answers _

  -- Finding a source comes to an end.
  pub resolve_source-Answers : Answers (resolve_source http dirs post)
  unfolding resolve_source
  resolve_source-Answers = resolve_upload-Answers post.uploaded_filename

module _ (images : Processor ImageResult) (videos : Processor VideoResult)
    (dirs : Directories) where
  settle_image-Answers :
      (post : DirtyPost) (res : ImageResult) (dups : List DuplicateRow)
      → Answers (settle_image dirs post res dups)
  unfolding settle_image discard_files report_duplicates announce_if
  settle_image-Answers post res [] = λ w h. ground arith
  settle_image-Answers post res (d ∷ dups) = λ w h. ground arith

  run-Answers : {Res : Type 0} (p : Processor Res) (input : Text) → Answers (p.run input)
  run-Answers p input w h = (p.ends input w h, p.same_script input w h)

  process_image_post-Answers :
      (post : DirtyPost) (input : Text) → Answers (process_image_post images dirs post input)
  unfolding process_image_post
  process_image_post-Answers post input w h =
      bind-Answers (images.run input)
        (λ res u.
          (find_duplicates res.p_hash >>= λ dups.
          settle_image dirs post res (real_dups post.id dups))
            (record u { active = enter_phase post.id dedup_check u.active }))
        (run-Answers images input)
        (λ res u e.
          bind-Answers (find_duplicates res.p_hash)
            (λ dups. settle_image dirs post res (real_dups post.id dups))
            (call-Answers
              (λ v.
                get_possible_duplicates res.p_hash.0 res.p_hash.1 res.p_hash.2 res.p_hash.3 v.posts)
              (λ v. v) (λ v k. k))
            (λ dups. settle_image-Answers post res (real_dups post.id dups))
            (record u { active = enter_phase post.id dedup_check u.active }) e)
        (record w { active = enter_phase post.id encoding w.active }) h

  process_video_post-Answers :
      (post : DirtyPost) (input mime : Text) → Answers (process_video_post videos post input mime)
  unfolding process_video_post
  process_video_post-Answers post input mime w h =
      bind-Answers (videos.run input)
        (λ res u.
          db_finalize (finalize_video post input mime res)
            (record u { active = enter_phase post.id finalizing u.active }))
        (run-Answers videos input)
        (λ res u e.
          call-Answers nothing
            (λ v. record v { posts = finalize_post (finalize_video post input mime res) v.posts })
            (λ v k. k) (record u { active = enter_phase post.id finalizing u.active }) e)
        (record w { active = enter_phase post.id processing_video w.active }) h

  remove_temp-Answers : (item : DownloadedPost) → Answers (remove_temp item)
  unfolding remove_temp
  remove_temp-Answers item =
      if-Answers item.is_temp (ignore (remove_file item.path)) (pure tt)
        (ignore-Answers (remove_file item.path)
          (call-Answers nothing (λ w. record w { files = erase item.path w.files }) λ w h. h))
        (pure-Answers tt)

  conclude-Answers : (item : DownloadedPost) (r : Try (Unit {0})) → Answers (conclude item r)
  unfolding conclude
  conclude-Answers item (got u) = pure-Answers tt
  conclude-Answers item (failed e) = reject-Answers item.post.id e

  finish_post-Answers :
      (item : DownloadedPost) (work : M (Unit {0})) → Answers work → Answers (finish_post item work)
  unfolding finish_post
  finish_post-Answers item work k =
      bind-Answers (attempt work) (λ r. remove_temp item >> conclude item r)
        (attempt-Answers work k)
        λ r.
          bind-Answers (remove_temp item) (λ _. conclude item r) (remove_temp-Answers item)
            λ _. conclude-Answers item r

  process_as-Answers :
      (item : DownloadedPost) (type : FileType) → Answers (process_as images videos dirs item type)
  unfolding process_as
  process_as-Answers item Media.image =
      finish_post-Answers item (process_image_post images dirs item.post item.path)
        (process_image_post-Answers item.post item.path)
  process_as-Answers item (Media.video mime) =
      finish_post-Answers item (process_video_post videos item.post item.path mime)
        (process_video_post-Answers item.post item.path mime)
  process_as-Answers item (Media.unknown mime) = reject-Answers item.post.id (unsupported mime)

  -- Processing a post comes to an end.
  pub process_downloaded_post-Answers :
      (item : DownloadedPost) → Answers (process_downloaded_post images videos dirs item)
  unfolding process_downloaded_post
  process_downloaded_post-Answers item w h =
      process_as-Answers item (classify_file item.path)
        (record w { active = enter_phase item.post.id decoding w.active }) h
