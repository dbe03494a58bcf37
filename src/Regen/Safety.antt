-- ===== src/Regen/Safety.antt =====
-- A post never loses its image while it is regenerated: `process_regen_item` of
-- src/worker/src/queue.rs removes the old files after the database names the new ones.
use ginbar.Prelude.{
  ◌≡◌, sym, ap, subst, ◌∙◌, ◌≢◌, ◌⊎◌, inl, inr, Bool, true, false, none, Text, codes,
}
use ginbar.Prelude.Int.{ℤ}
use ginbar.Database.{update_post_files}
use ginbar.World.{World, ok, with_context, ignore, Try, got, failed, attempt, call, ◌>>=◌}
use ginbar.World.FileSystem.{Files, file_at, is_file, erase}
use ginbar.World.Calls.{has_file, remove_file, db_update_files, nothing}
use ginbar.World.Rules.{
  Keeps, bind-Keeps, bind_ends, ignore-Keeps, attempt-Keeps, call-Keeps, with_context-Keeps,
  with_context-ok, with_context-world, call-ok,
}
use ginbar.Paths.{Directories, join}
use ginbar.Pipeline.{RegenerateResult, Regenerator}
use ginbar.Regen.{RegenItem}
use ginbar.Regen.Work.{
  remove_old_files, update_post, replace_files, when_present, process_regen_item,
}
use ginbar.Regen.Images.{Names, HasImage, HasImage-Names, Names-update_post_files, is_file-erase}

module _ (dirs : Directories) (regenerator : Regenerator dirs) (item : RegenItem) where
  -- Before the database is updated, and during it: the old name or the new one, and both images.
  record Between (new : Text) (w : World) : Type 0 where
    named : Names item.post_id item.filename w.posts ⊎ Names item.post_id new w.posts
    old_image : is_file (file_at (join dirs.image item.filename) w.files) ≡ true
    new_image : is_file (file_at (join dirs.image new) w.files) ≡ true

  -- From the update on: the new name, and its image.
  record Moved (new : Text) (w : World) : Type 0 where
    named : Names item.post_id new w.posts
    new_image : is_file (file_at (join dirs.image new) w.files) ≡ true

  Between-HasImage : (new : Text) (w : World) → Between new w → HasImage dirs item.post_id w
  Between-HasImage new w b = elim b.named [
    | inl n ↦ HasImage-Names dirs item.post_id item.filename w.files w.posts n b.old_image
    | inr n ↦ HasImage-Names dirs item.post_id new w.files w.posts n b.new_image
  ]

  Moved-HasImage : (new : Text) (w : World) → Moved new w → HasImage dirs item.post_id w
  Moved-HasImage new w m = HasImage-Names dirs item.post_id new w.files w.posts m.named m.new_image

  update-Between :
      (new g : Text) (width height : ℤ)
      → Keeps (Between new) (db_update_files item.post_id new g width height)
  update-Between new g width height =
      call-Keeps (Between new) nothing
        (λ w. record w { posts = update_post_files item.post_id new g width height w.posts })
        (λ w os b. record { named = b.named; old_image = b.old_image; new_image = b.new_image })
        (λ w b. record {
          named = inr (Names-update_post_files item.post_id new g width height w.posts);
          old_image = b.old_image;
          new_image = b.new_image;
        })

  remove-Moved :
      (new path : Text) → path ≢ join dirs.image new → Keeps (Moved new) (ignore (remove_file path))
  remove-Moved new path ne = ignore-Keeps (Moved new) (remove_file path) (
      call-Keeps (Moved new) nothing (λ w. record w { files = erase path w.files })
        (λ w os m. record { named = m.named; new_image = m.new_image })
        (λ w m. record {
          named = m.named;
          new_image = is_file-erase path (join dirs.image new) w.files ne m.new_image;
        }))

  remove_old_files-Moved :
      (new : Text)
      → join dirs.image item.filename ≢ join dirs.image new
      → join dirs.thumbnail item.thumbnail_filename ≢ join dirs.image new
      → Keeps (Moved new) (remove_old_files dirs item)
  unfolding remove_old_files
  remove_old_files-Moved new ne ne' =
      bind-Keeps (Moved new) (ignore (remove_file (join dirs.image item.filename)))
        (λ _. ignore (remove_file (join dirs.thumbnail item.thumbnail_filename)))
        (remove-Moved new (join dirs.image item.filename) ne)
        λ _. remove-Moved new (join dirs.thumbnail item.thumbnail_filename) ne'

  update_post-Between :
      (res : RegenerateResult) → Keeps (Between res.new_filename) (update_post item res)
  unfolding update_post
  update_post-Between res =
      with_context-Keeps (Between res.new_filename) (codes "update_post_files failed") _
        (update-Between res.new_filename res.new_thumbnail_filename res.width res.height)

  update_post-Moved :
      (res : RegenerateResult) (w : World) (done : Unit {0})
      → Between res.new_filename w
      → (update_post item res w).0 ≡ ok done
      → Moved res.new_filename (update_post item res w).1
  unfolding update_post
  update_post-Moved res w done b e =
      let effect = λ (u : World). record u {
        posts =
            update_post_files item.post_id res.new_filename res.new_thumbnail_filename res.width
              res.height u.posts;
      } in
      let c = codes "update_post_files failed" in
      let path =
        with_context-world c (call nothing effect) w
        ∙ call-ok nothing effect w done (with_context-ok c (call nothing effect) w done e) in
      subst (Moved res.new_filename) (sym path) (record {
        named =
            Names-update_post_files item.post_id res.new_filename res.new_thumbnail_filename
              res.width res.height w.posts;
        new_image = b.new_image;
      })

  -- The hypotheses on the item: its row names its file, and both its files are on disk.
  pub record IsStored (w : World) : Type 0 where
    pub named : Names item.post_id item.filename w.posts
    pub has_image : is_file (file_at (join dirs.image item.filename) w.files) ≡ true
    pub has_thumbnail :
        is_file (file_at (join dirs.thumbnail item.thumbnail_filename) w.files) ≡ true

  IsStored-HasImage : (w : World) → IsStored w → HasImage dirs item.post_id w
  IsStored-HasImage w s =
      HasImage-Names dirs item.post_id item.filename w.files w.posts s.named s.has_image

  run-IsStored : (src : Text) → Keeps IsStored (regenerator.run src)
  run-IsStored src w s = record {
    named = subst (Names item.post_id item.filename) (sym (regenerator.same_posts src w)) s.named;
    has_image = regenerator.kept src (join dirs.image item.filename) w s.has_image;
    has_thumbnail =
        regenerator.kept src (join dirs.thumbnail item.thumbnail_filename) w s.has_thumbnail;
  }

  -- A path that was free is none that was taken.
  fresh-ne :
      (taken free : Text) (fs : Files)
      → is_file (file_at taken fs) ≡ true
      → file_at free fs ≡ none
      → taken ≢ free
  fresh-ne taken free fs t f e = cc (ap (λ p. is_file (file_at p fs)) e, ap is_file f)

  finish-HasImage :
      (res : RegenerateResult) (w u : World)
      → IsStored w
      → u ≡ (regenerator.run (join dirs.image item.filename) w).1
      → (regenerator.run (join dirs.image item.filename) w).0 ≡ ok res
      → HasImage dirs item.post_id ((update_post item res >>= λ _. remove_old_files dirs item) u).1
  finish-HasImage res w u s e r =
      let run = regenerator.run (join dirs.image item.filename) w in
      let new = res.new_filename in
      let free = regenerator.fresh (join dirs.image item.filename) w res r in
      let kept : IsStored run.1 = run-IsStored (join dirs.image item.filename) w s in
      let b : Between new u = subst (Between new) (sym e) (record {
        named = inl kept.named;
        old_image = kept.has_image;
        new_image = regenerator.written (join dirs.image item.filename) w res r;
      }) in
      bind_ends (HasImage dirs item.post_id) (update_post item res)
        (λ _. remove_old_files dirs item) u
        (Between-HasImage new (update_post item res u).1 (update_post-Between res u b))
        λ done e'. Moved-HasImage new (remove_old_files dirs item (update_post item res u).1).1 (
          remove_old_files-Moved new
            (fresh-ne (join dirs.image item.filename) (join dirs.image new) w.files s.has_image
              free)
            (fresh-ne (join dirs.thumbnail item.thumbnail_filename) (join dirs.image new) w.files
              s.has_thumbnail free)
            (update_post item res u).1 (update_post-Moved res u done b e'))

  replace_files-HasImage :
      (w : World)
      → IsStored w
      → HasImage dirs item.post_id (replace_files dirs regenerator item w).1
  unfolding replace_files
  replace_files-HasImage w s =
      let c = codes "regenerate_image failed" in
      let run = regenerator.run (join dirs.image item.filename) in
      bind_ends (HasImage dirs item.post_id) (with_context c run)
        (λ res. update_post item res >>= λ _. remove_old_files dirs item) w
        (IsStored-HasImage (with_context c run w).1
          (with_context-Keeps IsStored c run (run-IsStored (join dirs.image item.filename)) w s))
        λ res e.
          finish-HasImage res w (with_context c run w).1 s (with_context-world c run w)
            (with_context-ok c run w res e)

  has_file-IsStored : (path : Text) → Keeps IsStored (has_file path)
  has_file-IsStored path =
      call-Keeps IsStored (λ w. is_file (file_at path w.files)) (λ w. w)
        (λ w os s. record {
          named = s.named;
          has_image = s.has_image;
          has_thumbnail = s.has_thumbnail;
        })
        (λ w s. s)

  when_present-HasImage :
      (t : Try Bool) (w : World)
      → IsStored w
      → HasImage dirs item.post_id (when_present dirs regenerator item t w).1
  unfolding when_present
  when_present-HasImage (got true) w s = replace_files-HasImage w s
  when_present-HasImage (got false) w s = IsStored-HasImage w s
  when_present-HasImage (failed e) w s = IsStored-HasImage w s

  -- Whichever calls fail or hang, and wherever a timeout cuts the work off, every row of the post
  -- still names an image that is on disk, if before the work it named the item's file and the item's
  -- two files were on disk.
  pub process_regen_item-HasImage :
      (w : World)
      → IsStored w
      → HasImage dirs item.post_id (process_regen_item dirs regenerator item w).1
  unfolding process_regen_item
  process_regen_item-HasImage w s =
      let path = join dirs.image item.filename in
      let here = attempt-Keeps IsStored (has_file path) (has_file-IsStored path) w s in
      bind_ends (HasImage dirs item.post_id) (attempt (has_file path))
        (when_present dirs regenerator item) w
        (IsStored-HasImage (attempt (has_file path) w).1 here)
        λ present _. when_present-HasImage present (attempt (has_file path) w).1 here
