-- ===== src/Download/Contents.antt =====
-- What a successful download leaves on disk (src/worker/src/download.rs).
use ginbar.Prelude.{
  ℕ, ◌≡◌, refl, sym, ap, subst, ◌∙◌, Bool, true, false, Option, none, some, List, [], ◌∷◌, ◌++◌,
  append_assoc, append-nil, Text, text_eq_refl, codes, arith, if◌then◌else◌,
}
use ginbar.World.{World, bad_status, ok, pure, fail, with_context, call, rest_of, ◌>>=◌, ◌>>◌}
use ginbar.World.FileSystem.{file_at, write, file_at-write}
use ginbar.World.Calls.{nothing}
use ginbar.World.Rules.{bind-ok, call-ok, with_context-ok, with_context-world}
use ginbar.Paths.{join, text_or_default}
use ginbar.Download.{
  Http, Response, no_response, response, basename_of, is_success, append_to, create_file,
  write_chunks, stream_to_file, receive, request, fetch, download_file,
}

-- The body of a response, if none of it is missing.
unfoldable pub body : List (Option Text) → Option Text
body [] = some []
body (none ∷ chunks) = none
body (some chunk ∷ chunks) = elim (body chunks) [ none ↦ none | some rest ↦ some (chunk ++ rest) ]

-- The file at the path goes on with the chunks, none of which is missing.
abbrev Extended : Text → List (Option Text) → World → World → Type 0
Extended path chunks w u =
    (bytes : Text) × (body chunks ≡ some bytes)
    × (text_or_default (file_at path u.files) ≡ text_or_default (file_at path w.files) ++ bytes)

file_at-append :
    (path chunk : Text) (w : World)
    → text_or_default (file_at path (append_to path chunk w).files)
      ≡ text_or_default (file_at path w.files) ++ chunk
file_at-append path chunk w = ground (
  arith,
  file_at-write path path (text_or_default (file_at path w.files) ++ chunk) w.files,
  text_eq_refl path,
)

write_chunks-ok :
    (path : Text) (chunks : List (Option Text)) (w : World)
    → (write_chunks path chunks w).0 ≡ ok tt
    → Extended path chunks w (write_chunks path chunks w).1
unfolding write_chunks body
write_chunks-ok path [] w h = ([], refl, sym (append-nil (text_or_default (file_at path w.files))))
write_chunks-ok path (none ∷ chunks) w h = cc
write_chunks-ok path (some chunk ∷ chunks) w h =
    let put = call nothing (append_to path chunk) in
    let s = bind-ok put (λ _. write_chunks path chunks) w tt h in
    let here = call-ok nothing (append_to path chunk) w tt s.1 in
    let (bytes, e, f) = write_chunks-ok path chunks (put w).1 s.2 in
    (
      chunk ++ bytes,
      rw e refl,
      ap (λ r. text_or_default (file_at path r.1.files)) s.3
          ∙ (f
              ∙ (ap (λ u. text_or_default (file_at path u.files) ++ bytes) here
                  ∙ (ap (λ t. t ++ bytes)
                        (file_at-append path chunk (record w { script = rest_of w.script }))
                      ∙ append_assoc (text_or_default (file_at path w.files)) chunk bytes))),
    )

stream_to_file-ok :
    (path : Text) (chunks : List (Option Text)) (w : World)
    → (stream_to_file chunks path w).0 ≡ ok tt
    → (bytes : Text) × (body chunks ≡ some bytes)
      × (text_or_default (file_at path (stream_to_file chunks path w).1.files) ≡ bytes)
unfolding stream_to_file
stream_to_file-ok path chunks w h =
    let last = call nothing (λ u. u) in
    let s = bind-ok (create_file path) (λ _. write_chunks path chunks >> last) w tt h in
    let u = (create_file path w).1 in
    let s' = bind-ok (write_chunks path chunks) (λ _. last) u tt s.2 in
    let (bytes, e, f) = write_chunks-ok path chunks u s'.1 in
    let made = call-ok nothing (λ v. record v { files = write path [] v.files }) w tt s.1 in
    let flushed = call-ok nothing (λ v. v) (write_chunks path chunks u).1 tt s'.2 in
    let empty : text_or_default (file_at path (write path [] w.files)) ≡ [] =
      ground (arith, file_at-write path path [] w.files, text_eq_refl path) in
    (
      bytes,
      e,
      ap (λ r. text_or_default (file_at path r.1.files)) (s.3 ∙ s'.3)
          ∙ (ap (λ v. text_or_default (file_at path v.files)) flushed
              ∙ (f
                  ∙ (ap (λ v. text_or_default (file_at path v.files) ++ bytes) made
                      ∙ ap (λ t. t ++ bytes) empty))),
    )

-- What a successful GET means for the file at `path`: the server answered with a 2xx status and a whole
-- body, and the file holds the body.
pub data Fetched (path : Text) (w : World) : Response → Type 0 where
  fetched :
      (status : ℕ) (chunks : List (Option Text)) (bytes : Text)
      → is_success status ≡ true
      → body chunks ≡ some bytes
      → text_or_default (file_at path w.files) ≡ bytes
      → Fetched path w (response status chunks)

module _ (http : Http) (headers : List (Text × Text)) (what : Text) where
  receive-ok :
      (r : Response) (dst path : Text) (w : World)
      → (receive http headers what r dst w).0 ≡ ok path
      → (path ≡ dst) × Fetched dst (receive http headers what r dst w).1 r
  unfolding receive
  receive-ok no_response dst path w h = cc
  receive-ok (response status chunks) dst path w h = by_status (is_success status) refl h
    where
      by_status :
          (b : Bool)
          → is_success status ≡ b
          → ((if b
                then with_context what (stream_to_file chunks dst) >>= (λ _. pure dst)
                else fail (bad_status status))
              w).0
            ≡ ok path
          → (path ≡ dst)
            × Fetched dst
                ((if b
                    then with_context what (stream_to_file chunks dst) >>= (λ _. pure dst)
                    else fail (bad_status status))
                  w).1
                (response status chunks)
      by_status false e k = cc
      by_status true e k =
          let s =
            bind-ok (with_context what (stream_to_file chunks dst)) (λ _. pure dst) w path k in
          let done = with_context-ok what (stream_to_file chunks dst) w tt s.1 in
          let (bytes, whole, here) = stream_to_file-ok dst chunks w done in
          (
            cc s.2,
            fetched status chunks bytes e whole (
                ap (λ r. text_or_default (file_at dst r.1.files)) s.3
                ∙ (ap (λ u. text_or_default (file_at dst u.files))
                      (with_context-world what (stream_to_file chunks dst) w)
                    ∙ here)),
          )

  -- The answer that a parsed URL leads to.
  request-ok :
      (parsed : Option (Option Text)) (url dir path : Text) (w : World)
      → (request http headers what parsed url dir w).0 ≡ ok path
      → (name : Option Text) × (parsed ≡ some name)
        × (path ≡ join dir (basename_of name))
        × Fetched path (request http headers what parsed url dir w).1 (http.get url headers)
  unfolding request
  request-ok none url dir path w h = cc
  request-ok (some name) url dir path w h =
      let (e, f) = receive-ok (http.get url headers) (join dir (basename_of name)) path w h in
      (
        name,
        refl,
        e,
        subst
            (λ p.
              Fetched p
                (receive http headers what (http.get url headers) (join dir (basename_of name)) w).1
                (http.get url headers))
            (sym e) f,
      )

-- Whichever calls fail, a download that succeeds came from a URL that parses and a whole answer with a
-- 2xx status; its path is the directory and the last segment of the URL, or `download`, and the file
-- there holds the chunks of the answer one after the other.
pub download_file-ok :
    (http : Http) (url dir path : Text) (w : World)
    → (download_file http url dir w).0 ≡ ok path
    → (name : Option Text) × (http.parse url ≡ some name)
      × (path ≡ join dir (basename_of name))
      × Fetched path (download_file http url dir w).1 (http.get url [])
unfolding download_file fetch
download_file-ok http url dir path w =
    request-ok http [] (codes "download: stream to file") (http.parse url) url dir path w
