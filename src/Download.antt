-- ===== src/Download.antt =====
-- src/worker/src/download.rs: a file is fetched and streamed to disk. `reqwest` (the parser of URLs
-- and the HTTP client) is a parameter.
pub mod Contents
use ginbar.Prelude.{
  ℕ, Bool, Option, none, some, List, [], ◌∷◌, ◌++◌, ◌&&◌, Text, codes, leb, ltb, if◌then◌else◌,
}
use ginbar.World.{
  World, M, bad_status, bad_url, call_failed, pure, fail, with_context, call, ◌>>=◌, ◌>>◌,
}
use ginbar.World.Calls.{nothing}
use ginbar.World.FileSystem.{write, file_at}
use ginbar.Paths.{join, text_or_default}

-- What a GET comes to: no response, or a status and the chunks of the body, `none` where the body
-- breaks off.
pub data Response : Type 0 where
  no_response : Response
  response : ℕ → List (Option Text) → Response

pub record Http : Type 0 where
  -- `url.parse()`, and the last of its path segments if it has any.
  pub parse : Text → Option (Option Text)
  pub get : Text → List (Text × Text) → Response

-- `path_segments().and_then(next_back).unwrap_or("download")`
abbrev pub basename_of : Option Text → Text
basename_of none = codes "download"
basename_of (some name) = name

-- `is_success`
abbrev pub is_success : ℕ → Bool
is_success status = leb 200 status && ltb status 300

-- `File::create` empties a file that is there.
abbrev pub create_file : Text → M (Unit {0})
create_file path = call nothing (λ w. record w { files = write path [] w.files })

abbrev pub append_to : Text → Text → World → World
append_to path chunk w = record w {
  files = write path (text_or_default (file_at path w.files) ++ chunk) w.files;
}

-- The loop over the stream: what was written before an error stays on disk.
unfoldable pub write_chunks : Text → List (Option Text) → M (Unit {0})
write_chunks path [] = pure tt
write_chunks path (none ∷ chunks) = fail call_failed
write_chunks path (some chunk ∷ chunks) =
    call nothing (append_to path chunk) >> write_chunks path chunks

unfoldable pub stream_to_file : List (Option Text) → Text → M (Unit {0})
unfolding write_chunks
stream_to_file chunks path = do create_file path; write_chunks path chunks; call nothing (λ w. w)

module _ (http : Http) (headers : List (Text × Text)) (what : Text) where
  -- From the response on.
  unfoldable pub receive : Response → Text → M Text
  receive no_response dst = fail call_failed
  receive (response status chunks) dst =
      if is_success status
      then with_context what (stream_to_file chunks dst) >>= (λ _. pure dst)
      else fail (bad_status status)

  -- From the parsed URL on.
  unfoldable pub request : Option (Option Text) → Text → Text → M Text
  unfolding receive
  request none url dir = fail bad_url
  request (some name) url dir = receive (http.get url headers) (join dir (basename_of name))

  unfoldable pub fetch : Text → Text → M Text
  unfolding request
  fetch url dir = request (http.parse url) url dir

unfoldable pub download_file : Http → Text → Text → M Text
unfolding fetch
download_file http = fetch http [] (codes "download: stream to file")

-- The same with the headers that the host asks for.
unfoldable pub download_pr0gramm_file : Http → Text → Text → M Text
unfolding fetch
download_pr0gramm_file http =
    fetch http
      ((codes "User-Agent", codes "Mozilla/5.0 (compatible; Wallium/1.0)")
        ∷ (codes "Referer", codes "https://pr0gramm.com/")
        ∷ [])
      (codes "pr0gramm download: stream to file")
