-- ===== src/Media.antt =====
-- How a file's extension decides its treatment: `classify_file` of src/worker/src/queue.rs and
-- `can_decode_natively` of src/worker/src/processing.rs.
use ginbar.Prelude.{
  arith, true, ◌≡◌, refl, Bool, List, [], ◌∷◌, ◌++◌, Text, codes, text_eq, if◌then◌else◌,
}
use ginbar.Paths.{lower_extension, one_of}

pub data FileType : Type 0 where
  image : FileType
  video : Text → FileType
  unknown : Text → FileType

abbrev image_extensions : List Text
image_extensions =
    codes "jpg"
    ∷ codes "jpeg"
    ∷ codes "png"
    ∷ codes "gif"
    ∷ codes "webp"
    ∷ codes "avif"
    ∷ codes "jxl"
    ∷ codes "bmp"
    ∷ codes "tiff"
    ∷ codes "tif"
    ∷ []

-- The `match` on the extension in lower case.
unfoldable pub type_of : Text → FileType
unfolding one_of text_eq
type_of ext =
    if one_of ext image_extensions
    then image
    else if text_eq ext (codes "mp4")
    then video (codes "video/mp4")
    else if text_eq ext (codes "webm")
    then video (codes "video/webm")
    else if text_eq ext (codes "mov")
    then video (codes "video/quicktime")
    else if text_eq ext (codes "avi")
    then video (codes "video/x-msvideo")
    else if text_eq ext (codes "mkv")
    then video (codes "video/x-matroska")
    else unknown (codes "unknown/" ++ ext)

unfoldable pub classify_file : Text → FileType
unfolding type_of lower_extension
classify_file path = type_of (lower_extension path)

abbrev native_extensions : List Text
native_extensions =
    codes "jpg"
    ∷ codes "jpeg"
    ∷ codes "png"
    ∷ codes "webp"
    ∷ codes "gif"
    ∷ codes "bmp"
    ∷ codes "tiff"
    ∷ codes "tif"
    ∷ []

unfoldable pub can_decode_natively : Text → Bool
unfolding one_of lower_extension
can_decode_natively path = one_of (lower_extension path) native_extensions

-- `matches!(extension, Some("jpg" | "jpeg"))`.
unfoldable pub is_jpeg : Text → Bool
unfolding one_of lower_extension
is_jpeg path = one_of (lower_extension path) (codes "jpg" ∷ codes "jpeg" ∷ [])

clip_test : classify_file (codes "upload/clip.MKV") ≡ video (codes "video/x-matroska")
unfolding classify_file
clip_test = refl

-- A file that the worker would decode itself is classified as an image.
pub can_decode_natively-image :
    (path : Text) → can_decode_natively path ≡ true → classify_file path ≡ image
unfolding can_decode_natively classify_file type_of one_of
can_decode_natively-image path h = ground arith
