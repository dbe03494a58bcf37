-- ===== src/Paths.antt =====
-- `std::path` as the worker uses it: joining, the last component, the extension; and the media
-- directories of src/worker/src/processing.rs.
use ginbar.Prelude.{
  ℕ, ◌+◌, ◌≡◌, refl, Bool, true, false, Option, none, some, ◌&&◌, ◌||◌, not, keep, List, [], ◌∷◌,
  ◌++◌, map, Text, codes, text_eq, ◌==◌, leb, if◌then◌else◌,
}

abbrev slash : ℕ
slash = b'/'

abbrev dot : ℕ
dot = b'.'

abbrev is_absolute : Text → Bool
is_absolute [] = false
is_absolute (c ∷ s) = c == slash

ends_with_slash : Text → Bool
ends_with_slash [] = true
ends_with_slash (c ∷ []) = c == slash
ends_with_slash (c ∷ d ∷ s) = ends_with_slash (d ∷ s)

-- `dir.join(name)`: an absolute name replaces the directory.
unfoldable pub join : Text → Text → Text
unfolding ends_with_slash
join dir name =
    if is_absolute name
    then name
    else if ends_with_slash dir
    then dir ++ name
    else dir ++ slash ∷ name

push_char : ℕ → List Text → List Text
push_char c [] = (c ∷ []) ∷ []
push_char c (t ∷ ts) = (c ∷ t) ∷ ts

-- The texts between the slashes.
split_slash : Text → List Text
unfolding push_char
split_slash [] = [] ∷ []
split_slash (c ∷ s) = let rest = split_slash s in if c == slash then [] ∷ rest else push_char c rest

abbrev is_normal : Text → Bool
is_normal t = not (text_eq t []) && not (text_eq t (dot ∷ []))

last? : List Text → Option Text
last? [] = none
last? (t ∷ []) = some t
last? (t ∷ u ∷ ts) = last? (u ∷ ts)

abbrev not_parent : Option Text → Option Text
not_parent none = none
not_parent (some t) = if text_eq t (dot ∷ dot ∷ []) then none else some t

-- `Path::file_name`: empty and `.` components do not count, and `..` has no name.
unfoldable pub file_name : Text → Option Text
unfolding split_slash last? text_eq
file_name path = not_parent (last? (keep is_normal (split_slash path)))

abbrev extend : ℕ → Text → Option (Text × Text) → Option (Text × Text)
extend c s (some (before, rest)) = some (c ∷ before, rest)
extend c s none = if c == dot then some ([], s) else none

-- A name at its last dot: what stands before it, and behind it.
split_dot : Text → Option (Text × Text)
split_dot [] = none
split_dot (c ∷ s) = extend c s (split_dot s)

abbrev behind : Option (Text × Text) → Option Text
behind none = none
behind (some ([], rest)) = none
behind (some (c ∷ before, rest)) = some rest

abbrev extension_of : Option Text → Option Text
extension_of none = none
extension_of (some name) = behind (split_dot name)

-- `Path::extension`: a dot that begins the name does not count.
unfoldable pub extension : Text → Option Text
unfolding file_name split_dot
extension path = extension_of (file_name path)

-- `to_lowercase`, on the letters of ASCII.
unfoldable pub to_lowercase : Text → Text
to_lowercase = map (λ c. if leb b'A' c && leb c b'Z' then c + 32 else c)

abbrev pub text_or_default : Option Text → Text
text_or_default none = []
text_or_default (some t) = t

-- `path.extension().map(|e| e.to_string_lossy().to_lowercase()).unwrap_or_default()`.
unfoldable pub lower_extension : Text → Text
unfolding extension to_lowercase
lower_extension path = to_lowercase (text_or_default (extension path))

unfoldable pub one_of : Text → List Text → Bool
one_of t [] = false
one_of t (u ∷ us) = text_eq t u || one_of t us

pub record Directories : Type 0 where
  pub image : Text
  pub thumbnail : Text
  pub video : Text
  pub tmp : Text
  pub upload : Text

abbrev cwd_or_dot : Option Text → Text
cwd_or_dot none = dot ∷ []
cwd_or_dot (some d) = d

-- `from_cwd`; the working directory is `.` where it cannot be read.
unfoldable pub from_cwd : Option Text → Directories
unfolding join
from_cwd current =
    let cwd = cwd_or_dot current in
    record {
      image = join cwd (codes "public/images");
      thumbnail = join cwd (codes "public/images/thumbnails");
      video = join cwd (codes "public/videos");
      tmp = join cwd (codes "tmp");
      upload = join cwd (codes "public/upload");
    }

extension_test : lower_extension (codes "/tmp/a.b/Photo.JPeG") ≡ codes "jpeg"
unfolding lower_extension
extension_test = refl

hidden_test : extension (codes "/tmp/.jpg") ≡ none
unfolding extension
hidden_test = refl

file_name_test : file_name (codes "tmp/x.png/./") ≡ some (codes "x.png")
unfolding file_name
file_name_test = refl
