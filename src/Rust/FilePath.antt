-- ===== src/Rust/FilePath.antt =====
-- `std::path` on Unix: a path is its bytes, with "/" between the components.
use sqlite_server_rs.Prelude.{
  ◌≡◌, refl, Bool, true, false, not, ◌&&◌, Option, none, some, List, [], ◌∷◌, ◌++◌, Text, bytes,
  text_eq, ◌==◌, if◌then◌else◌,
}
use sqlite_server_rs.Rust.Str.{split}

pub data Component : Type 0 where
  root_dir cur_dir parent_dir : Component
  normal : Text → Component

-- `Path::is_absolute`, which is `has_root` on Unix
unfoldable pub is_absolute : Text → Bool
is_absolute [] = false
is_absolute (x ∷ path) = x == b'/'

-- the components that a piece between separators gives; "." stands for nothing after the front
unfoldable pub piece : Text → List Component
piece p =
    if text_eq p []
    then []
    else if text_eq p (bytes ".")
    then []
    else if text_eq p (bytes "..")
    then parent_dir ∷ []
    else normal p ∷ []

unfoldable pub body : List Text → List Component
unfolding piece
body [] = []
body (p ∷ ps) = piece p ++ body ps

-- a leading "." is a component
unfoldable pub starts_cur_dir : Text → Bool
starts_cur_dir (x ∷ []) = x == b'.'
starts_cur_dir (x ∷ y ∷ path) = x == b'.' && y == b'/'
starts_cur_dir [] = false

unfoldable pub components : Text → List Component
unfolding body is_absolute starts_cur_dir split
components path =
    let rest = body (split b'/' path) in
    if is_absolute path
    then root_dir ∷ rest
    else if starts_cur_dir path
    then cur_dir ∷ rest
    else rest

-- the last byte is there and is no separator
unfoldable pub needs_separator : Text → Bool
needs_separator [] = false
needs_separator (x ∷ []) = not (x == b'/')
needs_separator (x ∷ y ∷ path) = needs_separator (y ∷ path)

-- `Path::join`
unfoldable pub join : Text → Text → Text
unfolding is_absolute needs_separator
join base path =
    if is_absolute path
    then path
    else if needs_separator base
    then base ++ b'/' ∷ path
    else base ++ path

unfoldable pub component_eq : Component → Component → Bool
component_eq root_dir root_dir = true
component_eq cur_dir cur_dir = true
component_eq parent_dir parent_dir = true
component_eq (normal a) (normal b) = text_eq a b
component_eq _ _ = false

-- the components of `path.strip_prefix(base)`; `none` where `base` is no prefix
unfoldable pub strip_components : List Component → List Component → Option (List Component)
unfolding component_eq
strip_components path [] = some path
strip_components [] (b ∷ base) = none
strip_components (p ∷ path) (b ∷ base) =
    if component_eq p b then strip_components path base else none

tests :
    (components (bytes "/a//b/./../c/")
      ≡ root_dir ∷ normal (bytes "a") ∷ normal (bytes "b") ∷ parent_dir ∷ normal (bytes "c") ∷ [])
    × (components (bytes "./x") ≡ cur_dir ∷ normal (bytes "x") ∷ [])
    × (components (bytes "x/.") ≡ normal (bytes "x") ∷ [])
    × (join (bytes "/data") (bytes "x.db") ≡ bytes "/data/x.db")
    × (join (bytes "/data/") (bytes "x.db") ≡ bytes "/data/x.db")
    × (join (bytes "/data") (bytes "/etc") ≡ bytes "/etc")
unfolding components join
tests = (refl, refl, refl, refl, refl, refl)
