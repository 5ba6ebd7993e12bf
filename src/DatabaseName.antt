-- ===== src/DatabaseName.antt =====
-- src/handler.rs: `is_safe_database_name` and `is_sqlite_sidecar_file`.
pub mod Inside
pub mod Plain
use sqlite_server_rs.Prelude.{
  ℕ, Bool, true, false, not, ◌||◌, Option, none, some, List, [], ◌∷◌, Text, bytes, is_empty,
  if◌then◌else◌,
}
use sqlite_server_rs.Rust.FilePath.{
  Component, normal, is_absolute, components, join, strip_components,
}
use sqlite_server_rs.Rust.Str.{ends_with}
use sqlite_server_rs.Store.{Deps}

unfoldable pub is_sqlite_sidecar_file : Text → Bool
is_sqlite_sidecar_file name =
    ends_with name (bytes "-wal")
    || ends_with name (bytes "-shm")
    || ends_with name (bytes "-journal")

-- exactly one component, and a normal one
unfoldable pub is_single_name : List Component → Bool
is_single_name (normal name ∷ []) = true
is_single_name _ = false

-- `rel.components().count() == 1`
abbrev pub is_child : Option (List Component) → Bool
is_child (some (c ∷ [])) = true
is_child _ = false

module _ (d : Deps) where
  open d use {World, exists, canonicalize}

  -- whether the target, if it exists, resolves to a direct child of the folder
  unfoldable pub resolves_inside : World → Text → Text → Bool
  resolves_inside world folder full =
      if exists world full
      then elim (canonicalize world folder) [
        | none ↦ false
        | some base ↦ elim (canonicalize world full) [
          | none ↦ false
          | some resolved ↦ is_child (strip_components (components resolved) (components base))
        ]
      ]
      else true

  unfoldable pub is_safe_database_name : World → Text → Text → Bool
  unfolding is_single_name resolves_inside
  is_safe_database_name world folder name =
      if is_empty name
      then false
      else if is_absolute name
      then false
      else if not (is_single_name (components name))
      then false
      else resolves_inside world folder (join folder name)
