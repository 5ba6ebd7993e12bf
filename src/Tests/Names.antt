-- ===== src/Tests/Names.antt =====
-- Database names.
use sqlite_server_rs.Prelude.{◌≡◌, refl, ◌↔◌, ◌⊎◌, true, false, Text, bytes, [], ◌∷◌, ◌++◌}
use sqlite_server_rs.Rust.FilePath.{normal, is_absolute, components, join, strip_components}
use sqlite_server_rs.DatabaseName.{is_safe_database_name}
use sqlite_server_rs.DatabaseName.Plain.{
  IsPlainName, ResolvesInside, safe-is_direct_child, is_safe_iff,
}
use sqlite_server_rs.Tests.Machine.{deps, folder, world}

absolute_folder : is_absolute folder ≡ true
unfolding is_absolute
absolute_folder = refl

-- "sales" is there, and resolves to itself
sales_is_safe : is_safe_database_name deps world folder (bytes "sales") ≡ true
unfolding is_safe_database_name components join strip_components
sales_is_safe = refl

-- A name that climbs out of the folder is refused.
parent_is_unsafe : is_safe_database_name deps world folder (bytes "../sales") ≡ false
unfolding is_safe_database_name components join strip_components
parent_is_unsafe = refl

-- A trailing separator is accepted.
trailing_separator_is_safe : is_safe_database_name deps world folder (bytes "new/") ≡ true
unfolding is_safe_database_name components join strip_components
trailing_separator_is_safe = refl

safe-is_direct_child_example :
    (file : Text) × (components (join folder (bytes "sales"))
      ≡ components folder ++ normal file ∷ [])
safe-is_direct_child_example =
    safe-is_direct_child deps world folder (bytes "sales") absolute_folder sales_is_safe

is_safe_iff_example : (is_safe_database_name deps world folder (bytes "sales") ≡ true) ↔ (
    IsPlainName (bytes "sales")
    × ((deps.exists world (join folder (bytes "sales")) ≡ false)
        ⊎ ResolvesInside deps world folder (bytes "sales")))
is_safe_iff_example = is_safe_iff deps world folder (bytes "sales")
