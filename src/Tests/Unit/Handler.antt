-- ===== src/Tests/Unit/Handler.antt =====
-- The unit tests of src/handler.rs.
use sqlite_server_rs.Prelude.{◌≡◌, refl, Bool, true, not, ◌&&◌, [], ◌∷◌, Text, bytes, text_eq}
use sqlite_server_rs.Hex.{to_hex}
use sqlite_server_rs.Rust.Str.{ends_with}
use sqlite_server_rs.Rust.FilePath.{components, join}
use sqlite_server_rs.DatabaseName.{is_sqlite_sidecar_file, is_safe_database_name}
use sqlite_server_rs.Tests.Machine.{deps, folder}

abbrev hex_encoding_is_lowercase : Bool
hex_encoding_is_lowercase =
    text_eq (to_hex (0 ∷ 255 ∷ 16 ∷ 171 ∷ [])) (bytes "00ff10ab") && text_eq (to_hex []) []

hex_test : hex_encoding_is_lowercase ≡ true
unfolding to_hex
hex_test = refl

abbrev sidecar_files_are_detected : Bool
sidecar_files_are_detected =
    is_sqlite_sidecar_file (bytes "mydb-wal")
    && is_sqlite_sidecar_file (bytes "mydb-shm")
    && is_sqlite_sidecar_file (bytes "mydb-journal")
    && not (is_sqlite_sidecar_file (bytes "mydb"))
    && not (is_sqlite_sidecar_file (bytes "mydb.db"))

sidecar_test : sidecar_files_are_detected ≡ true
unfolding is_sqlite_sidecar_file ends_with
sidecar_test = refl

-- in an empty folder
abbrev safe : Text → Bool
safe name = is_safe_database_name deps [] folder name

abbrev database_name_safety : Bool
database_name_safety =
    safe (bytes "mydb.db")
    && safe (bytes "sales")
    && not (safe (bytes ""))
    && not (safe (bytes "."))
    && not (safe (bytes ".."))
    && not (safe (bytes "../escape"))
    && not (safe (bytes "sub/dir"))
    && not (safe (bytes "/etc/passwd"))

name_test : database_name_safety ≡ true
unfolding is_safe_database_name components join
name_test = refl
