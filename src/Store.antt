-- ===== src/Store.antt =====
-- The interfaces of rusqlite, the file system and the regex crate, which the program only calls. The
-- state of the world outside is a value that the calls pass on.
use sqlite_server_rs.Prelude.{ℕ, ℤ, Bool, Option, List, Text, Result}
use sqlite_server_rs.Json.{Json}

-- `rusqlite::Error`: a failure of SQLite, with its extended code as the 32 bits of a C int, its
-- message and the `Display` of its code; or another error, with its `Display`.
pub data SqlError : Type 0 where
  sqlite_failure : (extended_code : ℕ) (message : Option Text) (code_text : Text) → SqlError
  other : Text → SqlError

-- `rusqlite::types::ValueRef`
pub data ValueRef (Float : Type 0) : Type 0 where
  null : ValueRef Float
  integer : ℤ → ValueRef Float
  real : Float → ValueRef Float
  text blob : List ℕ → ValueRef Float

-- What the calls of `rows.next()` give, up to the last row or an error, with the world after each
-- call. A statement that never ends is outside the model.
pub data Rows (World Row : Type 0) : Type 0 where
  done : World → Rows World Row
  failed : SqlError → World → Rows World Row
  row : Row → World → Rows World Row → Rows World Row

pub record Deps : Type 1 where
  pub json : Json
  pub open json use *
  pub World : Type 0
  pub Connection : Type 0
  pub Statement : Type 0
  pub Row : Type 0
  pub Float : Type 0
  -- `serde_json::Number::from_f64`, as a value
  pub from_f64 : Float → Option Value
  -- `Regex::replace_all` with the expression and the replacement of `parse_request`
  pub repair_keys : Text → Text
  -- rusqlite
  pub open_database : Text → World → Result Connection SqlError × World
  pub execute_batch : Connection → Text → World → Result (Unit {0}) SqlError × World
  pub prepare : Connection → Text → World → Result Statement SqlError × World
  pub column_names : Statement → List Text
  pub query : Statement → World → Result (Rows World Row) SqlError × World
  pub get_ref : Row → ℕ → Result (ValueRef Float) SqlError
  -- std::fs
  pub exists : World → Text → Bool
  pub canonicalize : World → Text → Option Text
  -- the file names of a folder; `none` inside is an entry that could not be read
  pub read_dir : World → Text → Option (List (Option Text))
  -- `metadata(path).map(|m| m.is_file())`, following symbolic links
  pub is_file : World → Text → Option Bool
  -- whether the file was removed
  pub remove_file : Text → World → Bool × World
