-- ===== src/Query.antt =====
-- src/handler.rs: `run_query`, `get_connection`, `map_sqlite_err` and `value_ref_to_json`.
pub mod SameHandler
pub mod Cache
pub mod Reuse
pub mod Fetch
pub mod Outcome
use mathlib.Core.Option
use sqlite_server_rs.Prelude.{
  ℕ, suc, ◌+◌, ℤ, pos, bit_and, Option, none, some, List, [], ◌∷◌, ◌++◌, map, Text, bytes, is_empty,
  Result, ok, err, map_err, if◌then◌else◌,
}
use sqlite_server_rs.Dict.{lookup, insert}
use sqlite_server_rs.Hex.{to_hex}
use sqlite_server_rs.Rust.Decimal.{decimal}
use sqlite_server_rs.Rust.FilePath.{join}
use sqlite_server_rs.Rust.Str.{trim}
use sqlite_server_rs.Rust.Utf8.{from_utf8_lossy}
use sqlite_server_rs.Store.{
  Deps, SqlError, sqlite_failure, other, ValueRef, null, integer, real, text, blob, Rows, done,
  failed, row,
}
use sqlite_server_rs.Session.{Session, Exec, on_result, sqlite_misuse}

-- the code and the message that `run_query` fails with
abbrev pub QueryError : Type 0
QueryError = ℤ × Text

unfoldable pub map_sqlite_err : SqlError → QueryError
map_sqlite_err (sqlite_failure extended_code message code_text) =
    (pos (bit_and extended_code 255), Option.get_or message code_text)
map_sqlite_err (other display) = (pos 1, display)

abbrev pub pragmas : ℕ → Text
pragmas busy_timeout_ms =
    bytes "PRAGMA journal_mode=WAL; PRAGMA busy_timeout="
    ++ (decimal busy_timeout_ms ++ bytes "; PRAGMA synchronous=NORMAL;")

module _ (d : Deps) where
  open d use {
    json, Value, World, Connection, Row, Float, from_f64, open_database, execute_batch, prepare,
    column_names, get_ref,
  }

  unfoldable pub value_ref_to_json : ValueRef Float → Value
  value_ref_to_json null = d.null
  value_ref_to_json (integer n) = d.number n
  value_ref_to_json (real f) = Option.get_or (from_f64 f) d.null
  value_ref_to_json (text s) = d.string (from_utf8_lossy s)
  value_ref_to_json (blob s) = d.string (bytes "X'" ++ (to_hex s ++ bytes "'"))

  -- a call of rusqlite: it changes the world, and its error is mapped
  unfoldable pub on_world : {A : Type 0} → (World → Result A SqlError × World) → Exec d A QueryError
  unfolding map_sqlite_err
  on_world call s = (map_err map_sqlite_err (call s.world).0, record s { world = (call s.world).1 })

  unfoldable pub cache : Text → Connection → Exec d Connection QueryError
  cache db conn s = (ok conn, record s { databases = insert db conn s.databases })

  -- the pragmas, on a database that has been opened
  unfoldable pub tune : Text → Connection → Exec d Connection QueryError
  unfolding on_world cache
  tune db conn s =
      let (tuned, s1) = on_world (execute_batch conn (pragmas s.config.busy_timeout_ms)) s in
      on_result tuned (λ _. cache db conn) s1

  unfoldable pub open_connection : Text → Exec d Connection QueryError
  unfolding on_world tune
  open_connection db s =
      let (opened, s1) = on_world (open_database (join s.config.databases_folder db)) s in
      on_result opened (tune db) s1

  unfoldable pub get_connection : Text → Exec d Connection QueryError
  unfolding open_connection
  get_connection db s = elim (lookup db s.databases) [
    | some conn ↦ (ok conn, s)
    | none ↦ open_connection db s
  ]

  -- the loop over the columns of a row, from index `i`: the insertions into its object
  unfoldable pub row_fields : Row → ℕ → List Text → Result (List (Text × Value)) SqlError
  unfolding value_ref_to_json
  row_fields r i [] = ok []
  row_fields r i (name ∷ columns) =
      let later = row_fields r (i + 1) columns in
      elim (get_ref r i) [
        | err e ↦ err e
        | ok value ↦ elim later [
          | err e ↦ err e
          | ok fields ↦ ok ((name, value_ref_to_json value) ∷ fields)
        ]
      ]

  -- the loop over `rows.next()`
  unfoldable pub fetch : List Text → List Value → Rows World Row → Exec d (List Value) QueryError
  unfolding row_fields map_sqlite_err
  fetch columns rows_data (done w) s = (ok rows_data, record s { world = w })
  fetch columns rows_data (failed e w) s = (err (map_sqlite_err e), record s { world = w })
  fetch columns rows_data (row r w rest) s =
      on_result (map_err map_sqlite_err (row_fields r 0 columns))
        (λ fields s1. fetch columns (rows_data ++ d.object fields ∷ []) rest s1)
        (record s { world = w })

  abbrev pub result_set : List Text → List Value → Value
  result_set columns rows_data =
      d.object
        ((bytes "columns", d.array (map d.string columns)) ∷ (bytes "data", d.array rows_data) ∷ [])

  -- from a prepared statement to the response
  unfoldable pub run_statement : d.Statement → Exec d Value QueryError
  unfolding on_world fetch
  run_statement stmt s =
      let columns = column_names stmt in
      let (started, s1) = on_world (d.query stmt) s in
      on_result started
        (λ rows s1.
          let (fetched, s2) = fetch columns [] rows s1 in
          on_result fetched (λ rows_data s2. (ok (result_set columns rows_data), s2)) s2)
        s1

  unfoldable pub run_query : Text → Text → Exec d Value QueryError
  unfolding get_connection run_statement on_world
  run_query db query s =
      if is_empty (trim query)
      then (err (sqlite_misuse, bytes "empty query"), s)
      else let (connected, s1) = get_connection db s in
        on_result connected
          (λ conn s1.
            let (prepared, s2) = on_world (prepare conn query) s1 in
            on_result prepared (λ stmt. run_statement stmt) s2)
          s1
