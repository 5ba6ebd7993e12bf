-- ===== src/Handler.antt =====
-- src/handler.rs: `parse_request` and the methods of `RequestHandler` that answer requests.
pub mod Commands
pub mod Auth
pub mod Cached
pub mod Replies
pub mod Unnamed
pub mod Listing
pub mod Fenced
use sqlite_server_rs.Prelude.{
  ℤ, Bool, true, false, not, Option, none, some, List, [], ◌∷◌, Text, bytes, text_eq, is_empty,
  Result, ok, err, if◌then◌else◌,
}
use sqlite_server_rs.Json.{str_field}
use sqlite_server_rs.Dict.{remove}
use sqlite_server_rs.Rust.FilePath.{join}
use sqlite_server_rs.Rust.Str.{eq_ignore_ascii_case}
use sqlite_server_rs.Rust.Utf8.{from_utf8_lossy}
use sqlite_server_rs.Store.{Deps}
use sqlite_server_rs.DatabaseName.{is_safe_database_name, is_sqlite_sidecar_file}
use sqlite_server_rs.Query.{QueryError, run_query}
use sqlite_server_rs.Session.{
  Session, invalid_format, no_command_specified, unknown_command, no_database_specified,
  error_reading_from_client,
}

module _ (d : Deps) where
  open d use {json, Value, World, from_str, repair_keys, read_dir, is_file, remove_file}

  -- a response, with the session after it
  abbrev pub Reply : Type 0
  Reply = Value × Session d

  unfoldable pub parse_request : Text → Result Value Text
  parse_request req = elim (from_str req) [
    | ok value ↦ ok value
    | err e ↦ from_str (repair_keys req)
  ]

  abbrev pub result_ok : Value
  result_ok = d.object ((bytes "result", d.string (bytes "ok")) ∷ [])

  abbrev pub result_error : Value
  result_error = d.object ((bytes "result", d.string (bytes "error")) ∷ [])

  -- `{"generic_error": code, "request": request}`
  abbrev pub generic_error : ℤ → Value → Value
  generic_error code request =
      d.object ((bytes "generic_error", d.number code) ∷ (bytes "request", request) ∷ [])

  abbrev pub invalid_request : Text → Text → Value
  invalid_request message req = d.object (
      (bytes "generic_error", d.number invalid_format)
      ∷ (bytes "message", d.string message)
      ∷ (bytes "request", d.string req)
      ∷ [])

  abbrev pub sql_error : QueryError → Value → Value
  sql_error e request = d.object (
      (bytes "error_code", d.number e.0)
      ∷ (bytes "error_message", d.string e.1)
      ∷ (bytes "query", request)
      ∷ [])

  abbrev pub query_reply : Value → Result Value QueryError → Value
  query_reply request (ok value) = value
  query_reply request (err e) = sql_error e request

  abbrev pub is_safe : Session d → Text → Bool
  is_safe s name = is_safe_database_name d s.world s.config.databases_folder name

  unfoldable pub handle_query : Value → Session d → Reply
  handle_query request s = elim (str_field json request (bytes "db")) [
    | none ↦ (generic_error no_database_specified request, s)
    | some db ↦ elim (str_field json request (bytes "query")) [
      | none ↦ (generic_error error_reading_from_client request, s)
      | some query ↦
          if not (is_safe s db)
          then (generic_error no_database_specified request, s)
          else let (result, s') = run_query d db query s in (query_reply request result, s')
    ]
  ]

  -- `metadata(path).map(|m| m.is_file()).unwrap_or(false)`
  abbrev pub is_regular : World → Text → Bool
  is_regular world path = elim (is_file world path) [ none ↦ false | some regular ↦ regular ]

  -- the loop over the entries of the folder; an entry that could not be read is skipped
  unfoldable pub list_names : World → Text → List (Option Text) → List Text
  list_names world folder [] = []
  list_names world folder (none ∷ entries) = list_names world folder entries
  list_names world folder (some file_name ∷ entries) =
      let name = from_utf8_lossy file_name in
      let rest = list_names world folder entries in
      if is_regular world (join folder file_name)
      then (if not (is_sqlite_sidecar_file name) then name ∷ rest else rest)
      else rest

  abbrev pub map_string : List Text → List Value
  map_string [] = []
  map_string (name ∷ names) = d.string name ∷ map_string names

  unfoldable pub handle_list : Session d → Value
  unfolding list_names
  handle_list s =
      let folder = s.config.databases_folder in
      let names : List Text = elim (read_dir s.world folder) [
        | none ↦ []
        | some entries ↦ list_names s.world folder entries
      ] in
      d.object ((bytes "list", d.array (map_string names)) ∷ [])

  -- the effects of `remove_file`, and the answer
  unfoldable pub delete_file : Text → Session d → Reply
  delete_file db s =
      let (removed, world) = remove_file (join s.config.databases_folder db) s.world in
      if removed
      then (result_ok, record s { world = world; databases = remove db s.databases })
      else (result_error, record s { world = world })

  unfoldable pub handle_delete_db : Value → Session d → Reply
  unfolding delete_file
  handle_delete_db request s = elim (str_field json request (bytes "db")) [
    | none ↦ (generic_error no_database_specified request, s)
    | some db ↦
        if not (is_safe s db)
        then (generic_error no_database_specified request, s)
        else delete_file db s
  ]

  unfoldable pub dispatch : Text → Text → Value → Session d → Reply
  unfolding handle_query handle_list handle_delete_db
  dispatch cmd req request s =
      if eq_ignore_ascii_case cmd (bytes "QUERY")
      then handle_query request s
      else if eq_ignore_ascii_case cmd (bytes "LIST")
      then (handle_list s, s)
      else if eq_ignore_ascii_case cmd (bytes "DELETE_DB")
      then handle_delete_db request s
      else (generic_error unknown_command (d.string req), s)

  -- `handle_request` after the authentication
  unfoldable pub run_command : Text → Value → Session d → Reply
  unfolding dispatch
  run_command req request s = elim (str_field json request (bytes "cmd")) [
    | none ↦ (generic_error no_command_specified (d.string req), s)
    | some cmd ↦ dispatch cmd req request s
  ]

  -- the request carries the password
  unfoldable pub carries_password : Text → Value → Bool
  carries_password password request = elim (str_field json request (bytes "auth")) [
    | none ↦ false
    | some auth ↦ text_eq auth password
  ]

  unfoldable pub answer : Text → Value → Session d → Reply
  unfolding run_command carries_password
  answer req request s =
      if not (is_empty s.config.auth)
      then if carries_password s.config.auth request
        then (result_ok, record s { authenticated = true })
        else if not s.authenticated
        then (result_error, s)
        else run_command req request s
      else run_command req request s

  unfoldable pub handle_request : Text → Session d → Reply
  unfolding parse_request answer
  handle_request req s = elim (parse_request req) [
    | err message ↦ (invalid_request message req, s)
    | ok request ↦ answer req request s
  ]
