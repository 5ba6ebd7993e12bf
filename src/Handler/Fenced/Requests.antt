-- ===== src/Handler/Fenced/Requests.antt =====
-- The requests of src/handler.rs, where a database is only opened, and a file removed, at a path
-- directly in the databases folder.
use sqlite_server_rs.Prelude.{
  ◌≡◌, refl, ap, ◌∙◌, Bool, true, false, not, Option, none, some, List, [], ◌∷◌, Text, bytes,
  is_empty, Result, ok, err, Bool-cases, Option-cases, Result-cases, inl, inr, if◌then◌else◌,
}
use sqlite_server_rs.Json.{str_field}
use sqlite_server_rs.Rust.FilePath.{is_absolute, join}
use sqlite_server_rs.Rust.Str.{eq_ignore_ascii_case}
use sqlite_server_rs.Config.{Config}
use sqlite_server_rs.Store.{Deps}
use sqlite_server_rs.Session.{Session}
use sqlite_server_rs.Query.{QueryError, run_query}
use sqlite_server_rs.Handler.{
  is_safe, list_names, map_string, handle_query, handle_list, delete_file, handle_delete_db,
  dispatch, run_command, answer, handle_request, parse_request, result_error, carries_password,
  query_reply,
}
use sqlite_server_rs.Handler.Auth.{after, replies, request-authenticated}
use sqlite_server_rs.Handler.Fenced.{is_directly_in, fenced, moved, moved_result}
use sqlite_server_rs.Handler.Fenced.Opening.{run_query-moved, is_safe-moved, safe_file}

module _ (d : Deps) (folder : Text) (absolute : is_absolute folder ≡ true) where
  query_reply-moved :
      (request : d.Value) (r : Result d.Value QueryError)
      → query_reply (fenced d folder) request r ≡ query_reply d request r
  query_reply-moved request (ok v) = refl
  query_reply-moved request (err e) = refl

  handle_query-moved :
      (request : d.Value) (s : Session d)
      → s.config.databases_folder ≡ folder
      → handle_query (fenced d folder) request (moved d folder s)
        ≡ moved_result d folder (handle_query d request s)
  unfolding handle_query
  handle_query-moved request s same = elim (Option-cases (str_field d.json request (bytes "db"))) [
    | inl no_db ↦ rw (no_db, handle_query) refl
    | inr (db, e) ↦ elim (Option-cases (str_field d.json request (bytes "query"))) [
      | inl no_query ↦ rw (e, handle_query, no_query) refl
      | inr (sql, e') ↦ elim (Bool-cases (is_safe d s db)) [
        | inl safe ↦
            rw
              (
                e,
                handle_query,
                e',
                is_safe-moved d folder absolute db s,
                safe,
                run_query-moved d folder absolute db sql s
                    (safe_file d folder absolute db s same safe),
                query_reply-moved request (run_query d db sql s).0,
              )
              refl
        | inr unsafe ↦ rw (e, handle_query, e', is_safe-moved d folder absolute db s, unsafe) refl
      ]
    ]
  ]

  list_names-moved :
      (world : d.World) (base : Text) (entries : List (Option Text))
      → list_names (fenced d folder) world base entries ≡ list_names d world base entries
  unfolding list_names
  list_names-moved world base [] = refl
  list_names-moved world base (none ∷ entries) = list_names-moved world base entries
  list_names-moved world base (some name ∷ entries) = rw (list_names-moved world base entries) refl

  map_string-moved : (names : List Text) → map_string (fenced d folder) names ≡ map_string d names
  map_string-moved [] = refl
  map_string-moved (name ∷ names) = ap (λ vs. d.string name ∷ vs) (map_string-moved names)

  handle_list-moved :
      (s : Session d) → handle_list (fenced d folder) (moved d folder s) ≡ handle_list d s
  unfolding handle_list
  handle_list-moved s =
      let base : Text = s.config.databases_folder in
      elim (Option-cases (d.read_dir s.world base)) [
        | inl unread ↦ rw (unread, handle_list) refl
        | inr (entries, e) ↦
            rw
              (
                e,
                handle_list,
                list_names-moved s.world base entries,
                map_string-moved (list_names d s.world base entries),
              )
              refl
      ]

  delete_file-moved :
      (db : Text) (s : Session d)
      → is_directly_in folder (join s.config.databases_folder db) ≡ true
      → delete_file (fenced d folder) db (moved d folder s)
        ≡ moved_result d folder (delete_file d db s)
  unfolding delete_file
  delete_file-moved db s inside =
      elim (Bool-cases (d.remove_file (join s.config.databases_folder db) s.world).0) [
        | inl gone ↦ rw (inside, gone) refl
        | inr stays ↦ rw (inside, stays) refl
      ]

  handle_delete_db-moved :
      (request : d.Value) (s : Session d)
      → s.config.databases_folder ≡ folder
      → handle_delete_db (fenced d folder) request (moved d folder s)
        ≡ moved_result d folder (handle_delete_db d request s)
  unfolding handle_delete_db
  handle_delete_db-moved request s same =
      elim (Option-cases (str_field d.json request (bytes "db"))) [
        | inl no_db ↦ rw (no_db, handle_delete_db) refl
        | inr (db, e) ↦ elim (Bool-cases (is_safe d s db)) [
          | inl safe ↦
              rw (e, handle_delete_db, is_safe-moved d folder absolute db s, safe)
                (delete_file-moved db s (safe_file d folder absolute db s same safe))
          | inr unsafe ↦ rw (e, handle_delete_db, is_safe-moved d folder absolute db s, unsafe) refl
        ]
      ]

  dispatch-moved :
      (cmd req : Text) (request : d.Value) (s : Session d)
      → s.config.databases_folder ≡ folder
      → dispatch (fenced d folder) cmd req request (moved d folder s)
        ≡ moved_result d folder (dispatch d cmd req request s)
  unfolding dispatch
  dispatch-moved cmd req request s same =
      elim (Bool-cases (eq_ignore_ascii_case cmd (bytes "QUERY"))) [
        | inl query ↦ rw (query, dispatch) (handle_query-moved request s same)
        | inr no_query ↦ elim (Bool-cases (eq_ignore_ascii_case cmd (bytes "LIST"))) [
          | inl list ↦
              rw (no_query, dispatch, list) (ap (λ v. (v, moved d folder s)) (handle_list-moved s))
          | inr no_list ↦ elim (Bool-cases (eq_ignore_ascii_case cmd (bytes "DELETE_DB"))) [
            | inl delete ↦
                rw (no_query, dispatch, no_list, delete) (handle_delete_db-moved request s same)
            | inr unknown ↦ rw (no_query, dispatch, no_list, unknown) refl
          ]
        ]
      ]

  run_command-moved :
      (req : Text) (request : d.Value) (s : Session d)
      → s.config.databases_folder ≡ folder
      → run_command (fenced d folder) req request (moved d folder s)
        ≡ moved_result d folder (run_command d req request s)
  unfolding run_command
  run_command-moved req request s same =
      elim (Option-cases (str_field d.json request (bytes "cmd"))) [
        | inl no_cmd ↦ rw (no_cmd, run_command) refl
        | inr (cmd, e) ↦ rw (e, run_command) (dispatch-moved cmd req request s same)
      ]

  carried-moved :
      (password : Text) (request : d.Value)
      → carries_password (fenced d folder) password request ≡ carries_password d password request
  unfolding carries_password
  carried-moved password request = refl

  if-moved :
      {A : Type 0} (b : Bool) (x y : A × Session d) (x' y' : A × Session (fenced d folder))
      → x' ≡ moved_result d folder x
      → y' ≡ moved_result d folder y
      → (if b then x' else y') ≡ moved_result d folder (if b then x else y)
  if-moved true x y x' y' h k = h
  if-moved false x y x' y' h k = k

  answer-moved :
      (req : Text) (request : d.Value) (s : Session d)
      → s.config.databases_folder ≡ folder
      → answer (fenced d folder) req request (moved d folder s)
        ≡ moved_result d folder (answer d req request s)
  unfolding answer
  answer-moved req request s same = elim (Bool-cases (is_empty s.config.auth)) [
    | inl unset ↦ rw (unset, answer) (run_command-moved req request s same)
    | inr set ↦ elim (Bool-cases (carries_password d s.config.auth request)) [
      | inl given ↦ rw (set, answer, carried-moved s.config.auth request, given) refl
      | inr missing ↦
          rw (set, answer, carried-moved s.config.auth request, missing)
            (if-moved (not s.authenticated) (result_error d, s) (run_command d req request s)
              (result_error d, moved d folder s)
              (run_command (fenced d folder) req request (moved d folder s)) refl
              (run_command-moved req request s same))
    ]
  ]

  handle_request-fenced :
      (req : Text) (s : Session d)
      → s.config.databases_folder ≡ folder
      → handle_request (fenced d folder) req (moved d folder s)
        ≡ moved_result d folder (handle_request d req s)
  unfolding handle_request parse_request
  handle_request-fenced req s same = elim (Result-cases (parse_request d req)) [
    | inl (request, e) ↦ rw (e, handle_request) (answer-moved req request s same)
    | inr (message, e) ↦ rw (e, handle_request) refl
  ]

  -- Requests are answered alike, with the same session and the same world after them, where the calls
  -- that open a database and that remove a file fail for every path that is not, by its components,
  -- directly in the databases folder, if that is absolute. What the path resolves to, and what the SQL
  -- of a query opens, is not limited by that.
  pub requests_fenced :
      (reqs : List Text) (s : Session d)
      → s.config.databases_folder ≡ folder
      → (replies (fenced d folder) reqs (moved d folder s) ≡ replies d reqs s)
        × (after (fenced d folder) reqs (moved d folder s) ≡ moved d folder (after d reqs s))
  unfolding after replies
  requests_fenced [] s same = (refl, refl)
  requests_fenced (req ∷ reqs) s same =
      let kept = ap (λ (c : Config). c.databases_folder) (request-authenticated d req s).1 in
      let later = requests_fenced reqs (handle_request d req s).1 (kept ∙ same) in
      (
        rw (handle_request-fenced req s same) (ap (λ vs. (handle_request d req s).0 ∷ vs) later.0),
        rw (handle_request-fenced req s same) later.1,
      )
