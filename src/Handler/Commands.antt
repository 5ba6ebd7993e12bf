-- ===== src/Handler/Commands.antt =====
-- What the commands do to the handler's own fields.
use sqlite_server_rs.Prelude.{◌≡◌, refl, inl, inr, true, Text, bytes, All, Bool-cases, Option-cases}
use sqlite_server_rs.Json.{str_field}
use sqlite_server_rs.Dict.{insert, All-remove}
use sqlite_server_rs.Rust.FilePath.{join}
use sqlite_server_rs.Rust.Str.{eq_ignore_ascii_case}
use sqlite_server_rs.Store.{Deps}
use sqlite_server_rs.Session.{Session}
use sqlite_server_rs.Query.Cache.{IsTuned, QueryEffect, run_query-QueryEffect}
use sqlite_server_rs.Handler.{
  is_safe, handle_query, delete_file, handle_delete_db, dispatch, run_command,
}

module _ (d : Deps) (P : Text → d.Connection → Type 0) where
  abbrev pub CacheOf : Session d → Type 0
  CacheOf s = All (λ (entry : Text × d.Connection). P entry.0 entry.1) s.databases

  -- The configuration and the authentication stay, and so does what holds of every cached connection and its name.
  pub record Keeps (s s' : Session d) : Type 0 where
    pub config : s'.config ≡ s.config
    pub authenticated : s'.authenticated ≡ s.authenticated
    pub cached : CacheOf s → CacheOf s'

  Keeps-refl : (s : Session d) → Keeps s s
  Keeps-refl s = record { config = refl; authenticated = refl; cached = λ h. h }

  Keeps-of_query :
      (db : Text) {s s' : Session d}
      → ((conn : d.Connection) → IsTuned d s.config db conn → P db conn)
      → QueryEffect d db s s'
      → Keeps s s'
  unfolding insert
  Keeps-of_query db p e = record {
    config = e.config;
    authenticated = e.authenticated;
    cached = λ h. elim e.databases [
      | inl same ↦ rw same h
      | inr (conn, absent, ready, new) ↦ rw new (p conn ready, All-remove P db _ h)
    ];
  }

  module _ (s : Session d)
      (safe : (db : Text) (conn : d.Connection)
        → is_safe d s db ≡ true
        → IsTuned d s.config db conn
        → P db conn) where
    handle_query-Keeps : (request : d.Value) → Keeps s (handle_query d request s).1
    unfolding handle_query
    handle_query-Keeps request = elim (Option-cases (str_field d.json request (bytes "db"))) [
      | inl e ↦ rw (e, handle_query) (Keeps-refl s)
      | inr (db, e) ↦ elim (Option-cases (str_field d.json request (bytes "query"))) [
        | inl e' ↦ rw (e, e', handle_query) (Keeps-refl s)
        | inr (query, e') ↦ elim (Bool-cases (is_safe d s db)) [
          | inl h ↦
              rw (e, e', h, handle_query)
                (Keeps-of_query db (λ conn. safe db conn h) (run_query-QueryEffect d db query s))
          | inr h ↦ rw (e, e', h, handle_query) (Keeps-refl s)
        ]
      ]
    ]

    delete_file-Keeps : (db : Text) → Keeps s (delete_file d db s).1
    unfolding delete_file
    delete_file-Keeps db =
        let path = join s.config.databases_folder db in
        elim (Bool-cases (d.remove_file path s.world).0) [
          | inl h ↦
              rw (h) (record {
                config = refl;
                authenticated = refl;
                cached = All-remove P db s.databases;
              })
          | inr h ↦ rw (h) (record { config = refl; authenticated = refl; cached = λ c. c })
        ]

    handle_delete_db-Keeps : (request : d.Value) → Keeps s (handle_delete_db d request s).1
    unfolding handle_delete_db
    handle_delete_db-Keeps request = elim (Option-cases (str_field d.json request (bytes "db"))) [
      | inl e ↦ rw (e, handle_delete_db) (Keeps-refl s)
      | inr (db, e) ↦ elim (Bool-cases (is_safe d s db)) [
        | inl h ↦ rw (e, h, handle_delete_db) (delete_file-Keeps db)
        | inr h ↦ rw (e, h, handle_delete_db) (Keeps-refl s)
      ]
    ]

    dispatch-Keeps : (cmd req : Text) (request : d.Value) → Keeps s (dispatch d cmd req request s).1
    unfolding dispatch
    dispatch-Keeps cmd req request = elim (Bool-cases (eq_ignore_ascii_case cmd (bytes "QUERY"))) [
      | inl q ↦ rw q (handle_query-Keeps request)
      | inr q ↦ elim (Bool-cases (eq_ignore_ascii_case cmd (bytes "LIST"))) [
        | inl l ↦ rw (q, l) (Keeps-refl s)
        | inr l ↦ elim (Bool-cases (eq_ignore_ascii_case cmd (bytes "DELETE_DB"))) [
          | inl e ↦ rw (q, l, e) (handle_delete_db-Keeps request)
          | inr e ↦ rw (q, l, e) (Keeps-refl s)
        ]
      ]
    ]

    pub run_command-Keeps :
        (req : Text) (request : d.Value) → Keeps s (run_command d req request s).1
    unfolding run_command
    run_command-Keeps req request = elim (Option-cases (str_field d.json request (bytes "cmd"))) [
      | inl e ↦ rw (e, run_command) (Keeps-refl s)
      | inr (cmd, e) ↦ rw (e, run_command) (dispatch-Keeps cmd req request)
    ]
