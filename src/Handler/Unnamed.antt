-- ===== src/Handler/Unnamed.antt =====
-- Requests to src/handler.rs that name no database, or one that `is_safe_database_name` does not accept.
use sqlite_server_rs.Prelude.{
  ◌≡◌, refl, sym, ◌⊎◌, Bool, inl, inr, true, false, not, some, List, [], ◌∷◌, Text, bytes, is_empty,
  ok, All, Bool-cases, Option-cases, Result-cases, if◌then◌else◌,
}
use mathlib.Core.Path.{subst}
use sqlite_server_rs.Json.{str_field}
use sqlite_server_rs.Rust.Str.{eq_ignore_ascii_case}
use sqlite_server_rs.DatabaseName.{is_safe_database_name}
use sqlite_server_rs.Store.{Deps}
use sqlite_server_rs.Session.{Session}
use sqlite_server_rs.Handler.{
  Reply, result_error, handle_query, handle_delete_db, dispatch, run_command, answer,
  carries_password, parse_request, handle_request,
}
use sqlite_server_rs.Handler.Auth.{after}

module _ (d : Deps) where
  -- The request has no database, or one whose name is not accepted.
  abbrev pub NamesNone : d.World → Text → d.Value → Type 0
  NamesNone world folder request =
      (db : Text)
      → str_field d.json request (bytes "db") ≡ some db
      → is_safe_database_name d world folder db ≡ false

  abbrev pub ReadsNone : d.World → Text → Text → Type 0
  ReadsNone world folder req =
      (request : d.Value) → parse_request d req ≡ ok request → NamesNone world folder request

  handle_query-same :
      (request : d.Value) (s : Session d)
      → NamesNone s.world s.config.databases_folder request
      → (handle_query d request s).1 ≡ s
  unfolding handle_query
  handle_query-same request s h = elim (Option-cases (str_field d.json request (bytes "db"))) [
    | inl e ↦ rw (e, handle_query) refl
    | inr (db, e) ↦ elim (Option-cases (str_field d.json request (bytes "query"))) [
      | inl e' ↦ rw (e, handle_query, e') refl
      | inr (query, e') ↦ rw (e, handle_query, e', h db e) refl
    ]
  ]

  handle_delete_db-same :
      (request : d.Value) (s : Session d)
      → NamesNone s.world s.config.databases_folder request
      → (handle_delete_db d request s).1 ≡ s
  unfolding handle_delete_db
  handle_delete_db-same request s h = elim (Option-cases (str_field d.json request (bytes "db"))) [
    | inl e ↦ rw (e, handle_delete_db) refl
    | inr (db, e) ↦ rw (e, handle_delete_db, h db e) refl
  ]

  dispatch-same :
      (cmd req : Text) (request : d.Value) (s : Session d)
      → NamesNone s.world s.config.databases_folder request
      → (dispatch d cmd req request s).1 ≡ s
  unfolding dispatch
  dispatch-same cmd req request s h = elim (Bool-cases (eq_ignore_ascii_case cmd (bytes "QUERY"))) [
    | inl query ↦ rw (query, dispatch) (handle_query-same request s h)
    | inr no_query ↦ elim (Bool-cases (eq_ignore_ascii_case cmd (bytes "LIST"))) [
      | inl list ↦ rw (no_query, dispatch, list) refl
      | inr no_list ↦ elim (Bool-cases (eq_ignore_ascii_case cmd (bytes "DELETE_DB"))) [
        | inl delete ↦ rw (no_query, dispatch, no_list, delete) (handle_delete_db-same request s h)
        | inr unknown ↦ rw (no_query, dispatch, no_list, unknown) refl
      ]
    ]
  ]

  run_command-same :
      (req : Text) (request : d.Value) (s : Session d)
      → NamesNone s.world s.config.databases_folder request
      → (run_command d req request s).1 ≡ s
  unfolding run_command
  run_command-same req request s h = elim (Option-cases (str_field d.json request (bytes "cmd"))) [
    | inl e ↦ rw (e, run_command) refl
    | inr (cmd, e) ↦ rw (e, run_command) (dispatch-same cmd req request s h)
  ]

  -- The session stays as it was, or the connection is authenticated.
  abbrev IsSame : Session d → Session d → Type 0
  IsSame s s' = (s' ≡ s) ⊎ (s' ≡ record s { authenticated = true })

  same-if :
      (b : Bool) (s : Session d) (r : Reply d)
      → r.1 ≡ s
      → (if b then (result_error d, s) else r).1 ≡ s
  same-if true s r h = refl
  same-if false s r h = h

  handle_request-IsSame :
      (req : Text) (s : Session d)
      → ReadsNone s.world s.config.databases_folder req
      → IsSame s (handle_request d req s).1
  unfolding handle_request answer
  handle_request-IsSame req s h = elim (Result-cases (parse_request d req)) [
    | inr (message, e) ↦ rw (e, handle_request) (inl refl)
    | inl (request, e) ↦
        let same = run_command-same req request s (h request e) in
        elim (Bool-cases (is_empty s.config.auth)) [
          | inl unset ↦ rw (e, handle_request, unset) (inl same)
          | inr set ↦ elim (Bool-cases (carries_password d s.config.auth request)) [
            | inl given ↦ rw (e, handle_request, set, given) (inr refl)
            | inr missing ↦
                rw (e, handle_request, set, missing)
                  (inl (same-if (not s.authenticated) s (run_command d req request s) same))
          ]
        ]
  ]

  abbrev Kept : List Text → Session d → Session d → Type 0
  Kept reqs s s' = ((after d reqs s').world ≡ s.world) × ((after d reqs s').databases ≡ s.databases)

  -- Requests that name no database, or only such whose names are not accepted, leave the files and the
  -- databases, and the cache of connections, as they were, whatever their commands are and whether or
  -- not the client has authenticated or does so.
  pub after-ReadsNone :
      (reqs : List Text) (s : Session d)
      → All (ReadsNone s.world s.config.databases_folder) reqs
      → ((after d reqs s).world ≡ s.world) × ((after d reqs s).databases ≡ s.databases)
  unfolding after
  after-ReadsNone [] s h = (refl, refl)
  after-ReadsNone (req ∷ reqs) s (h, later) = elim (handle_request-IsSame req s h) [
    | inl same ↦ subst (Kept reqs s) (sym same) (after-ReadsNone reqs s later)
    | inr in_ ↦
        subst (Kept reqs s) (sym in_)
          (after-ReadsNone reqs (record s { authenticated = true }) later)
  ]
