-- ===== src/Handler/Fenced/Opening.antt =====
-- `get_connection` and `run_query` of src/handler.rs, where a database is only opened at a path
-- directly in the databases folder.
use sqlite_server_rs.Prelude.{
  ◌≡◌, refl, sym, ap, ◌∙◌, true, [], ◌∷◌, Text, is_empty, Result, map_err, Bool-cases, Option-cases,
  inl, inr,
}
use sqlite_server_rs.Dict.{lookup}
use sqlite_server_rs.Rust.FilePath.{is_absolute, components, normal, join}
use sqlite_server_rs.Rust.Str.{trim}
use sqlite_server_rs.DatabaseName.{resolves_inside, is_safe_database_name}
use sqlite_server_rs.DatabaseName.Inside.{strip_components-append}
use sqlite_server_rs.DatabaseName.Plain.{safe-is_direct_child}
use sqlite_server_rs.Store.{Deps, SqlError}
use sqlite_server_rs.Session.{Session, on_result}
use sqlite_server_rs.Query.{
  QueryError, map_sqlite_err, tune, on_world, cache, open_connection, get_connection, pragmas,
  run_query,
}
use sqlite_server_rs.Handler.{is_safe}
use sqlite_server_rs.Handler.Fenced.{
  is_directly_in, fenced, moved, moved_result, on_result-moved, run_statement-moved,
}

module _ (d : Deps) (folder : Text) (absolute : is_absolute folder ≡ true) where
  -- An accepted name stands directly in the folder.
  safe-is_directly_in :
      (world : d.World) (name : Text)
      → is_safe_database_name d world folder name ≡ true
      → is_directly_in folder (join folder name) ≡ true
  unfolding is_directly_in
  safe-is_directly_in world name h =
      let (file, e) = safe-is_direct_child d world folder name absolute h in
      rw (e, strip_components-append (components folder) (normal file ∷ [])) refl

  tune-moved :
      (db : Text) (conn : d.Connection) (s : Session d)
      → tune (fenced d folder) db conn (moved d folder s) ≡ moved_result d folder (tune d db conn s)
  unfolding tune on_world cache
  tune-moved db conn s =
      on_result-moved d folder
        (on_world d (d.execute_batch conn (pragmas s.config.busy_timeout_ms)) s).0 _ _
        (on_world d (d.execute_batch conn (pragmas s.config.busy_timeout_ms)) s).1 (λ _ s1. refl)

  opens :
      (path : Text) (w : d.World)
      → is_directly_in folder path ≡ true
      → (fenced d folder).open_database path w ≡ d.open_database path w
  opens path w inside = rw inside refl

  -- what follows an attempt to open a database
  after_opening :
      (D : Deps)
      → Text
      → Session D
      → Result D.Connection SqlError × D.World
      → Result D.Connection QueryError × Session D
  after_opening D db s o =
      on_result (map_err map_sqlite_err o.0) (tune D db) (record s { world = o.1 })

  open_connection-moved :
      (db : Text) (s : Session d)
      → is_directly_in folder (join s.config.databases_folder db) ≡ true
      → open_connection (fenced d folder) db (moved d folder s)
        ≡ moved_result d folder (open_connection d db s)
  unfolding open_connection on_world after_opening
  open_connection-moved db s inside =
      let path : Text = join s.config.databases_folder db in
      ap (after_opening (fenced d folder) db (moved d folder s)) (opens path s.world inside)
      ∙ on_result-moved d folder (on_world d (d.open_database path) s).0 _ _
          (on_world d (d.open_database path) s).1 (tune-moved db)

  get_connection-moved :
      (db : Text) (s : Session d)
      → is_directly_in folder (join s.config.databases_folder db) ≡ true
      → get_connection (fenced d folder) db (moved d folder s)
        ≡ moved_result d folder (get_connection d db s)
  unfolding get_connection
  get_connection-moved db s inside = elim (Option-cases (lookup db s.databases)) [
    | inl fresh ↦ rw (fresh, get_connection) (open_connection-moved db s inside)
    | inr (conn, e) ↦ rw (e, get_connection) refl
  ]

  pub run_query-moved :
      (db sql : Text) (s : Session d)
      → is_directly_in folder (join s.config.databases_folder db) ≡ true
      → run_query (fenced d folder) db sql (moved d folder s)
        ≡ moved_result d folder (run_query d db sql s)
  unfolding run_query on_world
  run_query-moved db sql s inside = elim (Bool-cases (is_empty (trim sql))) [
    | inl nothing ↦ rw (nothing, run_query) refl
    | inr something ↦
        rw (something, run_query, get_connection-moved db s inside)
          (on_result-moved d folder (get_connection d db s).0 _ _ (get_connection d db s).1
            λ conn s1.
              on_result-moved d folder (on_world d (d.prepare conn sql) s1).0 _ _
                (on_world d (d.prepare conn sql) s1).1 (run_statement-moved d folder))
  ]

  pub is_safe-moved :
      (db : Text) (s : Session d) → is_safe (fenced d folder) (moved d folder s) db ≡ is_safe d s db
  unfolding is_safe_database_name resolves_inside
  is_safe-moved db s = refl

  pub safe_file :
      (db : Text) (s : Session d)
      → s.config.databases_folder ≡ folder
      → is_safe d s db ≡ true
      → is_directly_in folder (join s.config.databases_folder db) ≡ true
  safe_file db s same safe =
      ap (λ f. is_directly_in folder (join f db)) same
      ∙ safe-is_directly_in s.world db
          (ap (λ f. is_safe_database_name d s.world f db) (sym same) ∙ safe)
