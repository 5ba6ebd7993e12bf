-- ===== src/Query/Reuse.antt =====
-- `get_connection` of src/handler.rs: the connection that it gives, and gives again.
use mathlib.Core.Path.{subst}
use sqlite_server_rs.Prelude.{
  ◌≡◌, ◌∙◌, ap, inl, inr, some, arith, Text, ok, Option-cases, Result-cases, text_eq_refl,
}
use sqlite_server_rs.Dict.{lookup, lookup-insert}
use sqlite_server_rs.Rust.FilePath.{join}
use sqlite_server_rs.Store.{Deps}
use sqlite_server_rs.Session.{Session}
use sqlite_server_rs.Query.{on_world, cache, open_connection, get_connection, pragmas}
use sqlite_server_rs.Query.Cache.{IsTuned}

module _ (d : Deps) where
  -- A query on a database that is cached uses that connection: nothing is opened.
  pub get_connection_cached :
      (db : Text) (conn : d.Connection) (s : Session d)
      → lookup db s.databases ≡ some conn
      → get_connection d db s ≡ (ok conn, s)
  unfolding get_connection
  get_connection_cached db conn s e = rw (e, get_connection)

  open_connection-cached :
      (db : Text) (s : Session d) (conn : d.Connection)
      → (open_connection d db s).0 ≡ ok conn
      → lookup db (open_connection d db s).1.databases ≡ some conn
  unfolding open_connection on_world cache
  open_connection-cached db s conn e =
      let opened = d.open_database (join s.config.databases_folder db) s.world in
      elim (Result-cases opened.0) [
        | inr (failure, f) ↦ absurd (ground arith)
        | inl (c, o) ↦
            elim (Result-cases (d.execute_batch c (pragmas s.config.busy_timeout_ms) opened.1).0) [
              | inr (failure, f) ↦ absurd (ground arith)
              | inl (_, t) ↦
                  let same : c ≡ conn = ground arith in
                  ground (arith, text_eq_refl db, lookup-insert db db c s.databases)
            ]
      ]

  -- A connection that has just been opened is set up.
  pub open_connection-IsTuned :
      (db : Text) (s : Session d) (conn : d.Connection)
      → (open_connection d db s).0 ≡ ok conn
      → IsTuned d s.config db conn
  unfolding open_connection on_world cache
  open_connection-IsTuned db s conn e =
      let opened = d.open_database (join s.config.databases_folder db) s.world in
      elim (Result-cases opened.0) [
        | inr (failure, f) ↦ absurd (ground arith)
        | inl (c, o) ↦
            elim (Result-cases (d.execute_batch c (pragmas s.config.busy_timeout_ms) opened.1).0) [
              | inr (failure, f) ↦ absurd (ground arith)
              | inl (_, t) ↦
                  let same : c ≡ conn = ground arith in
                  record {
                    before = s.world;
                    opened = o ∙ ap ok same;
                    tuned =
                        subst
                          (λ k.
                            (d.execute_batch k (pragmas s.config.busy_timeout_ms) opened.1).0
                            ≡ ok tt)
                          same t;
                  }
            ]
      ]

  get_connection-cached :
      (db : Text) (s : Session d) (conn : d.Connection)
      → (get_connection d db s).0 ≡ ok conn
      → lookup db (get_connection d db s).1.databases ≡ some conn
  unfolding get_connection
  get_connection-cached db s conn e = elim (Option-cases (lookup db s.databases)) [
    | inl absent ↦
        rw (absent, get_connection)
          (open_connection-cached db s conn (rw (absent, get_connection) at e))
    | inr (c, found) ↦ rw (found, get_connection) (found ∙ ground arith)
  ]

  -- The connection that a query on a database got is the one that the next query on it gets, with no
  -- database opened.
  pub get_connection_again :
      (db : Text) (s : Session d) (conn : d.Connection)
      → (get_connection d db s).0 ≡ ok conn
      → get_connection d db (get_connection d db s).1 ≡ (ok conn, (get_connection d db s).1)
  get_connection_again db s conn e =
      get_connection_cached db conn (get_connection d db s).1 (get_connection-cached db s conn e)
