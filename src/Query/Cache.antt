-- ===== src/Query/Cache.antt =====
-- What `run_query` and `get_connection` of src/handler.rs do to the cache of connections.
use mathlib.Core.Path.{subst}
use sqlite_server_rs.Prelude.{
  ◌≡◌, refl, sym, ◌∙◌, ap, ◌⊎◌, inl, inr, none, Text, Result, ok, err, map_err, is_empty,
  Bool-cases, Option-cases,
}
use sqlite_server_rs.Dict.{lookup, insert}
use sqlite_server_rs.Rust.Str.{trim}
use sqlite_server_rs.Rust.FilePath.{join}
use sqlite_server_rs.Config.{Config}
use sqlite_server_rs.Store.{Deps, SqlError}
use sqlite_server_rs.Session.{Session, Exec, on_result}
use sqlite_server_rs.Query.{
  on_world, cache, open_connection, get_connection, run_statement, run_query, pragmas,
  map_sqlite_err,
}
use sqlite_server_rs.Query.SameHandler.{
  SameHandler, SameHandler-refl, on_result-SameHandler, on_world-SameHandler,
  run_statement-SameHandler,
}

map_err-eq-ok :
    {A : Type 0} (r : Result A SqlError) (a : A) → map_err map_sqlite_err r ≡ ok a → r ≡ ok a
map_err-eq-ok (ok b) a h = cc h
map_err-eq-ok (err e) a h = cc h

module _ (d : Deps) where
  -- The connection was opened on the file of that name in the databases folder, and was then set up with
  -- the pragmas of the configuration.
  pub record IsTuned (config : Config) (db : Text) (conn : d.Connection) : Type 0 where
    pub before : d.World
    pub opened : (d.open_database (join config.databases_folder db) before).0 ≡ ok conn
    pub tuned :
        (d.execute_batch conn
          (pragmas config.busy_timeout_ms)
          (d.open_database (join config.databases_folder db) before).1).0
        ≡ ok tt

  -- What a query on `db` may do to the handler: nothing, or cache a connection that it opened and
  -- set up for `db`, where there was none.
  pub record QueryEffect (db : Text) (s s' : Session d) : Type 0 where
    pub config : s'.config ≡ s.config
    pub authenticated : s'.authenticated ≡ s.authenticated
    pub databases :
        (s'.databases ≡ s.databases)
        ⊎ ((conn : d.Connection) × (lookup db s.databases ≡ none)
            × IsTuned s.config db conn
            × (s'.databases ≡ insert db conn s.databases))

  QueryEffect-of_same : (db : Text) {s s' : Session d} → SameHandler d s s' → QueryEffect db s s'
  QueryEffect-of_same db h = record {
    config = h.config;
    authenticated = h.authenticated;
    databases = inl h.databases;
  }

  QueryEffect-then :
      (db : Text) {s t u : Session d} → QueryEffect db s t → SameHandler d t u → QueryEffect db s u
  QueryEffect-then db h k = record {
    config = k.config ∙ h.config;
    authenticated = k.authenticated ∙ h.authenticated;
    databases = elim h.databases [
      | inl e ↦ inl (k.databases ∙ e)
      | inr (conn, e, t, e') ↦ inr (conn, e, t, k.databases ∙ e')
    ];
  }

  on_result-QueryEffect :
      {A B E : Type 0} (db : Text) (r : Result A E) (f : A → Exec d B E) {s0 : Session d}
      (s : Session d)
      → QueryEffect db s0 s
      → ((a : A) → SameHandler d s (f a s).1)
      → QueryEffect db s0 (on_result r f s).1
  on_result-QueryEffect db (ok a) f s h k = QueryEffect-then db h (k a)
  on_result-QueryEffect db (err e) f s h k = h

  then-QueryEffect :
      (db : Text) {s t u : Session d} → SameHandler d s t → QueryEffect db t u → QueryEffect db s u
  then-QueryEffect db h k = record {
    config = k.config ∙ h.config;
    authenticated = k.authenticated ∙ h.authenticated;
    databases = elim k.databases [
      | inl e ↦ inl (e ∙ h.databases)
      | inr (conn, e, t, e') ↦ inr (
        conn,
        ap (lookup db) (sym h.databases) ∙ e,
        subst (λ config. IsTuned config db conn) h.config t,
        e' ∙ ap (insert db conn) h.databases,
      )
    ];
  }

  after_result-QueryEffect :
      {A B E : Type 0} (db : Text) (r : Result A E) (f : A → Exec d B E) {s0 : Session d}
      (s : Session d)
      → SameHandler d s0 s
      → ((a : A) → r ≡ ok a → QueryEffect db s (f a s).1)
      → QueryEffect db s0 (on_result r f s).1
  after_result-QueryEffect db (ok a) f s h k = then-QueryEffect db h (k a refl)
  after_result-QueryEffect db (err e) f s h k = QueryEffect-of_same db h

  cache-QueryEffect :
      (db : Text) (conn : d.Connection) (s : Session d)
      → lookup db s.databases ≡ none
      → IsTuned s.config db conn
      → QueryEffect db s (cache d db conn s).1
  unfolding cache
  cache-QueryEffect db conn s absent ready = record {
    config = refl;
    authenticated = refl;
    databases = inr (conn, absent, ready, refl);
  }

  open_connection-QueryEffect :
      (db : Text) (s : Session d)
      → lookup db s.databases ≡ none
      → QueryEffect db s (open_connection d db s).1
  unfolding open_connection on_world
  open_connection-QueryEffect db s absent =
      let opening = d.open_database (join s.config.databases_folder db) in
      let s1 : Session d = (on_world d opening s).1 in
      after_result-QueryEffect db (on_world d opening s).0 _ s1 (on_world-SameHandler d opening s)
        λ conn opened.
          let tuning = d.execute_batch conn (pragmas s.config.busy_timeout_ms) in
          after_result-QueryEffect db (on_world d tuning s1).0 (λ _. cache d db conn)
            (on_world d tuning s1).1 (on_world-SameHandler d tuning s1)
            λ _ tuned. cache-QueryEffect db conn (on_world d tuning s1).1 absent (record {
              before = s.world;
              opened = map_err-eq-ok _ conn opened;
              tuned = map_err-eq-ok _ tt tuned;
            })

  get_connection-QueryEffect :
      (db : Text) (s : Session d) → QueryEffect db s (get_connection d db s).1
  unfolding get_connection
  get_connection-QueryEffect db s = elim (Option-cases (lookup db s.databases)) [
    | inl absent ↦ rw (absent, get_connection) (open_connection-QueryEffect db s absent)
    | inr (conn, e) ↦ rw (e, get_connection) (QueryEffect-of_same db (SameHandler-refl d s))
  ]

  -- Whatever a query does and however it ends, it keeps the configuration and whether the client is
  -- authenticated, and leaves the cache as it was, or adds a connection to `db` where there was none.
  pub run_query-QueryEffect :
      (db query : Text) (s : Session d) → QueryEffect db s (run_query d db query s).1
  unfolding run_query
  run_query-QueryEffect db query s = elim (Bool-cases (is_empty (trim query))) [
    | inl blank ↦ rw (blank) (QueryEffect-of_same db (SameHandler-refl d s))
    | inr given ↦ rw (given) (
        on_result-QueryEffect db (get_connection d db s).0 _ (get_connection d db s).1
          (get_connection-QueryEffect db s)
          λ conn.
            let s1 : Session d = (get_connection d db s).1 in
            on_result-SameHandler d (on_world d (d.prepare conn query) s1).0
              (λ stmt. run_statement d stmt) (on_world d (d.prepare conn query) s1).1
              (on_world-SameHandler d (d.prepare conn query) s1)
              λ stmt. run_statement-SameHandler d stmt (on_world d (d.prepare conn query) s1).1)
  ]
