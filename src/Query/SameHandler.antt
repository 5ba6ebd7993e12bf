-- ===== src/Query/SameHandler.antt =====
-- What the statements of src/handler.rs leave as it was: all of the handler but its cache of connections.
use sqlite_server_rs.Prelude.{◌≡◌, refl, ◌∙◌, List, [], ◌∷◌, ◌++◌, Text, Result, ok, err, map_err}
use sqlite_server_rs.Store.{Deps, SqlError, Rows, done, failed, row}
use sqlite_server_rs.Session.{Session, Exec, on_result}
use sqlite_server_rs.Query.{on_world, row_fields, fetch, run_statement, map_sqlite_err}

module _ (d : Deps) where
  -- The handler is the same; the world outside may differ.
  pub record SameHandler (s s' : Session d) : Type 0 where
    pub config : s'.config ≡ s.config
    pub databases : s'.databases ≡ s.databases
    pub authenticated : s'.authenticated ≡ s.authenticated

  pub SameHandler-refl : (s : Session d) → SameHandler s s
  SameHandler-refl s = record { config = refl; databases = refl; authenticated = refl }

  pub SameHandler-trans : {s t u : Session d} → SameHandler s t → SameHandler t u → SameHandler s u
  SameHandler-trans h k = record {
    config = k.config ∙ h.config;
    databases = k.databases ∙ h.databases;
    authenticated = k.authenticated ∙ h.authenticated;
  }

  pub on_result-SameHandler :
      {A B E : Type 0} (r : Result A E) (f : A → Exec d B E) {s0 : Session d} (s : Session d)
      → SameHandler s0 s
      → ((a : A) → SameHandler s (f a s).1)
      → SameHandler s0 (on_result r f s).1
  on_result-SameHandler (ok a) f s h k = SameHandler-trans h (k a)
  on_result-SameHandler (err e) f s h k = h

  pub on_world-SameHandler :
      {A : Type 0} (call : d.World → Result A SqlError × d.World) (s : Session d)
      → SameHandler s (on_world d call s).1
  unfolding on_world
  on_world-SameHandler call s = record { config = refl; databases = refl; authenticated = refl }

  fetch-SameHandler :
      (columns : List Text) (rows_data : List d.Value) (rows : Rows d.World d.Row) (s : Session d)
      → SameHandler s (fetch d columns rows_data rows s).1
  unfolding fetch
  fetch-SameHandler columns rows_data (done w) s = record {
    config = refl;
    databases = refl;
    authenticated = refl;
  }
  fetch-SameHandler columns rows_data (failed e w) s = record {
    config = refl;
    databases = refl;
    authenticated = refl;
  }
  fetch-SameHandler columns rows_data (row r w rest) s =
      on_result-SameHandler (map_err map_sqlite_err (row_fields d r 0 columns))
        (λ fields s1. fetch d columns (rows_data ++ d.object fields ∷ []) rest s1)
        (record s { world = w }) (record { config = refl; databases = refl; authenticated = refl })
        (λ fields. fetch-SameHandler columns (rows_data ++ d.object fields ∷ []) rest _)

  pub run_statement-SameHandler :
      (stmt : d.Statement) (s : Session d) → SameHandler s (run_statement d stmt s).1
  unfolding run_statement
  run_statement-SameHandler stmt s =
      on_result-SameHandler (on_world d (d.query stmt) s).0 _ (on_world d (d.query stmt) s).1
        (on_world-SameHandler (d.query stmt) s)
        λ rows.
          let s1 : Session d = (on_world d (d.query stmt) s).1 in
          on_result-SameHandler (fetch d (d.column_names stmt) [] rows s1).0 _
            (fetch d (d.column_names stmt) [] rows s1).1
            (fetch-SameHandler (d.column_names stmt) [] rows s1) (λ rows_data. SameHandler-refl _)
