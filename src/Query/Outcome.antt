-- ===== src/Query/Outcome.antt =====
-- The results of `run_query` of src/handler.rs.
use sqlite_server_rs.Prelude.{
  ◌≡◌, refl, sym, ap, ◌∙◌, List, [], map, Text, Result, ok, err, map_err, is_empty, Bool-cases, inl,
  inr,
}
use sqlite_server_rs.Rust.Str.{trim}
use sqlite_server_rs.Store.{Deps, Rows}
use sqlite_server_rs.Session.{Session, Exec, on_result}
use sqlite_server_rs.Query.{
  QueryError, on_world, get_connection, fetch, run_statement, run_query, result_set, map_sqlite_err,
}
use sqlite_server_rs.Query.Fetch.{Fields, Fetched, fetch_iff}

on_result-eq-ok :
    {S A B E : Type 0} (r : Result A E) (f : A → S → Result B E × S) (s : S) {b : B}
    → (on_result r f s).0 ≡ ok b
    → (a : A) × (r ≡ ok a) × ((f a s).0 ≡ ok b)
on_result-eq-ok (ok a) f s h = (a, refl, h)
on_result-eq-ok (err e) f s h = cc h

map_err-eq-ok :
    {A E F : Type 0} (f : E → F) (r : Result A E) {a : A} → map_err f r ≡ ok a → r ≡ ok a
map_err-eq-ok f (ok a) h = cc h
map_err-eq-ok f (err e) h = cc h

ok-eq-ok : {A E : Type 0} (a b : A) → ◌≡◌ {A = Result A E} (ok a) (ok b) → a ≡ b
ok-eq-ok a b h = cc h

module _ (d : Deps) where
  -- A statement that succeeds has been run, and its rows have been read to their end; its value has
  -- the columns of the statement and an object for each row.
  pub record Ran (stmt : d.Statement) (v : d.Value) : Type 0 where
    pub start : d.World
    pub rows : Rows d.World d.Row
    pub started : (d.query stmt start).0 ≡ ok rows
    pub fields : List (Fields d)
    pub end : d.World
    pub fetched : Fetched d (d.column_names stmt) rows fields end
    pub value : v ≡ result_set d (d.column_names stmt) (map d.object fields)

  -- the last step of `run_statement`
  abbrev finish : d.Statement → List d.Value → Exec d d.Value QueryError
  finish stmt rows_data s = (ok (result_set d (d.column_names stmt) rows_data), s)

  fetched-Ran :
      (stmt : d.Statement) (start : d.World) (rows : Rows d.World d.Row) (s : Session d)
      (v : d.Value)
      → (d.query stmt start).0 ≡ ok rows
      → (on_result
          (fetch d (d.column_names stmt) [] rows s).0
          (finish stmt)
          (fetch d (d.column_names stmt) [] rows s).1).0
        ≡ ok v
      → Ran stmt v
  fetched-Ran stmt start rows s v started h =
      let (values, e, e') = on_result-eq-ok (fetch d (d.column_names stmt) [] rows s).0 _ _ h in
      let done : fetch d (d.column_names stmt) [] rows s
          ≡ (ok values, (fetch d (d.column_names stmt) [] rows s).1) =
        ap (λ r. (r, (fetch d (d.column_names stmt) [] rows s).1)) e in
      let (fields, end, fetched, same, _) =
        (fetch_iff d (d.column_names stmt) rows values s _).0 done in
      record {
        start = start;
        rows = rows;
        started = started;
        fields = fields;
        end = end;
        fetched = fetched;
        value = sym (ok-eq-ok _ v e') ∙ ap (result_set d (d.column_names stmt)) same;
      }

  run_statement-Ran :
      (stmt : d.Statement) (s : Session d) (v : d.Value)
      → (run_statement d stmt s).0 ≡ ok v
      → Ran stmt v
  unfolding run_statement on_world
  run_statement-Ran stmt s v h =
      let (rows, e, h1) = on_result-eq-ok (on_world d (d.query stmt) s).0 _ _ h in
      fetched-Ran stmt s.world rows (on_world d (d.query stmt) s).1 v
        (map_err-eq-ok map_sqlite_err (d.query stmt s.world).0 e) h1

  -- What a query that succeeds has done: its text was prepared, and the statement has run.
  pub record Answered (sql : Text) (v : d.Value) : Type 0 where
    pub conn : d.Connection
    pub before : d.World
    pub stmt : d.Statement
    pub prepared : (d.prepare conn sql before).0 ≡ ok stmt
    pub ran : Ran stmt v

  prepared-Answered :
      (sql : Text) (conn : d.Connection) (s : Session d) (v : d.Value)
      → (on_result
          (on_world d (d.prepare conn sql) s).0
          (run_statement d)
          (on_world d (d.prepare conn sql) s).1).0
        ≡ ok v
      → Answered sql v
  unfolding on_world
  prepared-Answered sql conn s v h =
      let (stmt, e, h1) = on_result-eq-ok (on_world d (d.prepare conn sql) s).0 _ _ h in
      record {
        conn = conn;
        before = s.world;
        stmt = stmt;
        prepared = map_err-eq-ok map_sqlite_err (d.prepare conn sql s.world).0 e;
        ran = run_statement-Ran stmt (on_world d (d.prepare conn sql) s).1 v h1;
      }

  pub run_query-Answered :
      (db sql : Text) (s : Session d) (v : d.Value)
      → (run_query d db sql s).0 ≡ ok v
      → Answered sql v
  unfolding run_query
  run_query-Answered db sql s v h = elim (Bool-cases (is_empty (trim sql))) [
    | inl nothing ↦ cc (rw nothing at h)
    | inr something ↦
        let (conn, e, h1) = on_result-eq-ok (get_connection d db s).0 _ _ (rw something at h) in
        prepared-Answered sql conn (get_connection d db s).1 v h1
  ]
