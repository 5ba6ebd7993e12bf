-- ===== src/Handler/Fenced.antt =====
-- src/handler.rs, where the calls that open a database and that remove a file fail for a path that is
-- not, by its components, directly in a folder.
pub mod Opening
pub mod Requests
use sqlite_server_rs.Prelude.{
  ℕ, suc, ◌+◌, ◌≡◌, refl, sym, ap, ◌∙◌, Bool, true, false, not, Option, none, some, List, [], ◌∷◌,
  ◌++◌, Text, bytes, is_empty, Result, ok, err, map_err, arith, Bool-cases, Option-cases,
  Result-cases, inl, inr, if◌then◌else◌,
}
use mathlib.Core.Path.{ap₂}
use sqlite_server_rs.Dict.{lookup}
use sqlite_server_rs.Rust.FilePath.{Component, components, strip_components, join}
use sqlite_server_rs.Rust.Str.{trim}
use sqlite_server_rs.DatabaseName.{is_child}
use sqlite_server_rs.Store.{Deps, SqlError, other, ValueRef, Rows, done, failed, row}
use sqlite_server_rs.Session.{Session, on_result}
use sqlite_server_rs.Query.{
  QueryError, value_ref_to_json, on_world, row_fields, fetch, run_statement, result_set,
  map_sqlite_err,
}

-- the path is that of a file directly in the folder
unfoldable pub is_directly_in : Text → Text → Bool
is_directly_in folder path = is_child (strip_components (components path) (components folder))

module _ (d : Deps) (folder : Text) where
  -- the same machine, where a database is opened, and a file removed, only directly in the folder
  abbrev pub fenced : Deps
  fenced = record d {
    open_database = λ path w.
        if is_directly_in folder path
        then d.open_database path w
        else (err (other (bytes "fenced")), w);
    remove_file = λ path w. if is_directly_in folder path then d.remove_file path w else (false, w);
  }

  -- the same session, there
  abbrev pub moved : Session d → Session fenced
  moved s = record {
    config = s.config;
    databases = s.databases;
    authenticated = s.authenticated;
    world = s.world;
  }

  abbrev pub moved_result : {A : Type 0} → A × Session d → A × Session fenced
  moved_result r = (r.0, moved r.1)

  pub on_result-moved :
      {A B E : Type 0} (r : Result A E) (f : A → Session d → Result B E × Session d)
      (f' : A → Session fenced → Result B E × Session fenced) (s : Session d)
      → ((a : A) (s : Session d) → f' a (moved s) ≡ moved_result (f a s))
      → on_result r f' (moved s) ≡ moved_result (on_result r f s)
  on_result-moved (ok a) f f' s h = h a s
  on_result-moved (err e) f f' s h = refl

  value_ref_to_json-moved :
      (v : ValueRef d.Float) → value_ref_to_json fenced v ≡ value_ref_to_json d v
  unfolding value_ref_to_json
  value_ref_to_json-moved ValueRef.null = refl
  value_ref_to_json-moved (ValueRef.integer n) = refl
  value_ref_to_json-moved (ValueRef.real f) = refl
  value_ref_to_json-moved (ValueRef.text s) = refl
  value_ref_to_json-moved (ValueRef.blob s) = refl

  row_fields-moved :
      (r : d.Row) (i : ℕ) (columns : List Text)
      → row_fields fenced r i columns ≡ row_fields d r i columns
  unfolding row_fields
  row_fields-moved r i [] = refl
  row_fields-moved r i (name ∷ columns) = elim (Result-cases (d.get_ref r i)) [
    | inl (v, e) ↦
        rw (e, row_fields, row_fields-moved r (i + 1) columns)
          (ap
            (λ (w : d.Value).
              elim (row_fields d r (i + 1) columns)
                as (λ _. Result (List (Text × d.Value)) SqlError) [
                  | err failure ↦ err failure
                  | ok fields ↦ ok ((name, w) ∷ fields)
                ])
            (value_ref_to_json-moved v))
    | inr (failure, e) ↦ rw (e, row_fields) refl
  ]

  fetch-moved :
      (columns : List Text) (rows_data : List d.Value) (rows : Rows d.World d.Row) (s : Session d)
      → fetch fenced columns rows_data rows (moved s)
        ≡ moved_result (fetch d columns rows_data rows s)
  unfolding fetch
  fetch-moved columns rows_data (done w) s = refl
  fetch-moved columns rows_data (failed e w) s = refl
  fetch-moved columns rows_data (row r w rest) s = rw (row_fields-moved r 0 columns) (
      on_result-moved (map_err map_sqlite_err (row_fields d r 0 columns)) _ _
        (record s { world = w })
        λ fields s1. fetch-moved columns (rows_data ++ d.object fields ∷ []) rest s1)

  pub run_statement-moved :
      (stmt : d.Statement) (s : Session d)
      → run_statement fenced stmt (moved s) ≡ moved_result (run_statement d stmt s)
  unfolding run_statement on_world
  run_statement-moved stmt s =
      on_result-moved (on_world d (d.query stmt) s).0 _ _ (on_world d (d.query stmt) s).1 λ rows s1.
        rw (fetch-moved (d.column_names stmt) [] rows s1) (
          on_result-moved (fetch d (d.column_names stmt) [] rows s1).0 _ _
            (fetch d (d.column_names stmt) [] rows s1).1 (λ rows_data s2. refl))
