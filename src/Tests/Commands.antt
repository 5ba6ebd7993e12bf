-- ===== src/Tests/Commands.antt =====
-- The commands of the client at the server.
use sqlite_server_rs.Prelude.{
  ◌≡◌, refl, inr, true, pos, List, [], ◌∷◌, Text, bytes, text_eq, ok, err, arith, if◌then◌else◌,
}
use sqlite_server_rs.Rust.Str.{split, split_once, trim, ends_with, parse_usize}
use sqlite_server_rs.Rust.Utf8.{from_utf8_lossy}
use sqlite_server_rs.Rust.FilePath.{join, components, strip_components}
use sqlite_server_rs.Dict.{lookup}
use sqlite_server_rs.DatabaseName.{is_safe_database_name, is_sqlite_sidecar_file}
use sqlite_server_rs.Session.{Session}
use sqlite_server_rs.Query.{run_query, row_fields}
use sqlite_server_rs.Handler.{delete_file, handle_list, is_safe, list_names}
use sqlite_server_rs.Client.{ClientDeps}
use sqlite_server_rs.Client.Response.{new}
use sqlite_server_rs.Client.Calls.{
  query, list, delete_db, query_request, list_request, delete_request, prepared_sql,
}
use sqlite_server_rs.Client.Calls.Loopback.{idle, server_stream}
use sqlite_server_rs.Client.Calls.Login.{Sends, Reads}
use sqlite_server_rs.Client.Calls.Query.{ran, query-run_query}
use sqlite_server_rs.Client.Calls.Files.{listed, list-list_names, delete_db-delete_file}
use sqlite_server_rs.Tests.Values.{Value, json, json_laws, print}
use sqlite_server_rs.Tests.Machine.{deps, fresh}
use sqlite_server_rs.Tests.Client.{table, ok_read, error_read}
use sqlite_server_rs.Rust.Decimal.{decimal}
use sqlite_server_rs.Client.Binding.{Param, text, int, bind, serialize_sql_value}
use sqlite_server_rs.Client.Binding.Filled.{filled}
use sqlite_server_rs.Client.Calls.Prepared.{prepared_sql-filled}
use sqlite_server_rs.Tests.Library.{library, library_laws, captures}

-- a client that has given the password
abbrev inside : Session deps
inside = record fresh { authenticated = true }

-- a client that reads one response
abbrev reader : Value → ClientDeps json
reader v = record library {
  from_slice = λ s. if text_eq s (print v) then ok v else err (bytes "malformed");
}

abbrev select : Text
select = bytes "SELECT"

select_sent :
    Sends deps
      (reader table)
      64
      (query_request (reader table) (server_stream deps) (bytes "sales") select)
unfolding split split_once from_utf8_lossy
select_sent = record {
  body = bytes "cmd=QUERY;db=sales;query=SELECT";
  to_vec = refl;
  from_str = refl;
  fits = omega arith;
}

sales_is_safe : is_safe deps inside (bytes "sales") ≡ true
unfolding is_safe_database_name components join strip_components
sales_is_safe = refl

table_read :
    Reads deps (reader table) (ran deps (reader table) json_laws (bytes "sales") select [] inside).0
unfolding run_query trim lookup join row_fields from_utf8_lossy
table_read = record { from_slice = refl; small = omega arith }

query-run_query_example :
    query (reader table) (server_stream deps) (bytes "sales") select [] (idle deps inside) ≡ (
      ok (
          new
            (reader table)
            (ran deps (reader table) json_laws (bytes "sales") select [] inside).0),
      idle deps (ran deps (reader table) json_laws (bytes "sales") select [] inside).1,
    )
query-run_query_example =
    query-run_query deps (reader table) json_laws (bytes "sales") select [] inside (inr refl)
      sales_is_safe (omega arith) select_sent table_read

delete_sent : Sends deps library 64 (delete_request library (server_stream deps) (bytes "sales"))
unfolding split split_once from_utf8_lossy
delete_sent = record {
  body = bytes "cmd=DELETE_DB;db=sales";
  to_vec = refl;
  from_str = refl;
  fits = omega arith;
}

delete_db-delete_file_example :
    delete_db library (server_stream deps) (bytes "sales") (idle deps inside) ≡ (
      ok (deps.remove_file (join inside.config.databases_folder (bytes "sales")) inside.world).0,
      idle deps (delete_file deps (bytes "sales") inside).1,
    )
delete_db-delete_file_example =
    delete_db-delete_file deps library json_laws (bytes "sales") inside (inr refl) sales_is_safe
      (omega arith) delete_sent ok_read error_read

list_sent : (v : Value) → Sends deps (reader v) 64 (list_request (reader v) (server_stream deps))
unfolding split split_once from_utf8_lossy
list_sent v = record { body = bytes "cmd=LIST"; to_vec = refl; from_str = refl; fits = omega arith }

abbrev names : Value
names = deps.object ((bytes "list", deps.array (deps.string (bytes "sales") ∷ [])) ∷ [])

names_read : Reads deps (reader names) (handle_list deps inside)
unfolding handle_list list_names is_sqlite_sidecar_file from_utf8_lossy join ends_with
names_read = record { from_slice = refl; small = omega arith }

sales_listed :
    list (reader names) (server_stream deps) (idle deps inside)
    ≡ (ok (listed deps (reader names) json_laws inside), idle deps inside)
sales_listed =
    list-list_names deps (reader names) json_laws inside (inr refl) (omega arith) (list_sent names)
      names_read

-- a bare placeholder, the second value, another bare placeholder, and one without a value
abbrev placeholders : Text
placeholders = bytes "SELECT ?,?2,?,?9"

abbrev two_values : List (Param library.Float)
two_values = text (bytes "it's") ∷ int (pos 7) ∷ []

prepared_sql-filled_example :
    prepared_sql library (server_stream deps) placeholders two_values
    ≡ filled library two_values two_values (library.captures placeholders)
prepared_sql-filled_example =
    prepared_sql-filled library (server_stream deps) library_laws placeholders two_values

values_filled :
    prepared_sql library (server_stream deps) placeholders two_values
    ≡ bytes "SELECT 'it''s',7,7,?9"
unfolding bind serialize_sql_value decimal captures parse_usize
values_filled = refl
