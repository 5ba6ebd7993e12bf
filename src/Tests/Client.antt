-- ===== src/Tests/Client.antt =====
-- The client, alone and at the server.
use sqlite_server_rs.Prelude.{
  ℤ, pos, ◌≡◌, refl, ap, true, false, some, none, List, [], ◌∷◌, ◌++◌, map, Text, bytes, text_eq,
  ok, err, map_err, length, arith, if◌then◌else◌,
}
use sqlite_server_rs.Json.{str_field}
use sqlite_server_rs.Rust.Str.{trim, split, split_once, parse_usize}
use sqlite_server_rs.Rust.Decimal.{decimal}
use sqlite_server_rs.Rust.Utf8.{from_utf8_lossy}
use sqlite_server_rs.Session.{new}
use sqlite_server_rs.Handler.{
  handle_request, parse_request, carries_password, result_ok, result_error,
}
use sqlite_server_rs.Handler.Auth.{carried}
use sqlite_server_rs.Client.{plain, bare}
use sqlite_server_rs.Client.Binding.{
  Param, text, serialize_sql_value, bind, bare_value, numbered_value,
}
use sqlite_server_rs.Client.Binding.Literal.{read_literal, read_literal-text}
use sqlite_server_rs.Client.Binding.Quotes.{outside}
use sqlite_server_rs.Client.Binding.Scanner.{code, scan, unquoted}
use sqlite_server_rs.Client.Binding.Confined.{blank, Placed, unquoted-bind, quoted_placeholder}
use sqlite_server_rs.Client.Response.{new as response, columns, row_data, server_error}
use sqlite_server_rs.Client.Response.Queries.{query_result_shown, locked_shows_nothing}
use sqlite_server_rs.Client.Calls.{
  permission_denied, json_failed, call, auth_request, connect_with_auth, list_request,
}
use sqlite_server_rs.Client.Calls.Loopback.{idle, server_stream, response_text, call-handle_request}
use sqlite_server_rs.Client.Calls.Login.{Sends, Reads, login}
use sqlite_server_rs.Query.{run_query, row_fields, result_set}
use sqlite_server_rs.Query.Outcome.{Answered}
use sqlite_server_rs.Dict.{lookup}
use sqlite_server_rs.Rust.FilePath.{join}
use sqlite_server_rs.Tests.Values.{Value, string, field, empty_object, json_laws}
use sqlite_server_rs.Tests.Machine.{deps, guarded, world, fresh}
use sqlite_server_rs.Tests.Library.{library, library_laws, captures}

read_literal-text_example :
    read_literal (serialize_sql_value library (text (bytes "O'Brien")) ++ bytes ", 1")
    ≡ some (bytes "O'Brien", bytes ", 1")
read_literal-text_example = read_literal-text library (bytes "O'Brien") (bytes ", 1") refl

abbrev values : List (Param (Unit {0}))
values = text (bytes "1' OR 1") ∷ text (bytes "x") ∷ []

abbrev insert_sql : Text
insert_sql = bytes "INSERT INTO t VALUES ('a', ?2, ?)"

insert-Placed : Placed library (map (blank library) values) 0 code (library.captures insert_sql)
unfolding Placed scan captures bare_value numbered_value parse_usize serialize_sql_value
insert-Placed = (refl, (refl, tt))

unquoted-bind_example :
    unquoted code (bind library insert_sql values)
    ≡ unquoted code (bind library insert_sql (map (blank library) values))
unquoted-bind_example = unquoted-bind library insert_sql values insert-Placed

-- a placeholder in a comment is not placed so
comment-ne-Placed :
    Placed library (map (blank library) values) 0 code (library.captures (bytes "SELECT 1 /* ? */"))
    → ⊥
unfolding Placed scan captures
comment-ne-Placed h = cc h.0

abbrev like_sql : Text
like_sql = bytes "a '?' b"

like_captured :
    library.captures like_sql
    ≡ plain (bytes "a " ++ bytes "'") ∷ bare ∷ plain (b'\'' ∷ bytes " b") ∷ []
unfolding captures
like_captured = refl

quoted_placeholder_example :
    outside false (bind library like_sql (text (bytes "x") ∷ [])) ≡ bytes "a x b"
quoted_placeholder_example =
    quoted_placeholder library like_sql (bytes "a ") (bytes " b") (bytes "x") like_captured
      (refl, (refl, tt)) (refl, tt) (refl, (refl, tt))

-- a negative number after a minus sign starts a comment
minus_comment :
    bind library (bytes "SELECT 5-?") (Param.int (ℤ.negsuc 2) ∷ []) ≡ bytes "SELECT 5--3"
unfolding bind captures decimal
minus_comment = refl

refused : response_text deps (bytes "cmd=LIST") fresh ≡ bytes "result=error"
unfolding handle_request parse_request carries_password str_field from_utf8_lossy split split_once
refused = refl

call-handle_request_example :
    call library (server_stream deps) (list_request library (server_stream deps)) (idle deps fresh)
    ≡ (
      map_err json_failed (library.from_slice (response_text deps (bytes "cmd=LIST") fresh)),
      idle deps (handle_request deps (from_utf8_lossy (bytes "cmd=LIST")) fresh).1,
    )
call-handle_request_example =
    call-handle_request deps library (list_request library (server_stream deps)) (bytes "cmd=LIST")
      fresh refl (omega arith) (omega arith) (omega (arith, ap length refused))

-- what the two sides write is read back
auth_sent : Sends deps library 64 (auth_request library (server_stream deps) (bytes "pw"))
unfolding split split_once from_utf8_lossy
auth_sent = record { body = bytes "auth=pw"; to_vec = refl; from_str = refl; fits = omega arith }

pub ok_read : Reads deps library (result_ok deps)
unfolding split split_once
ok_read = record { from_slice = refl; small = omega arith }

pub error_read : Reads deps library (result_error deps)
unfolding split split_once
error_read = record { from_slice = refl; small = omega arith }

login_example :
    connect_with_auth library (server_stream deps) (bytes "pw") (idle deps (new deps guarded world))
    ≡ (if text_eq (bytes "pw") guarded.auth
        then (ok tt, idle deps (record (new deps guarded world) { authenticated = true }))
        else (err permission_denied, idle deps (new deps guarded world)))
login_example =
    login deps library json_laws guarded world (bytes "pw") refl refl (omega arith) auth_sent
      ok_read error_read

abbrev pub table : Value
table = result_set deps (bytes "n" ∷ bytes "t" ∷ []) (
    deps.object ((bytes "n", Value.number (pos 7)) ∷ (bytes "t", Value.string (bytes "seven")) ∷ [])
    ∷ [])

select_runs : (run_query deps (bytes "sales") (bytes "SELECT") fresh).0 ≡ ok table
unfolding run_query trim lookup join row_fields from_utf8_lossy
select_runs = refl

query_result_shown_example :
    (a : Answered deps (bytes "SELECT") table) × (columns library (response library table)
      ≡ deps.column_names a.stmt)
    × (row_data library (response library table) ≡ map deps.object a.ran.fields)
    × (server_error library (response library table) ≡ none)
query_result_shown_example =
    query_result_shown deps library library_laws json_laws (bytes "sales") (bytes "SELECT") fresh
      table select_runs

abbrev select_request : Value
select_request =
    field (bytes "db") (string (bytes "sales"))
      (field (bytes "query") (string (bytes "SELECT")) empty_object)

abbrev select_text : Text
select_text = bytes "db=sales;query=SELECT"

select_parsed : parse_request deps select_text ≡ ok select_request
unfolding parse_request split split_once
select_parsed = refl

select_carries_nothing : carried deps guarded.auth select_text ≡ false
unfolding carried carries_password str_field parse_request split split_once
select_carries_nothing = refl

locked_shows_nothing_example :
    (server_error library (response library (handle_request deps select_text fresh).0) ≡ none)
    × (row_data library (response library (handle_request deps select_text fresh).0) ≡ [])
locked_shows_nothing_example =
    locked_shows_nothing deps library library_laws json_laws select_text select_request fresh
      (refl, refl) select_parsed select_carries_nothing
