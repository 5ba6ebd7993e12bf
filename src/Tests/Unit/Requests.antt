-- ===== src/Tests/Unit/Requests.antt =====
-- The unit tests of src/handler.rs on `handle_request` and on what it calls.
use sqlite_server_rs.Prelude.{
  ◌≡◌, refl, pos, Bool, true, false, not, ◌&&◌, ◌||◌, none, some, List, [], ◌∷◌, Text, bytes,
  text_eq, ok, err, filter_map,
}
use sqlite_server_rs.Json.{str_field}
use sqlite_server_rs.Dict.{lookup, insert, remove}
use sqlite_server_rs.Hex.{to_hex}
use sqlite_server_rs.Rust.Str.{eq_ignore_ascii_case, ends_with, trim}
use sqlite_server_rs.Rust.Utf8.{from_utf8_lossy}
use sqlite_server_rs.Rust.FilePath.{components, join, strip_components}
use sqlite_server_rs.Store.{ValueRef}
use sqlite_server_rs.DatabaseName.{is_sqlite_sidecar_file, is_safe_database_name}
use sqlite_server_rs.Session.{new}
use sqlite_server_rs.Query.{run_query, row_fields, value_ref_to_json, map_sqlite_err}
use sqlite_server_rs.Handler.{
  parse_request, handle_request, dispatch, carries_password, list_names, delete_file,
}
use sqlite_server_rs.Tests.Values.{Value, string, number, float, null, value_eq}
use sqlite_server_rs.Tests.Unit.Machine.{
  unit, handler, config_with, asked, number_at, string_at, has, object_1,
}

abbrev parses_to_list : Text → Bool
parses_to_list s = elim (parse_request unit s) [
  | ok v ↦ string_at v (bytes "cmd") (bytes "LIST")
  | err e ↦ false
]

abbrev parse_request_handles_valid_repair_and_invalid : Bool
parse_request_handles_valid_repair_and_invalid =
    parses_to_list (bytes "{\"cmd\":\"LIST\"}")
    && parses_to_list (bytes "{cmd:\"LIST\"}")
    && (elim (parse_request unit (bytes "not json at all {{{")) [ ok v ↦ false | err e ↦ true ])

parse_test : parse_request_handles_valid_repair_and_invalid ≡ true
unfolding parse_request value_eq
parse_test = refl

-- an infinite number stands as 0, and 2.5 as any other
abbrev blob_pointer_value_mapping : Bool
blob_pointer_value_mapping =
    value_eq (value_ref_to_json unit ValueRef.null) null
    && value_eq (value_ref_to_json unit (ValueRef.integer (pos 42))) (number (pos 42))
    && value_eq (value_ref_to_json unit (ValueRef.real 25)) (float (bytes "2.5"))
    && value_eq (value_ref_to_json unit (ValueRef.text (bytes "hi"))) (string (bytes "hi"))
    && value_eq (value_ref_to_json unit (ValueRef.blob (0 ∷ 255 ∷ []))) (string (bytes "X'00ff'"))
    && value_eq (value_ref_to_json unit (ValueRef.real 0)) null

mapping_test : blob_pointer_value_mapping ≡ true
unfolding value_ref_to_json value_eq to_hex from_utf8_lossy
mapping_test = refl

abbrev names_of : Value → List Text
names_of reply = elim (unit.get reply (bytes "list")) [
  | none ↦ []
  | some v ↦ elim (unit.as_array v) [ none ↦ [] | some vs ↦ filter_map unit.as_str vs ]
]

abbrev any_is : Text → List Text → Bool
any_is name [] = false
any_is name (x ∷ xs) = text_eq x name || any_is name xs

abbrev any_ends_with : Text → List Text → Bool
any_ends_with suffix [] = false
any_ends_with suffix (x ∷ xs) = ends_with x suffix || any_ends_with suffix xs

abbrev result_is : Value → Text → Bool
result_is reply text = value_eq reply (object_1 (bytes "result") (string text))

abbrev list_and_delete_db : Bool
list_and_delete_db =
    elim (asked handler (
      bytes "{\"cmd\":\"QUERY\",\"db\":\"a.db\",\"query\":\"CREATE TABLE z(i INTEGER)\"}"
      ∷ bytes "{\"cmd\":\"LIST\"}"
      ∷ bytes "{\"cmd\":\"DELETE_DB\",\"db\":\"a.db\"}"
      ∷ bytes "{\"cmd\":\"DELETE_DB\",\"db\":\"a.db\"}"
      ∷ [])) [
        | created ∷ listed ∷ deleted ∷ again ∷ [] ↦
            any_is (bytes "a.db") (names_of listed)
            && not (any_ends_with (bytes "-wal") (names_of listed))
            && result_is deleted (bytes "ok")
            && result_is again (bytes "error")
        | _ ↦ false
      ]

list_test : list_and_delete_db ≡ true
unfolding handle_request parse_request dispatch carries_password str_field lookup insert remove
    eq_ignore_ascii_case ends_with trim from_utf8_lossy components join strip_components
    is_sqlite_sidecar_file is_safe_database_name run_query row_fields list_names delete_file
    value_eq
list_test = refl

abbrev command_is_case_insensitive : Bool
command_is_case_insensitive =
    elim (asked handler (bytes "{\"cmd\":\"list\"}" ∷ bytes "{\"cmd\":\"LiSt\"}" ∷ [])) [
      | lower ∷ mixed ∷ [] ↦ has lower (bytes "list") && has mixed (bytes "list")
      | _ ↦ false
    ]

case_test : command_is_case_insensitive ≡ true
unfolding handle_request parse_request dispatch str_field eq_ignore_ascii_case list_names
case_test = refl

abbrev generic_and_sql_error_codes : Bool
generic_and_sql_error_codes =
    elim (asked handler (
      bytes "garbage {{{"
      ∷ bytes "{\"db\":\"a.db\"}"
      ∷ bytes "{\"cmd\":\"FROB\"}"
      ∷ bytes "{\"cmd\":\"QUERY\",\"query\":\"SELECT 1\"}"
      ∷ bytes "{\"cmd\":\"QUERY\",\"db\":\"../x\",\"query\":\"SELECT 1\"}"
      ∷ bytes "{\"cmd\":\"QUERY\",\"db\":\"a.db\"}"
      ∷ bytes "{\"cmd\":\"QUERY\",\"db\":\"a.db\",\"query\":\"   \"}"
      ∷ bytes "{\"cmd\":\"QUERY\",\"db\":\"a.db\",\"query\":\"SELECT * FROM ghosts\"}"
      ∷ [])) [
        | r0 ∷ r1 ∷ r2 ∷ r3 ∷ r4 ∷ r5 ∷ r6 ∷ r7 ∷ [] ↦
            number_at r0 (bytes "generic_error") 0
            && has r0 (bytes "message")
            && number_at r1 (bytes "generic_error") 1
            && number_at r2 (bytes "generic_error") 2
            && number_at r3 (bytes "generic_error") 3
            && number_at r4 (bytes "generic_error") 3
            && number_at r5 (bytes "generic_error") 4
            && number_at r6 (bytes "error_code") 21
            && string_at r6 (bytes "error_message") (bytes "empty query")
            && number_at r7 (bytes "error_code") 1
            && string_at r7 (bytes "error_message") (bytes "no such table: ghosts")
        | _ ↦ false
      ]

codes_test : generic_and_sql_error_codes ≡ true
unfolding handle_request parse_request dispatch str_field lookup eq_ignore_ascii_case trim
    components join strip_components is_safe_database_name run_query map_sqlite_err value_eq
codes_test = refl

abbrev auth_gate_requires_handshake : Bool
auth_gate_requires_handshake =
    elim (asked (new unit (config_with (bytes "s3cret")) []) (
      bytes "{\"cmd\":\"LIST\"}"
      ∷ bytes "{\"auth\":\"nope\"}"
      ∷ bytes "{\"cmd\":\"LIST\"}"
      ∷ bytes "{\"auth\":\"s3cret\"}"
      ∷ bytes "{\"cmd\":\"LIST\"}"
      ∷ [])) [
        | before ∷ wrong ∷ still ∷ right ∷ listed ∷ [] ↦
            result_is before (bytes "error")
            && result_is wrong (bytes "error")
            && result_is still (bytes "error")
            && result_is right (bytes "ok")
            && has listed (bytes "list")
        | _ ↦ false
      ]

auth_test : auth_gate_requires_handshake ≡ true
unfolding handle_request parse_request dispatch carries_password str_field eq_ignore_ascii_case
    list_names value_eq
auth_test = refl
