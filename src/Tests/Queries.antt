-- ===== src/Tests/Queries.antt =====
-- Queries and their rows.
use sqlite_server_rs.Prelude.{ℕ, ◌≡◌, refl, ◌↔◌, some, List, [], ◌∷◌, map, Text, bytes, ok, get_or}
use sqlite_server_rs.Store.{ValueRef, Rows, done, row}
use sqlite_server_rs.Dict.{lookup}
use sqlite_server_rs.Rust.FilePath.{join}
use sqlite_server_rs.Query.{fetch, row_fields, get_connection, value_ref_to_json}
use sqlite_server_rs.Query.Fetch.{Fields, Fetched, fetch_iff, row_object-get}
use sqlite_server_rs.Tests.Values.{json_laws}
use sqlite_server_rs.Tests.Machine.{deps, fresh, world, one_row}

abbrev columns : List Text
columns = bytes "n" ∷ bytes "t" ∷ []

abbrev two_rows : Rows (List Text) (List (ValueRef ℕ))
two_rows = row one_row world (row one_row world (done []))

fetch_iff_example : (fetch deps columns [] two_rows fresh ≡ (ok [], fresh)) ↔ (
    (fields : List (Fields deps)) × (end : List Text) × Fetched deps columns two_rows fields end
    × ([] ≡ map deps.object fields)
    × (fresh ≡ record fresh { world = end }))
fetch_iff_example = fetch_iff deps columns two_rows [] fresh fresh

abbrev fields : Fields deps
fields =
    (bytes "n", value_ref_to_json deps (get_or one_row 0 ValueRef.null))
    ∷ (bytes "t", value_ref_to_json deps (get_or one_row 1 ValueRef.null))
    ∷ []

fields_read : row_fields deps one_row 0 columns ≡ ok fields
unfolding row_fields
fields_read = refl

row_object-get_example :
    (value : ValueRef ℕ) × (deps.get_ref one_row 1 ≡ ok value)
    × (deps.get (deps.object fields) (bytes "t") ≡ some (value_ref_to_json deps value))
row_object-get_example =
    row_object-get deps json_laws one_row 1 columns fields (bytes "t") fields_read refl tt

opened : (get_connection deps (bytes "sales") fresh).0 ≡ ok (bytes "/db/sales")
unfolding get_connection lookup join
opened = refl
