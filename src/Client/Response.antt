-- ===== src/Client/Response.antt =====
-- examples/rust/client.rs: `QueryResult`, a view of a response. The result is its payload.
pub mod Errors
pub mod Queries
use sqlite_server_rs.Prelude.{
  ℕ, ℤ, Bool, true, ◌||◌, false, Option, none, some, List, [], ◌∷◌, Text, bytes, and_then, or_else,
  first, filter_map, is_some, length, if◌then◌else◌,
}
use sqlite_server_rs.Json.{Json}
use sqlite_server_rs.Client.{ClientDeps}

-- the elements of an array under a key; `none` where there is no array
unfoldable pub array_field : (j : Json) → j.Value → Text → Option (List j.Value)
array_field j json key = and_then (j.get json key) (j.as_array)

-- the strings of an array under a key
unfoldable pub string_list : (j : Json) → j.Value → Text → List Text
unfolding array_field
string_list j json key = elim (array_field j json key) [
  | none ↦ []
  | some items ↦ filter_map (j.as_str) items
]

module _ {j : Json} (c : ClientDeps j) where
  open c use {Map, as_object, map_get, map_keys, as_i64, display}

  pub record QueryResult : Type 0 where
    pub payload : j.Value

  abbrev pub new : j.Value → QueryResult
  new payload = record { payload = payload }

  unfoldable pub columns : QueryResult → List Text
  unfolding string_list
  columns result = string_list j result.payload (bytes "columns")

  -- the method `data`
  unfoldable pub row_data : QueryResult → List j.Value
  unfolding array_field
  row_data result = elim (array_field j result.payload (bytes "data")) [
    | none ↦ []
    | some items ↦ items
  ]

  unfoldable pub rows : QueryResult → List Map
  unfolding row_data
  rows result = filter_map as_object (row_data result)

  unfoldable pub len : QueryResult → ℕ
  unfolding row_data
  len result = length (row_data result)

  unfoldable pub is_empty : QueryResult → Bool
  unfolding row_data
  is_empty result = elim (row_data result) [ [] ↦ true | v ∷ vs ↦ false ]

  unfoldable pub first_row : QueryResult → Option Map
  unfolding rows
  first_row result = first (rows result)

  unfoldable pub scalar : QueryResult → Option j.Value
  unfolding columns row_data
  scalar result = and_then (first (row_data result)) λ value. and_then (as_object value) λ object.
      and_then (or_else (first (columns result)) (first (map_keys object)))
        λ key. map_get object key

  unfoldable pub scalar_i64 : QueryResult → Option ℤ
  unfolding scalar
  scalar_i64 result = and_then (scalar result) as_i64

  -- `Some(message)`, by what stands under "error_message", "error_code" and "generic_error"
  unfoldable pub error_shown : (message code generic : Option j.Value) → j.Value → Option Text
  error_shown message code generic payload = elim (and_then message (j.as_str)) [
    | some msg ↦ some msg
    | none ↦ if is_some code || is_some generic then some (display payload) else none
  ]

  unfoldable pub server_error : QueryResult → Option Text
  unfolding error_shown
  server_error result = and_then (as_object result.payload) λ object.
      error_shown (map_get object (bytes "error_message")) (map_get object (bytes "error_code"))
        (map_get object (bytes "generic_error")) result.payload
