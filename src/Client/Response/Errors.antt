-- ===== src/Client/Response/Errors.antt =====
-- What `QueryResult` of examples/rust/client.rs shows of the replies of src/handler.rs.
use sqlite_server_rs.Prelude.{
  ◌≡◌, refl, ap, ◌∙◌, Option, none, some, List, [], ◌∷◌, Text, bytes, and_then, filter_map, map, ℤ,
}
use sqlite_server_rs.Json.{last_value, JsonLaws}
use sqlite_server_rs.Store.{Deps}
use sqlite_server_rs.Query.{QueryError, result_set}
use sqlite_server_rs.Handler.{sql_error, generic_error, result_error}
use sqlite_server_rs.Client.{ClientDeps, ClientLaws}
use sqlite_server_rs.Client.Response.{
  new, columns, row_data, server_error, error_shown, array_field, string_list,
}

module _ (d : Deps) (c : ClientDeps d.json) (laws : ClientLaws d.json c)
    (json_laws : JsonLaws d.json) where
  -- what stands under a key of the fields
  server_error-object :
      (fields : List (Text × d.Value))
      → server_error c (new c (d.object fields))
        ≡ error_shown c
            (last_value (bytes "error_message") fields)
            (last_value (bytes "error_code") fields)
            (last_value (bytes "generic_error") fields)
            (d.object fields)
  unfolding server_error
  server_error-object fields =
      let (m, e, at) = laws.as_object-object fields in
      let shown = error_shown c in
      let v : d.Value = d.object fields in
      let code = bytes "error_code" in
      let generic = bytes "generic_error" in
      rw e (
        ap (λ o. shown o (c.map_get m code) (c.map_get m generic) v) (at (bytes "error_message"))
        ∙ ap (λ o. shown (last_value (bytes "error_message") fields) o (c.map_get m generic) v)
            (at code)
        ∙ ap (λ o. shown (last_value (bytes "error_message") fields) (last_value code fields) o v)
            (at generic))

  pub sql_error-shown :
      (e : QueryError) (request : d.Value)
      → server_error c (new c (sql_error d e request)) ≡ some e.1
  unfolding error_shown
  sql_error-shown e request = server_error-object _ ∙ (rw (json_laws.as_str-string e.1) refl)

  pub generic_error-shown :
      (code : ℤ) (request : d.Value)
      → server_error c (new c (generic_error d code request))
        ≡ some (c.display (generic_error d code request))
  unfolding error_shown
  generic_error-shown code request = server_error-object _ ∙ refl

  pub result_set-shown :
      (names : List Text) (values : List d.Value)
      → server_error c (new c (result_set d names values)) ≡ none
  unfolding error_shown
  result_set-shown names values = server_error-object _ ∙ refl

  pub result_error-shown : server_error c (new c (result_error d)) ≡ none
  unfolding error_shown
  result_error-shown = server_error-object _ ∙ refl

  as_str_of-map : (names : List Text) → filter_map d.as_str (map d.string names) ≡ names
  as_str_of-map [] = refl
  as_str_of-map (name ∷ names) = rw (json_laws.as_str-string name, as_str_of-map names) refl

  -- an array that is the last value under a key
  pub array_field-object :
      (fields : List (Text × d.Value)) (key : Text) (items : List d.Value)
      → last_value key fields ≡ some (d.array items)
      → array_field d.json (d.object fields) key ≡ some items
  unfolding array_field
  array_field-object fields key items h =
      ap (λ o. and_then o d.as_array) (json_laws.get-object fields key ∙ h)
      ∙ json_laws.as_array-array items

  pub columns-result_set :
      (names : List Text) (values : List d.Value)
      → columns c (new c (result_set d names values)) ≡ names
  unfolding columns string_list
  columns-result_set names values =
      ap
        (λ (o : Option (List d.Value)). elim o as (λ _. List Text) [
          | none ↦ []
          | some items ↦ filter_map d.as_str items
        ])
        (array_field-object _ (bytes "columns") (map d.string names) refl)
      ∙ as_str_of-map names

  pub row_data-result_set :
      (names : List Text) (values : List d.Value)
      → row_data c (new c (result_set d names values)) ≡ values
  unfolding row_data
  row_data-result_set names values =
      ap
        (λ (o : Option (List d.Value)). elim o as (λ _. List d.Value) [
          | none ↦ []
          | some items ↦ items
        ])
        (array_field-object _ (bytes "data") values refl)
