-- ===== src/Client/Response/Queries.antt =====
-- What a client of examples/rust/client.rs sees of the queries that src/handler.rs answers.
use sqlite_server_rs.Prelude.{
  ◌≡◌, refl, ap, ◌∙◌, true, false, Option, none, some, List, [], ◌∷◌, map, Text, bytes, ok,
  and_then,
}
use sqlite_server_rs.Json.{str_field, JsonLaws}
use sqlite_server_rs.Store.{Deps}
use sqlite_server_rs.Session.{Session}
use sqlite_server_rs.Query.{run_query}
use sqlite_server_rs.Query.Outcome.{Answered, run_query-Answered}
use sqlite_server_rs.Handler.{handle_request, parse_request, is_safe, result_error, answer}
use sqlite_server_rs.Handler.Auth.{IsLocked, carried}
use sqlite_server_rs.Client.{ClientDeps, ClientLaws}
use sqlite_server_rs.Client.Response.{new, columns, row_data, server_error, array_field}
use sqlite_server_rs.Client.Response.Errors.{
  result_set-shown, result_error-shown, columns-result_set, row_data-result_set,
}

module _ (d : Deps) where
  -- The request names a database that is accepted and a query, and the query succeeds.
  pub record Succeeds (request : d.Value) (s : Session d) : Type 0 where
    pub db : Text
    pub sql : Text
    pub v : d.Value
    pub names : str_field d.json request (bytes "db") ≡ some db
    pub asks : str_field d.json request (bytes "query") ≡ some sql
    pub safe : is_safe d s db ≡ true
    pub runs : (run_query d db sql s).0 ≡ ok v

module _ (d : Deps) (c : ClientDeps d.json) (laws : ClientLaws d.json c)
    (json_laws : JsonLaws d.json) where
  -- what `server_error` shows of a reply
  abbrev shown : d.Value → Option Text
  shown reply = server_error c (new c reply)

  Answered-shown : (sql : Text) (v : d.Value) → Answered d sql v → shown v ≡ none
  Answered-shown sql v a = ap shown a.ran.value ∙ result_set-shown d c laws json_laws _ _

  -- The client reads, in the result of a query that succeeds, the columns of the statement that was
  -- prepared, and an object for each of its rows, in the order of the rows, and no error.
  pub query_result_shown :
      (db sql : Text) (s : Session d) (v : d.Value)
      → (run_query d db sql s).0 ≡ ok v
      → (a : Answered d sql v) × (columns c (new c v) ≡ d.column_names a.stmt)
        × (row_data c (new c v) ≡ map d.object a.ran.fields)
        × (server_error c (new c v) ≡ none)
  query_result_shown db sql s v h =
      let a = run_query-Answered d db sql s v h in
      (
        a,
        ap (λ t. columns c (new c t)) a.ran.value ∙ columns-result_set d c laws json_laws _ _,
        ap (λ t. row_data c (new c t)) a.ran.value ∙ row_data-result_set d c laws json_laws _ _,
        Answered-shown sql v a,
      )

  row_data-result_error : row_data c (new c (result_error d)) ≡ []
  unfolding row_data array_field
  row_data-result_error =
      ap
        (λ (o : Option d.Value). elim (and_then o d.as_array) as (λ _. List d.Value) [
          | none ↦ []
          | some items ↦ items
        ])
        (json_laws.get-object ((bytes "result", d.string (bytes "error")) ∷ []) (bytes "data"))

  -- While a client has not given the password, it sees no error in the reply to a well-formed request
  -- that does not carry it, whatever the request asks for, but an empty result.
  pub locked_shows_nothing :
      (req : Text) (request : d.Value) (s : Session d)
      → IsLocked d s
      → parse_request d req ≡ ok request
      → carried d s.config.auth req ≡ false
      → (server_error c (new c (handle_request d req s).0) ≡ none)
        × (row_data c (new c (handle_request d req s).0) ≡ [])
  unfolding handle_request carried answer
  locked_shows_nothing req request s locked parsed missing =
      let refused : (handle_request d req s).0 ≡ result_error d =
        rw (parsed, handle_request, locked.0, (rw (parsed, carried) at missing), locked.1) refl in
      (
        ap shown refused ∙ result_error-shown d c laws json_laws,
        ap (λ t. row_data c (new c t)) refused ∙ row_data-result_error,
      )
