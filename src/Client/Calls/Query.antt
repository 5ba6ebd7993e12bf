-- ===== src/Client/Calls/Query.antt =====
-- `query` of examples/rust/client.rs at the server.
use mathlib.Core.Path.{subst}
use sqlite_server_rs.Prelude.{◌^◌, ◌<◌, ◌≡◌, refl, sym, ◌∙◌, true, List, [], ◌∷◌, Text, bytes, ok}
use sqlite_server_rs.Json.{JsonLaws}
use sqlite_server_rs.Rust.Utf8.{from_utf8_lossy}
use sqlite_server_rs.Rust.Str.{eq_ignore_ascii_case}
use sqlite_server_rs.Store.{Deps}
use sqlite_server_rs.Session.{Session}
use sqlite_server_rs.Query.{run_query}
use sqlite_server_rs.Handler.{Reply, dispatch, handle_query, query_reply, is_safe}
use sqlite_server_rs.Client.{ClientDeps}
use sqlite_server_rs.Client.Binding.{Param}
use sqlite_server_rs.Client.Response.{new}
use sqlite_server_rs.Client.Calls.{query_request, prepared_sql, query}
use sqlite_server_rs.Client.Calls.Loopback.{idle, server_stream}
use sqlite_server_rs.Client.Calls.Login.{Sends, Reads}
use sqlite_server_rs.Client.Calls.Dispatch.{IsUnlocked, str_field-fields, call-dispatch}

module _ (d : Deps) (c : ClientDeps d.json) (json_laws : JsonLaws d.json) where
  abbrev query_fields : Text → Text → List (Text × d.Value)
  query_fields database sql =
      (bytes "cmd", d.string (bytes "QUERY"))
      ∷ (bytes "db", d.string database)
      ∷ (bytes "query", d.string sql)
      ∷ []

  query_request-dispatch :
      (req database sql : Text) (s : Session d)
      → is_safe d s database ≡ true
      → dispatch d (bytes "QUERY") req (query_request c (server_stream d) database sql) s ≡ (
        query_reply d
            (query_request c (server_stream d) database sql)
            (run_query d database sql s).0,
        (run_query d database sql s).1,
      )
  unfolding dispatch eq_ignore_ascii_case
  query_request-dispatch req database sql s safe =
      let db =
        str_field-fields d c json_laws (bytes "db") (query_fields database sql)
        ∙ json_laws.as_str-string database in
      let q =
        str_field-fields d c json_laws (bytes "query") (query_fields database sql)
        ∙ json_laws.as_str-string sql in
      rw (db, handle_query, q, safe) refl

  module _ (database sql : Text) (params : List (Param c.Float)) (s : Session d) where
    -- the statement with its parameters filled in, the request with it, and what the server does
    abbrev pub bound : Text
    bound = prepared_sql c (server_stream d) sql params

    abbrev pub asked : d.Value
    asked = query_request c (server_stream d) database bound

    abbrev pub ran : Reply d
    ran = (query_reply d asked (run_query d database bound s).0, (run_query d database bound s).1)

    -- `query` at an unlocked server, on a database whose name is accepted, gives a view of the reply to
    -- what `run_query` does with the bound statement, and leaves the server waiting with the session
    -- after that. What the two sides write to one another is within the sizes and is read back.
    pub query-run_query :
        IsUnlocked d s
        → is_safe d s database ≡ true
        → s.config.client_max_packet_size < 2 ^ 32
        → Sends d c s.config.client_max_packet_size asked
        → Reads d c ran.0
        → query c (server_stream d) database sql params (idle d s)
          ≡ (ok (new c ran.0), idle d ran.1)
    unfolding query
    query-run_query unlocked safe max sends reads =
        let e = query_request-dispatch (from_utf8_lossy sends.body) database bound s safe in
        let called =
          call-dispatch d c json_laws (bytes "QUERY") (query_fields database bound) s unlocked refl
            refl max sends (subst (λ (r : Reply d). Reads d c r.0) (sym e) reads) in
        rw (called, e) refl
