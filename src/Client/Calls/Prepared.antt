-- ===== src/Client/Calls/Prepared.antt =====
-- The statement that `query` of examples/rust/client.rs sends.
use sqlite_server_rs.Prelude.{◌≡◌, sym, List, [], ◌∷◌, Text}
use sqlite_server_rs.Json.{Json}
use sqlite_server_rs.Client.{ClientDeps, ClientLaws}
use sqlite_server_rs.Client.Binding.{Param}
use sqlite_server_rs.Client.Binding.Filled.{filled, bind-filled, filled-none}
use sqlite_server_rs.Client.Calls.{Stream, prepared_sql}

module _ {j : Json} (c : ClientDeps j) {S : Type 0} (stream : Stream S)
    (laws : ClientLaws j c) where
  -- The statement that is sent is the one that was given, with each `?N` replaced by the literal of the
  -- `N`th value and each bare `?` by that of the next value in order; a placeholder without a value
  -- stays. With no values it is sent as it was given.
  pub prepared_sql-filled :
      (sql : Text) (params : List (Param c.Float))
      → prepared_sql c stream sql params ≡ filled c params params (c.captures sql)
  prepared_sql-filled sql [] = sym (filled-none c laws sql)
  prepared_sql-filled sql (p ∷ params) = bind-filled c sql (p ∷ params)
