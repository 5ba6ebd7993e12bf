-- ===== src/Client/Row.antt =====
-- examples/rust/client.rs: the methods of `Row`, which is a `Map` with another name.
use sqlite_server_rs.Prelude.{ℕ, ℤ, Bool, true, Option, none, some, List, Text, and_then}
use sqlite_server_rs.Json.{Json}
use sqlite_server_rs.Hex.{decode_blob_literal}
use sqlite_server_rs.Client.{ClientDeps}

module _ {j : Json} (c : ClientDeps j) where
  unfoldable pub get : c.Map → Text → Option j.Value
  get row column = c.map_get row column

  unfoldable pub get_i64 : c.Map → Text → Option ℤ
  get_i64 row column = and_then (c.map_get row column) (c.as_i64)

  unfoldable pub get_f64 : c.Map → Text → Option c.Float
  get_f64 row column = and_then (c.map_get row column) (c.as_f64)

  unfoldable pub get_str : c.Map → Text → Option Text
  get_str row column = and_then (c.map_get row column) (j.as_str)

  unfoldable pub is_null : c.Map → Text → Bool
  is_null row column = elim (c.map_get row column) [ none ↦ true | some value ↦ c.is_null value ]

  unfoldable pub blob : c.Map → Text → Option (List ℕ)
  blob row column =
      and_then (c.map_get row column) λ value. and_then (j.as_str value) decode_blob_literal
