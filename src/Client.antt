-- ===== src/Client.antt =====
-- examples/rust/client.rs: what the client calls of serde_json, of `f64` and of the regex crate,
-- besides what the server calls.
pub mod Binding
pub mod Row
pub mod Response
pub mod Calls
pub mod Demo
use sqlite_server_rs.Prelude.{
  ℕ, ℤ, ◌≡◌, false, Bool, Option, some, List, [], ◌∷◌, ◌++◌, Text, Result, ◌==◌, All,
}
use sqlite_server_rs.Json.{Json, last_value}

-- A part of a statement: text, `?` with digits after it, or a bare `?`.
pub data Piece : Type 0 where
  plain numbered : Text → Piece
  bare : Piece

pub record ClientDeps (j : Json) : Type 1 where
  pub Map : Type 0
  pub Float : Type 0
  -- `Value::as_object`, and `Map::get`, `Map::keys`
  pub as_object : j.Value → Option Map
  pub map_get : Map → Text → Option j.Value
  pub map_keys : Map → List Text
  -- the pattern `Value::Null`
  pub is_null : j.Value → Bool
  pub as_i64 : j.Value → Option ℤ
  pub as_f64 : j.Value → Option Float
  -- `Display` of a value
  pub display : j.Value → Text
  pub to_vec : j.Value → Result Text Text
  pub from_slice : Text → Result j.Value Text
  -- `f64`: `is_nan`, `is_infinite`, `> 0.0` and `Display`
  pub is_nan : Float → Bool
  pub is_infinite : Float → Bool
  pub is_positive : Float → Bool
  pub float_to_string : Float → Text
  -- the matches of `\?(\d+)|\?` from left to right, with the text between them
  pub captures : Text → List Piece

abbrev pub HasNoQuote : Text → Type 0
HasNoQuote s = All (λ x. (x == b'\'') ≡ false) s

-- the text of a part
abbrev pub piece_text : Piece → Text
piece_text (plain s) = s
piece_text (numbered digits) = b'?' ∷ digits
piece_text bare = b'?' ∷ []

abbrev pub pieces_text : List Piece → Text
pieces_text [] = []
pieces_text (piece ∷ pieces) = piece_text piece ++ pieces_text pieces

-- The documented behaviour that the theorems rely on.
pub record ClientLaws (j : Json) (c : ClientDeps j) : Type 0 where
  -- a `Map` holds the last value under each key
  pub as_object-object :
      (fields : List (Text × j.Value))
      → (m : c.Map) × (c.as_object (j.object fields) ≡ some m)
        × ((key : Text) → c.map_get m key ≡ last_value key fields)
  -- the parts make up the statement
  pub captures_joined : (sql : Text) → pieces_text (c.captures sql) ≡ sql
