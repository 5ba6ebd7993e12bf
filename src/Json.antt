-- ===== src/Json.antt =====
-- The interface of serde_json, which the program only calls: values, their parts, reading and
-- writing. A `Map` stands as the list of the insertions that made it, in order.
use sqlite_server_rs.Prelude.{
  ℕ, ℤ, ◌≡◌, Option, none, some, List, [], ◌∷◌, Text, Result, text_eq, if◌then◌else◌,
}

pub record Json : Type 1 where
  pub Value : Type 0
  -- `serde_json::from_str`, with the text of its error
  pub from_str : Text → Result Value Text
  -- `serde_json::to_string`; `none` is an error
  pub to_string : Value → Option Text
  -- `Value::get` with a key
  pub get : Value → Text → Option Value
  pub as_str : Value → Option Text
  pub as_u64 : Value → Option ℕ
  -- the pattern `Value::Array(items)`
  pub as_array : Value → Option (List Value)
  pub null : Value
  pub string : Text → Value
  pub number : ℤ → Value
  pub array : List Value → Value
  -- `Value::Object` of the map that these insertions give
  pub object : List (Text × Value) → Value

-- the value that the last insertion under a key leaves in a map
abbrev pub last_value {ℓ} : {V : Type ℓ} → Text → List (Text × V) → Option V
last_value key [] = none
last_value key ((k, v) ∷ fields) = elim (last_value key fields) [
  | some later ↦ some later
  | none ↦ if text_eq k key then some v else none
]

-- The documented behaviour of serde_json that the theorems rely on.
pub record JsonLaws (j : Json) : Type 0 where
  pub get-object :
      (fields : List (Text × j.Value)) (key : Text)
      → j.get (j.object fields) key ≡ last_value key fields
  pub as_str-string : (s : Text) → j.as_str (j.string s) ≡ some s
  pub as_array-array : (items : List j.Value) → j.as_array (j.array items) ≡ some items

module _ (j : Json) where
  open j use {Value, get, as_str}

  -- `json.get(key).and_then(Value::as_str)`
  unfoldable pub str_field : Value → Text → Option Text
  str_field json key = elim (get json key) [ none ↦ none | some value ↦ as_str value ]
