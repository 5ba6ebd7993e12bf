-- ===== src/Tests/Values.antt =====
-- A stand-in for serde_json. A request is written `key=value;key=value`, an object of strings; a text
-- with an "!" is malformed.
use sqlite_server_rs.Prelude.{
  ℕ, ℤ, pos, ◌≡◌, refl, Bool, true, false, ◌&&◌, ◌==◌, ◌||◌, Option, none, some, List, [], ◌∷◌,
  ◌++◌, Text, bytes, ok, err, text_eq, if◌then◌else◌,
}
use sqlite_server_rs.Json.{Json, JsonLaws, last_value}
use sqlite_server_rs.Rust.Str.{split, split_once}

-- arrays and objects by their first item
pub data Value : Type 0 where
  null : Value
  string : Text → Value
  number : ℤ → Value
  -- a number with a point, as it is printed
  float : Text → Value
  empty_array empty_object : Value
  item : Value → Value → Value
  field : Text → Value → Value → Value

abbrev pub array : List Value → Value
array [] = empty_array
array (v ∷ vs) = item v (array vs)

abbrev pub object : List (Text × Value) → Value
object [] = empty_object
object ((k, v) ∷ fields) = field k v (object fields)

abbrev get : Value → Text → Option Value
get (field k v fields) key = elim (get fields key) [
  | some later ↦ some later
  | none ↦ if text_eq k key then some v else none
]
get _ key = none

abbrev as_str : Value → Option Text
as_str (string s) = some s
as_str _ = none

abbrev as_u64 : Value → Option ℕ
as_u64 (number (pos n)) = some n
as_u64 _ = none

abbrev as_array : Value → Option (List Value)
as_array empty_array = some []
as_array (item v vs) = elim (as_array vs) [ none ↦ none | some items ↦ some (v ∷ items) ]
as_array _ = none

int_eq : ℤ → ℤ → Bool
int_eq (pos n) (pos m) = n == m
int_eq (ℤ.negsuc n) (ℤ.negsuc m) = n == m
int_eq _ _ = false

-- `==` of values
unfoldable pub value_eq : Value → Value → Bool
unfolding int_eq
value_eq null null = true
value_eq (string s) (string t) = text_eq s t
value_eq (number n) (number m) = int_eq n m
value_eq (float s) (float t) = text_eq s t
value_eq empty_array empty_array = true
value_eq empty_object empty_object = true
value_eq (item v vs) (item w ws) = value_eq v w && value_eq vs ws
value_eq (field k v fs) (field l w gs) = text_eq k l && (value_eq v w && value_eq fs gs)
value_eq _ _ = false

-- an object of strings as it is read; of any other value, its texts one after the other
abbrev pub print : Value → Text
print (string s) = s
print (item v vs) = print v ++ print vs
print (field k v empty_object) = k ++ (b'=' ∷ print v)
print (field k v fields) = k ++ (b'=' ∷ (print v ++ (b';' ∷ print fields)))
print _ = []

abbrev malformed : Text → Bool
malformed [] = false
malformed (x ∷ s) = x == b'!' || malformed s

abbrev read_field : Text → Text × Value
read_field s = elim (split_once b'=' s) [
  | none ↦ (s, null)
  | some (key, value) ↦ (key, string value)
]

abbrev read_fields : List Text → List (Text × Value)
read_fields [] = []
read_fields (s ∷ ss) = read_field s ∷ read_fields ss

abbrev pub json : Json
json = record {
  Value = Value;
  from_str = λ s.
      if malformed s then err (bytes "malformed") else ok (object (read_fields (split b';' s)));
  to_string = λ v. some (print v);
  get = get;
  as_str = as_str;
  as_u64 = as_u64;
  as_array = as_array;
  null = null;
  string = string;
  number = number;
  array = array;
  object = object;
}

get-object :
    (fields : List (Text × Value)) (key : Text) → get (object fields) key ≡ last_value key fields
get-object [] key = refl
get-object ((k, v) ∷ fields) key = rw (get-object fields key) refl

as_array-array : (items : List Value) → as_array (array items) ≡ some items
as_array-array [] = refl
as_array-array (v ∷ vs) = rw (as_array-array vs) refl

pub json_laws : JsonLaws json
json_laws = record {
  get-object = get-object;
  as_str-string = λ s. refl;
  as_array-array = as_array-array;
}
