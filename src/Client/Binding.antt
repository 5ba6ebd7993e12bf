-- ===== src/Client/Binding.antt =====
-- examples/rust/client.rs: `Param`, `serialize_sql_value` and `bind`.
pub mod Literal
pub mod Quotes
pub mod Scanner
pub mod Confined
pub mod Filled
use mathlib.Core.Option
use sqlite_server_rs.Prelude.{
  ℕ, suc, ◌+◌, ◌-◌, ℤ, pos, negsuc, Bool, true, false, ◌&&◌, Option, List, [], ◌∷◌, ◌++◌, Text,
  bytes, ltb, leb, ◌==◌, if◌then◌else◌, length, get_or,
}
use sqlite_server_rs.Json.{Json}
use sqlite_server_rs.Hex.{blob_literal}
use sqlite_server_rs.Rust.Decimal.{decimal}
use sqlite_server_rs.Rust.Str.{parse_usize}
use sqlite_server_rs.Client.{ClientDeps, Piece, plain, numbered, bare}

pub data Param (Float : Type 0) : Type 0 where
  null : Param Float
  bool : Bool → Param Float
  int : ℤ → Param Float
  real : Float → Param Float
  text blob : List ℕ → Param Float

-- the other `impl From<_> for Param`; `v as i64` keeps an `i32`
unfoldable pub from_i64 : {Float : Type 0} → ℤ → Param Float
from_i64 v = int v

unfoldable pub from_i32 : {Float : Type 0} → ℤ → Param Float
from_i32 v = int v

unfoldable pub from_f64 : {Float : Type 0} → Float → Param Float
from_f64 v = real v

unfoldable pub from_bool : {Float : Type 0} → Bool → Param Float
from_bool v = bool v

unfoldable pub from_str : {Float : Type 0} → Text → Param Float
from_str v = text v

unfoldable pub from_string : {Float : Type 0} → Text → Param Float
from_string v = text v

unfoldable pub from_vec : {Float : Type 0} → List ℕ → Param Float
from_vec v = blob v

-- `impl From<Option<T>> for Param`
unfoldable pub from_option : {T Float : Type 0} → (T → Param Float) → Option T → Param Float
from_option into (Option.some x) = into x
from_option into Option.none = null

-- `i64::to_string`
unfoldable pub int_to_string : ℤ → Text
int_to_string (pos n) = decimal n
int_to_string (negsuc n) = b'-' ∷ decimal (suc n)

-- `s.replace('\'', "''")`
unfoldable pub double_quotes : Text → Text
double_quotes [] = []
double_quotes (x ∷ s) =
    let rest = double_quotes s in if x == b'\'' then b'\'' ∷ b'\'' ∷ rest else x ∷ rest

module _ {j : Json} (c : ClientDeps j) where
  open c use {Float, is_nan, is_infinite, is_positive, float_to_string, captures}

  unfoldable pub serialize_real : Float → Text
  serialize_real f =
      if is_nan f
      then bytes "NULL"
      else if is_infinite f
      then (if is_positive f then bytes "9e999" else bytes "-9e999")
      else float_to_string f

  unfoldable pub serialize_sql_value : Param Float → Text
  unfolding int_to_string double_quotes serialize_real
  serialize_sql_value null = bytes "NULL"
  serialize_sql_value (bool b) = if b then bytes "1" else bytes "0"
  serialize_sql_value (int n) = int_to_string n
  serialize_sql_value (real f) = serialize_real f
  serialize_sql_value (text s) = bytes "'" ++ (double_quotes s ++ bytes "'")
  serialize_sql_value (blob s) = blob_literal s

  -- `serialize_sql_value(&params[i])`, at an index that has been found to be in range
  abbrev pub value_at : List (Param Float) → ℕ → Text
  value_at params i = serialize_sql_value (get_or params i null)

  -- what `?N` becomes
  unfoldable pub numbered_value : List (Param Float) → Text → Text
  unfolding serialize_sql_value
  numbered_value params digits =
      let index = Option.get_or (parse_usize digits) 0 in
      if leb 1 index && leb index (length params)
      then value_at params (index - 1)
      else b'?' ∷ digits

  -- what `?` becomes, and the count of values that are used then
  unfoldable pub bare_value : List (Param Float) → ℕ → Text × ℕ
  unfolding serialize_sql_value
  bare_value params next =
      if ltb next (length params) then (value_at params next, next + 1) else (bytes "?", next)

  -- the closure of `replace_all`, over the matches
  unfoldable pub replace_all : List (Param Float) → ℕ → List Piece → Text
  unfolding numbered_value bare_value
  replace_all params next [] = []
  replace_all params next (plain s ∷ pieces) = s ++ replace_all params next pieces
  replace_all params next (numbered digits ∷ pieces) =
      numbered_value params digits ++ replace_all params next pieces
  replace_all params next (bare ∷ pieces) =
      let (value, next') = bare_value params next in value ++ replace_all params next' pieces

  unfoldable pub bind : Text → List (Param Float) → Text
  unfolding replace_all
  bind sql params = replace_all params 0 (captures sql)
