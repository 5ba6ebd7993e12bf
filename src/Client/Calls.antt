-- ===== src/Client/Calls.antt =====
-- examples/rust/client.rs: the methods of `Sqlite`. Its fields are the stream and the name of a
-- database; a method takes the state of the stream and returns its result with the state after it.
pub mod Loopback
pub mod Login
pub mod Dispatch
pub mod Query
pub mod Files
pub mod Prepared
use sqlite_server_rs.Prelude.{
  ℕ, Bool, true, false, not, Option, none, some, List, [], ◌∷◌, Text, bytes, text_eq, is_empty,
  Result, ok, err, map_err, length, if◌then◌else◌,
}
use sqlite_server_rs.Json.{Json, str_field}
use sqlite_server_rs.Session.{on_result}
use sqlite_server_rs.Frame.{to_le_bytes, from_le_bytes}
use sqlite_server_rs.Client.{ClientDeps}
use sqlite_server_rs.Client.Binding.{Param, bind}
use sqlite_server_rs.Client.Response.{QueryResult, new, string_list}

-- `std::io::Error`, by where it comes from: the stream, serde_json with its message, or a refused
-- password
pub data IoError : Type 0 where
  stream_failed : IoError
  json_failed : Text → IoError
  permission_denied : IoError

-- `TcpStream`: whether a write succeeds, and the bytes that a read gets
pub record Stream (S : Type 0) : Type 0 where
  pub write_all : Text → S → Bool × S
  pub flush : S → Bool × S
  pub read_exact : ℕ → S → Option Text × S

module _ {j : Json} (c : ClientDeps j) {S : Type 0} (stream : Stream S) where
  open stream use {write_all, flush, read_exact}

  abbrev pub Call : Type 0 → Type 0
  Call A = S → Result A IoError × S

  -- `?` on a write
  abbrev pub written : Bool × S → Result (Unit {0}) IoError × S
  written (true, s) = (ok tt, s)
  written (false, s) = (err stream_failed, s)

  -- `?` on a read
  abbrev pub got : Option Text × S → Result Text IoError × S
  got (some buf, s) = (ok buf, s)
  got (none, s) = (err stream_failed, s)

  infixl 5 ◌>>=◌
  abbrev pub ◌>>=◌ : {A B : Type 0} → Call A → (A → Call B) → Call B
  m >>= f = λ s. on_result (m s).0 f (m s).1

  unfoldable pub send : j.Value → Call (Unit {0})
  send request = do
    body ← (λ s. (map_err json_failed (c.to_vec request), s))
    _ ← (λ s. written (write_all (to_le_bytes (length body)) s))
    _ ← (λ s. written (write_all body s))
    λ s. written (flush s)

  unfoldable pub recv : Call j.Value
  recv = do
    header ← (λ s. got (read_exact 4 s))
    buf ← (λ s. got (read_exact (from_le_bytes header) s))
    λ s. (map_err json_failed (c.from_slice buf), s)

  unfoldable pub call : j.Value → Call j.Value
  unfolding send recv
  call request = do _ ← send request; recv

  -- `response.get("result").and_then(Value::as_str) == Some("ok")`
  unfoldable pub says_ok : j.Value → Bool
  says_ok response = elim (str_field j response (bytes "result")) [
    | none ↦ false
    | some result ↦ text_eq result (bytes "ok")
  ]

  abbrev pub auth_request : Text → j.Value
  auth_request auth = j.object ((bytes "auth", j.string auth) ∷ [])

  unfoldable pub authenticate : Text → Call (Unit {0})
  unfolding call says_ok
  authenticate auth = do
    response ← call (auth_request auth)
    λ s. (if says_ok response then ok tt else err permission_denied, s)

  -- `connect_with_auth`, once the stream is connected
  unfoldable pub connect_with_auth : Text → Call (Unit {0})
  unfolding authenticate
  connect_with_auth auth s = if not (is_empty auth) then authenticate auth s else (ok tt, s)

  abbrev pub query_request : Text → Text → j.Value
  query_request database prepared = j.object (
      (bytes "cmd", j.string (bytes "QUERY"))
      ∷ (bytes "db", j.string database)
      ∷ (bytes "query", j.string prepared)
      ∷ [])

  abbrev pub prepared_sql : Text → List (Param c.Float) → Text
  prepared_sql sql [] = sql
  prepared_sql sql (p ∷ params) = bind c sql (p ∷ params)

  unfoldable pub query : Text → Text → List (Param c.Float) → Call (QueryResult c)
  unfolding call
  query database sql params = do
    response ← call (query_request database (prepared_sql sql params))
    λ s. (ok (new c response), s)

  abbrev pub list_request : j.Value
  list_request = j.object ((bytes "cmd", j.string (bytes "LIST")) ∷ [])

  unfoldable pub list : Call (List Text)
  unfolding call string_list
  list = do response ← call list_request; λ s. (ok (string_list j response (bytes "list")), s)

  abbrev pub delete_request : Text → j.Value
  delete_request database =
      j.object ((bytes "cmd", j.string (bytes "DELETE_DB")) ∷ (bytes "db", j.string database) ∷ [])

  unfoldable pub delete_db : Text → Call Bool
  unfolding call says_ok
  delete_db database = do response ← call (delete_request database); λ s. (ok (says_ok response), s)
