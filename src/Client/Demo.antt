-- ===== src/Client/Demo.antt =====
-- examples/rust/client.rs: the demo in `main`, with the connection to its server as a parameter. What it
-- prints is given by the arguments of its `println!`, and how it ends.
use mathlib.Core.Option
use sqlite_server_rs.Prelude.{
  ℕ, ℤ, pos, Option, none, some, List, [], ◌∷◌, ◌++◌, map, Text, bytes, Result, ok, err,
}
use sqlite_server_rs.Json.{Json}
use sqlite_server_rs.Session.{on_result}
use sqlite_server_rs.Client.{ClientDeps}
use sqlite_server_rs.Client.Binding.{Param, null, from_i32, from_f64, from_str, from_vec}
use sqlite_server_rs.Client.Row.{get_i64, get_f64, get_str, blob}
use sqlite_server_rs.Client.Response.{QueryResult, columns, rows, server_error, scalar_i64}
use sqlite_server_rs.Client.Calls.{IoError, Stream, Call, query, list, connect_with_auth}

-- the end of the program: an exit with status 1 and a message, or the result of `main`
pub data Finish : Type 0 where
  could_not_connect : IoError → Finish
  server_failed : Text → Finish
  returned : Result (Unit {0}) IoError → Finish

module _ {j : Json} (c : ClientDeps j) {S : Type 0} (stream : Stream S) where
  pub data Line : Type 0 where
    column_names : List Text → Line
    user :
        (id : Option ℤ) (name : Option Text) (score : Option c.Float) (data_ : Option (List ℕ))
        → Line
    row_count : ℤ → Line
    databases : List Text → Line

  infixl 5 ◌>>=◌
  abbrev ◌>>=◌ : {A B : Type 0} → Call c stream A → (A → Call c stream B) → Call c stream B
  m >>= f = λ s. on_result (m s).0 f (m s).1

  -- the literals 9.5 and 3.0
  module _ (nine_and_half three : c.Float) where
    abbrev sql : Text → List (Param c.Float) → Call c stream (QueryResult c)
    sql = query c stream (bytes "example.db")

    abbrev alice : List (Param c.Float)
    alice =
        from_i32 (pos 1)
        ∷ from_str (bytes "Alice")
        ∷ from_f64 nine_and_half
        ∷ from_vec (0 ∷ 255 ∷ [])
        ∷ []

    abbrev bob : List (Param c.Float)
    bob = from_i32 (pos 2) ∷ from_str (bytes "Bob O'Brien") ∷ from_f64 three ∷ null ∷ []

    -- the queries up to the one whose rows are printed
    unfoldable pub fill_users : Call c stream (QueryResult c)
    unfolding query from_i32 from_f64 from_str from_vec
    fill_users = do
      _ ←
          sql
            (bytes "CREATE TABLE IF NOT EXISTS users(id INTEGER, name TEXT, score REAL, data BLOB)")
            []
      _ ← sql (bytes "DELETE FROM users") []
      _ ← sql (bytes "INSERT INTO users VALUES (?, ?, ?, ?)") alice
      _ ← sql (bytes "INSERT INTO users VALUES (?, ?, ?, ?)") bob
      sql (bytes "SELECT id, name, score, data FROM users ORDER BY id") []

    abbrev user_line : c.Map → Line
    user_line row =
        user (get_i64 c row (bytes "id")) (get_str c row (bytes "name"))
          (get_f64 c row (bytes "score")) (blob c row (bytes "data"))

    -- the part of `main` after the rows have been printed: what it prints, and its result
    unfoldable pub count_and_list : S → List Line × Result (Unit {0}) IoError
    unfolding query list scalar_i64
    count_and_list s =
        let (counted, s1) = sql (bytes "SELECT COUNT(*) AS n FROM users") [] s in
        elim counted [
          | err e ↦ ([], err e)
          | ok result ↦
              let count : Line = row_count (Option.get_or (scalar_i64 c result) (pos 0)) in
              elim (list c stream s1).0 [
                | err e ↦ (count ∷ [], err e)
                | ok names ↦ (count ∷ databases names ∷ [], ok tt)
              ]
        ]

    -- `main` on an open stream
    unfoldable pub demo_on : S → List Line × Finish
    unfolding fill_users count_and_list columns rows server_error get_i64 get_str get_f64 blob
    demo_on s =
        let (filled, s1) = fill_users s in
        elim filled [
          | err e ↦ ([], returned (err e))
          | ok result ↦ elim (server_error c result) [
            | some message ↦ ([], server_failed message)
            | none ↦
                let (later, end_) = count_and_list s1 in
                (
                  column_names (columns c result) ∷ (map user_line (rows c result) ++ later),
                  returned end_,
                )
          ]
        ]

    -- `main`, from what `TcpStream::connect` gave
    unfoldable pub demo : Result S IoError → List Line × Finish
    unfolding demo_on connect_with_auth
    demo (err e) = ([], could_not_connect e)
    demo (ok s) =
        let (connected, s1) = connect_with_auth c stream (bytes "") s in
        elim connected [ err e ↦ ([], could_not_connect e) | ok _ ↦ demo_on s1 ]
