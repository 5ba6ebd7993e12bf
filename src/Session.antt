-- ===== src/Session.antt =====
-- src/handler.rs: the state of a `RequestHandler`, and the `?` of its methods. `Session` is the
-- handler's fields and the world outside; a method takes a session and returns its result with the
-- session after it.
use sqlite_server_rs.Prelude.{ℤ, pos, Bool, false, List, [], Text, Result, ok, err}
use sqlite_server_rs.Config.{Config}
use sqlite_server_rs.Store.{Deps}

abbrev pub invalid_format : ℤ
invalid_format = pos 0

abbrev pub no_command_specified : ℤ
no_command_specified = pos 1

abbrev pub unknown_command : ℤ
unknown_command = pos 2

abbrev pub no_database_specified : ℤ
no_database_specified = pos 3

abbrev pub error_reading_from_client : ℤ
error_reading_from_client = pos 4

abbrev pub sqlite_misuse : ℤ
sqlite_misuse = pos 21

pub record Session (d : Deps) : Type 0 where
  pub config : Config
  pub databases : List (Text × d.Connection)
  pub authenticated : Bool
  pub world : d.World

-- `RequestHandler::new`
abbrev pub new : (d : Deps) → Config → d.World → Session d
new d config world = record {
  config = config;
  databases = [];
  authenticated = false;
  world = world;
}

-- a `Result`, with the session that is left on success and on error
abbrev pub Exec : Deps → Type 0 → Type 0 → Type 0
Exec d A E = Session d → Result A E × Session d

-- `?`: an error ends the method, with the session as it is
abbrev pub on_result :
    {S A B E : Type 0} → Result A E → (A → S → Result B E × S) → S → Result B E × S
on_result (ok a) f s = f a s
on_result (err e) f s = (err e, s)
