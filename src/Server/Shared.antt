-- ===== src/Server/Shared.antt =====
-- src/server.rs and src/connection.rs: the connections of a server and the world that they share. Each
-- task has its own `RequestHandler`; the requests of the tasks come in any order. A request is one step:
-- what other tasks do to the world during a request is not modelled.
pub mod Isolation
pub mod Deletion
pub mod Caches
use sqlite_server_rs.Prelude.{
  ℕ, zero, suc, Bool, false, Option, none, some, List, [], ◌∷◌, Text, get_elem?,
}
use sqlite_server_rs.Config.{Config}
use sqlite_server_rs.Store.{Deps}
use sqlite_server_rs.Session.{Session}
use sqlite_server_rs.Handler.{handle_request}

module _ (d : Deps) where
  -- what a `RequestHandler` has of its own
  pub record Handler : Type 0 where
    pub databases : List (Text × d.Connection)
    pub authenticated : Bool

  -- `RequestHandler::new`, of a new task
  abbrev pub new_handler : Handler
  new_handler = record { databases = []; authenticated = false }

  pub record Shared : Type 0 where
    pub handlers : List Handler
    pub world : d.World

  module _ (config : Config) where
    abbrev pub session_of : Handler → d.World → Session d
    session_of h world = record {
      config = config;
      databases = h.databases;
      authenticated = h.authenticated;
      world = world;
    }

    abbrev pub handler_of : Session d → Handler
    handler_of s = record { databases = s.databases; authenticated = s.authenticated }

    -- task `i` handles a request; nothing happens if there is no such task
    unfoldable pub handle_at : ℕ → Text → List Handler → d.World → Shared
    handle_at i req [] world = record { handlers = []; world = world }
    handle_at zero req (h ∷ handlers) world =
        let s = (handle_request d req (session_of h world)).1 in
        record { handlers = handler_of s ∷ handlers; world = s.world }
    handle_at (suc i) req (h ∷ handlers) world =
        let later = handle_at i req handlers world in
        record { handlers = h ∷ later.handlers; world = later.world }

    -- the requests in the order in which they are handled, each with its task
    unfoldable pub handle_all : List (ℕ × Text) → Shared → Shared
    unfolding handle_at
    handle_all [] st = st
    handle_all ((i, req) ∷ schedule) st = handle_all schedule (handle_at i req st.handlers st.world)
