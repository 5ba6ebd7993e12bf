-- ===== src/Server/Shared/Caches.antt =====
-- The cached connections of the tasks of src/server.rs.
use mathlib.Core.Path.{subst}
use sqlite_server_rs.Prelude.{
  ℕ, zero, suc, ◌≡◌, refl, some, List, [], ◌∷◌, Text, ok, replicate, get_elem?, All,
}
use sqlite_server_rs.Config.{Config}
use sqlite_server_rs.Store.{Deps}
use sqlite_server_rs.Query.{get_connection}
use sqlite_server_rs.Query.Cache.{IsTuned}
use sqlite_server_rs.Handler.Cached.{handle_request-CacheOf, get_connection-cached_or_new}
use sqlite_server_rs.Server.Shared.{Handler, new_handler, Shared, session_of, handle_at, handle_all}

module _ (d : Deps) (config : Config) where
  abbrev AllTuned : List (Handler d) → Type 0
  AllTuned handlers =
      All (λ (h : Handler d). All (λ e. IsTuned d config e.0 e.1) h.databases) handlers

  new-AllTuned : (n : ℕ) → AllTuned (replicate n (new_handler d))
  new-AllTuned zero = tt
  new-AllTuned (suc n) = (tt, new-AllTuned n)

  handle_at-AllTuned :
      (i : ℕ) (req : Text) (handlers : List (Handler d)) (world : d.World)
      → AllTuned handlers
      → AllTuned (handle_at d config i req handlers world).handlers
  unfolding handle_at
  handle_at-AllTuned i req [] world h = tt
  handle_at-AllTuned zero req (k ∷ handlers) world h = (
    handle_request-CacheOf d (IsTuned d config) config (λ w db conn p t. t) req
        (session_of d config k world) refl h.0,
    h.1,
  )
  handle_at-AllTuned (suc i) req (k ∷ handlers) world h =
      (h.0, handle_at-AllTuned i req handlers world h.1)

  handle_all-AllTuned :
      (schedule : List (ℕ × Text)) (st : Shared d)
      → AllTuned st.handlers
      → AllTuned (handle_all d config schedule st).handlers
  unfolding handle_all
  handle_all-AllTuned [] st h = h
  handle_all-AllTuned ((i, req) ∷ schedule) st h =
      handle_all-AllTuned schedule (handle_at d config i req st.handlers st.world)
        (handle_at-AllTuned i req st.handlers st.world h)

  AllTuned-at :
      (handlers : List (Handler d)) (i : ℕ) (h : Handler d)
      → AllTuned handlers
      → get_elem? handlers i ≡ some h
      → All (λ e. IsTuned d config e.0 e.1) h.databases
  AllTuned-at [] i h tuned at = cc at
  AllTuned-at (k ∷ handlers) zero h tuned at =
      let same : k ≡ h = cc at in
      subst (λ (x : Handler d). All (λ e. IsTuned d config e.0 e.1) x.databases) same tuned.0
  AllTuned-at (k ∷ handlers) (suc i) h tuned at = AllTuned-at handlers i h tuned.1 at

  -- After any requests of the connections of a server, in any order, a connection that one of them gets
  -- for a database, cached or new, was opened on the file of that name in the databases folder, and set
  -- up with the pragmas of the configuration right after, whatever the world outside is by then.
  pub get_connection-IsTuned :
      (n : ℕ) (world now : d.World) (schedule : List (ℕ × Text)) (i : ℕ) (h : Handler d) (db : Text)
      (conn : d.Connection)
      → get_elem?
          (handle_all d config schedule
            (record { handlers = replicate n (new_handler d); world = world })).handlers
          i
        ≡ some h
      → (get_connection d db (session_of d config h now)).0 ≡ ok conn
      → IsTuned d config db conn
  get_connection-IsTuned n world now schedule i h db conn stands got =
      let st : Shared d = record { handlers = replicate n (new_handler d); world = world } in
      get_connection-cached_or_new d config (session_of d config h now) db conn refl
        (AllTuned-at (handle_all d config schedule st).handlers i h
          (handle_all-AllTuned schedule st (new-AllTuned n)) stands)
        got
