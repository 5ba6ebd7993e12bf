-- ===== src/Server/Shared/Deletion.antt =====
-- The cached connections of a task of src/server.rs, while other tasks run and may delete the database.
use sqlite_server_rs.Prelude.{
  ℕ, zero, suc, ◌≡◌, ◌∙◌, ap, refl, inl, inr, true, false, bytes, none, text_eq_refl, if◌then◌else◌,
  some, List, [], ◌∷◌, Text, ok, ◌==◌, Bool-cases, get_elem?,
}
use sqlite_server_rs.Dict.{lookup, remove, lookup-remove}
use sqlite_server_rs.Config.{Config}
use sqlite_server_rs.Store.{Deps}
use sqlite_server_rs.Session.{Session}
use sqlite_server_rs.Json.{str_field}
use sqlite_server_rs.Rust.FilePath.{join}
use sqlite_server_rs.Rust.Str.{eq_ignore_ascii_case}
use sqlite_server_rs.DatabaseName.{is_safe_database_name}
use sqlite_server_rs.Handler.{Reply, handle_request, handle_delete_db, delete_file, dispatch}
use sqlite_server_rs.Client.Calls.Dispatch.{IsUnlocked, handle_request-dispatch}
use sqlite_server_rs.Query.{get_connection}
use sqlite_server_rs.Query.Reuse.{get_connection_cached}
use sqlite_server_rs.Server.Shared.{Handler, Shared, session_of, handler_of, handle_at, handle_all}
use sqlite_server_rs.Server.Shared.Isolation.{requests_of, handle_at-own, handle_at-other}

module _ (d : Deps) (config : Config) where
  others_keep :
      (i : ℕ) (schedule : List (ℕ × Text)) (st : Shared d)
      → requests_of i schedule ≡ []
      → get_elem? (handle_all d config schedule st).handlers i ≡ get_elem? st.handlers i
  unfolding handle_all requests_of
  others_keep i [] st h = refl
  others_keep i ((j, req) ∷ schedule) st h = elim (Bool-cases (i == j)) [
    | inl own ↦ cc (rw own at h)
    | inr other ↦
        others_keep i schedule (handle_at d config j req st.handlers st.world) (rw other at h)
        ∙ handle_at-other d config i j req st.handlers st.world other
  ]

  handle_at-world :
      (j : ℕ) (req : Text) (handlers : List (Handler d)) (world : d.World) (h : Handler d)
      → get_elem? handlers j ≡ some h
      → (handle_at d config j req handlers world).world
        ≡ (handle_request d req (session_of d config h world)).1.world
  unfolding handle_at
  handle_at-world j req [] world h e = cc e
  handle_at-world zero req (k ∷ handlers) world h e = let same : k ≡ h = cc e in rw same refl
  handle_at-world (suc j) req (k ∷ handlers) world h e = handle_at-world j req handlers world h e

  -- Task `j` is not locked, and its request deletes a database with success.
  pub record Deletes (st : Shared d) (j : ℕ) (h : Handler d) (req db : Text) : Type 0 where
    pub stands : get_elem? st.handlers j ≡ some h
    pub unlocked : IsUnlocked d (session_of d config h st.world)
    pub request : d.Value
    pub from_str : d.from_str req ≡ ok request
    pub auth : str_field d.json request (bytes "auth") ≡ none
    pub cmd : str_field d.json request (bytes "cmd") ≡ some (bytes "DELETE_DB")
    pub names_db : str_field d.json request (bytes "db") ≡ some db
    pub safe : is_safe_database_name d st.world config.databases_folder db ≡ true
    pub removed : (d.remove_file (join config.databases_folder db) st.world).0 ≡ true

  -- What is left after that, and after the requests of a schedule.
  pub record Leaves (st : Shared d) (j : ℕ) (req db : Text) (i : ℕ) (h : Handler d)
      (conn : d.Connection) (schedule : List (ℕ × Text)) : Type 0 where
    -- the file is removed, and its name is not in the cache of task `j`
    pub world :
        (handle_at d config j req st.handlers st.world).world
        ≡ (d.remove_file (join config.databases_folder db) st.world).1
    pub deleter : Handler d
    pub deleter_stands :
        get_elem? (handle_at d config j req st.handlers st.world).handlers j ≡ some deleter
    pub forgotten : lookup db deleter.databases ≡ none
    -- task `i` uses the connection that it has
    pub stands :
        get_elem?
          (handle_all d config schedule (handle_at d config j req st.handlers st.world)).handlers
          i
        ≡ some h
    pub in_use :
        (now : d.World)
        → get_connection d db (session_of d config h now) ≡ (ok conn, session_of d config h now)

  Deletes-reply :
      (st : Shared d) (j : ℕ) (h : Handler d) (req db : Text)
      → Deletes st j h req db
      → (handle_request d req (session_of d config h st.world)).1
        ≡ record (session_of d config h st.world) {
          world = (d.remove_file (join config.databases_folder db) st.world).1;
          databases = remove db h.databases;
        }
  unfolding dispatch handle_delete_db delete_file eq_ignore_ascii_case
  Deletes-reply st j h req db a =
      let s : Session d = session_of d config h st.world in
      ap (λ (r : Reply d). r.1)
        (handle_request-dispatch d req (bytes "DELETE_DB") a.request s a.unlocked a.from_str a.auth
          a.cmd)
      ∙ rw (a.names_db, dispatch, handle_delete_db, a.safe, a.removed) refl

  -- A deletion does not reach the caches of the other connections: where it has removed the file, the
  -- database is not in the cache of the connection that asked for it, but another connection that has
  -- it in its cache goes on to use the connection that it has, with nothing opened, whatever the
  -- requests of the others are from then on.
  pub deleted_stays_cached :
      (st : Shared d) (j : ℕ) (deleter : Handler d) (req db : Text)
      → Deletes st j deleter req db
      → (i : ℕ) (h : Handler d) (conn : d.Connection) → (i == j) ≡ false
      → get_elem? st.handlers i ≡ some h
      → lookup db h.databases ≡ some conn
      → (schedule : List (ℕ × Text)) → requests_of i schedule ≡ []
      → Leaves st j req db i h conn schedule
  deleted_stays_cached st j deleter req db a i h conn other stands cached schedule quiet =
      let done = Deletes-reply st j deleter req db a in
      record {
        world =
            handle_at-world j req st.handlers st.world deleter a.stands
            ∙ ap (λ (s : Session d). s.world) done;
        deleter = record {
          databases = remove db deleter.databases;
          authenticated = deleter.authenticated;
        };
        deleter_stands =
            handle_at-own d config j req st.handlers st.world deleter a.stands
            ∙ ap (λ (s : Session d). some (handler_of d config s)) done;
        forgotten =
            lookup-remove db db deleter.databases
            ∙ ap (λ b. if b then none else lookup db deleter.databases) (text_eq_refl db);
        stands =
            others_keep i schedule (handle_at d config j req st.handlers st.world) quiet
            ∙ handle_at-other d config i j req st.handlers st.world other
            ∙ stands;
        in_use = λ now. get_connection_cached d db conn (session_of d config h now) cached;
      }
