-- ===== src/Connection/Locked.antt =====
-- `handle` of src/connection.rs with a client that has not given the password.
use sqlite_server_rs.Prelude.{
  ℕ, ◌≡◌, sym, ap, ◌∙◌, Bool, false, not, ◌&&◌, List, ◌++◌, Text, is_empty, refl, arith,
}
use sqlite_server_rs.Config.{Config}
use sqlite_server_rs.Store.{Deps}
use sqlite_server_rs.Session.{Session, new}
use sqlite_server_rs.Handler.Auth.{any_carried, authenticated_exactly, locked_requests}
use sqlite_server_rs.Connection.{handle}
use sqlite_server_rs.Connection.Refinement.{handle-Ran}

not_carried : (empty any : Bool) → empty ≡ false → (not empty && any) ≡ false → any ≡ false
not_carried empty any h e = ground arith

module _ (d : Deps) (write_ok : ℕ → Bool) where
  -- Where a password is set, a connection that ends without having authenticated has left everything
  -- as it was, whatever the client sent: the files, the databases and the handler.
  pub locked_connection :
      (input : Text) (config : Config) (world : d.World)
      → is_empty config.auth ≡ false
      → (handle d write_ok input config world).session.authenticated ≡ false
      → (handle d write_ok input config world).session ≡ new d config world
  locked_connection input config world set out =
      let ran = handle-Ran d write_ok input config world in
      let s : Session d = new d config world in
      let requests : List Text = ran.answered ++ ran.unwritten in
      let none : any_carried d config.auth requests ≡ false = not_carried _ _ set (
        sym (authenticated_exactly d config world requests)
        ∙ sym (ap (λ (t : Session d). t.authenticated) ran.session)
        ∙ out) in
      ran.session ∙ (locked_requests d requests s (set, refl) none).1
