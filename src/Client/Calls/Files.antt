-- ===== src/Client/Calls/Files.antt =====
-- `list` and `delete_db` of examples/rust/client.rs at the server.
use mathlib.Core.Path.{subst}
use sqlite_server_rs.Prelude.{
  ◌^◌, ◌<◌, ◌≡◌, refl, sym, ap, ◌∙◌, inl, inr, true, Option, none, some, List, [], ◌∷◌, Text, bytes,
  text_eq_refl, ok, Bool-cases, and_then, filter_map,
}
use sqlite_server_rs.Json.{last_value, JsonLaws}
use sqlite_server_rs.Rust.Utf8.{from_utf8_lossy}
use sqlite_server_rs.Rust.Str.{eq_ignore_ascii_case}
use sqlite_server_rs.Rust.FilePath.{join}
use sqlite_server_rs.Store.{Deps}
use sqlite_server_rs.Session.{Session}
use sqlite_server_rs.Handler.{
  Reply, dispatch, handle_list, list_names, handle_delete_db, delete_file, is_safe, result_ok,
  result_error, map_string,
}
use sqlite_server_rs.Client.{ClientDeps}
use sqlite_server_rs.Client.Response.{string_list, array_field}
use sqlite_server_rs.Client.Calls.{list_request, list, delete_request, delete_db, says_ok}
use sqlite_server_rs.Client.Calls.Loopback.{idle, server_stream}
use sqlite_server_rs.Client.Calls.Login.{Sends, Reads, says_ok-object}
use sqlite_server_rs.Client.Calls.Dispatch.{IsUnlocked, str_field-fields, call-dispatch}

module _ (d : Deps) (c : ClientDeps d.json) (json_laws : JsonLaws d.json) where
  abbrev delete_fields : Text → List (Text × d.Value)
  delete_fields database =
      (bytes "cmd", d.string (bytes "DELETE_DB")) ∷ (bytes "db", d.string database) ∷ []

  list_request-dispatch :
      (req : Text) (s : Session d)
      → dispatch d (bytes "LIST") req (list_request c (server_stream d)) s ≡ (handle_list d s, s)
  unfolding dispatch eq_ignore_ascii_case
  list_request-dispatch req s = refl

  delete_request-dispatch :
      (req database : Text) (s : Session d)
      → is_safe d s database ≡ true
      → dispatch d (bytes "DELETE_DB") req (delete_request c (server_stream d) database) s
        ≡ delete_file d database s
  unfolding dispatch eq_ignore_ascii_case
  delete_request-dispatch req database s safe =
      let db =
        str_field-fields d c json_laws (bytes "db") (delete_fields database)
        ∙ json_laws.as_str-string database in
      rw (db, handle_delete_db, safe) refl

  delete_reply :
      (P : d.Value → Type 0) (database : Text) (s : Session d)
      → P (result_ok d)
      → P (result_error d)
      → P (delete_file d database s).0
  unfolding delete_file
  delete_reply P database s yes_ no_ =
      elim (Bool-cases (d.remove_file (join s.config.databases_folder database) s.world).0) [
        | inl removed ↦ rw (removed, delete_file) yes_
        | inr kept ↦ rw (kept, delete_file) no_
      ]

  delete_shown :
      (database : Text) (s : Session d)
      → says_ok c (server_stream d) (delete_file d database s).0
        ≡ (d.remove_file (join s.config.databases_folder database) s.world).0
  unfolding delete_file
  delete_shown database s =
      elim (Bool-cases (d.remove_file (join s.config.databases_folder database) s.world).0) [
        | inl removed ↦ rw (removed, delete_file) (says_ok-object d c json_laws (bytes "ok"))
        | inr kept ↦ rw (kept, delete_file) (says_ok-object d c json_laws (bytes "error"))
      ]

  filter_map-map_string : (names : List Text) → filter_map d.as_str (map_string d names) ≡ names
  filter_map-map_string [] = refl
  filter_map-map_string (name ∷ names) =
      rw (json_laws.as_str-string name) (ap (λ ns. name ∷ ns) (filter_map-map_string names))

  string_list-object :
      (key : Text) (names : List Text)
      → string_list d.json (d.object ((key, d.array (map_string d names)) ∷ [])) key ≡ names
  unfolding string_list array_field
  string_list-object key names =
      let here : last_value key ((key, d.array (map_string d names)) ∷ [])
          ≡ some (d.array (map_string d names)) =
        rw (text_eq_refl key) refl in
      let items : array_field d.json (d.object ((key, d.array (map_string d names)) ∷ [])) key
          ≡ some (map_string d names) =
        ap (λ (o : Option d.Value). and_then o d.as_array)
          (json_laws.get-object ((key, d.array (map_string d names)) ∷ []) key ∙ here)
        ∙ json_laws.as_array-array (map_string d names) in
      rw (items, string_list) (filter_map-map_string names)

  -- `delete_db` at an unlocked server, with a name that is accepted, tells whether the file was removed,
  -- and leaves the server with the session after the deletion.
  pub delete_db-delete_file :
      (database : Text) (s : Session d)
      → IsUnlocked d s
      → is_safe d s database ≡ true
      → s.config.client_max_packet_size < 2 ^ 32
      → Sends d c s.config.client_max_packet_size (delete_request c (server_stream d) database)
      → Reads d c (result_ok d)
      → Reads d c (result_error d)
      → delete_db c (server_stream d) database (idle d s) ≡ (
        ok (d.remove_file (join s.config.databases_folder database) s.world).0,
        idle d (delete_file d database s).1,
      )
  unfolding delete_db
  delete_db-delete_file database s unlocked safe max sends ok_reads error_reads =
      let e = delete_request-dispatch (from_utf8_lossy sends.body) database s safe in
      let called =
        call-dispatch d c json_laws (bytes "DELETE_DB") (delete_fields database) s unlocked refl
          refl max sends
          (subst (λ (r : Reply d). Reads d c r.0) (sym e)
            (delete_reply (Reads d c) database s ok_reads error_reads)) in
      rw (called, e)
        (ap (λ b. (ok b, idle d (delete_file d database s).1)) (delete_shown database s))

  abbrev list_fields : List (Text × d.Value)
  list_fields = (bytes "cmd", d.string (bytes "LIST")) ∷ []

  -- the names that the server lists
  abbrev pub listed : Session d → List Text
  listed s = elim (d.read_dir s.world s.config.databases_folder) [
    | none ↦ []
    | some entries ↦ list_names d s.world s.config.databases_folder entries
  ]

  string_list-handle_list :
      (s : Session d) → string_list d.json (handle_list d s) (bytes "list") ≡ listed s
  unfolding handle_list
  string_list-handle_list s = string_list-object (bytes "list") (listed s)

  -- `list` at an unlocked server gives the names that the server lists, and changes nothing.
  pub list-list_names :
      (s : Session d)
      → IsUnlocked d s
      → s.config.client_max_packet_size < 2 ^ 32
      → Sends d c s.config.client_max_packet_size (list_request c (server_stream d))
      → Reads d c (handle_list d s)
      → list c (server_stream d) (idle d s) ≡ (ok (listed s), idle d s)
  unfolding list
  list-list_names s unlocked max sends reads =
      let e = list_request-dispatch (from_utf8_lossy sends.body) s in
      let called =
        call-dispatch d c json_laws (bytes "LIST") list_fields s unlocked refl refl max sends
          (subst (λ (r : Reply d). Reads d c r.0) (sym e) reads) in
      rw (called, e) (ap (λ names. (ok names, idle d s)) (string_list-handle_list s))
