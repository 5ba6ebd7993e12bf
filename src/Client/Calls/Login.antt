-- ===== src/Client/Calls/Login.antt =====
-- `connect_with_auth` of examples/rust/client.rs at the server.
use sqlite_server_rs.Prelude.{
  ℕ, ◌^◌, ◌≤◌, ◌<◌, ◌≡◌, refl, ap, ◌∙◌, true, false, Option, none, some, [], ◌∷◌, Text, bytes,
  text_eq, text_eq_refl, is_empty, ok, err, map_err, length, Bool-cases, inl, inr, if◌then◌else◌,
}
use sqlite_server_rs.Json.{last_value, str_field, JsonLaws}
use sqlite_server_rs.Rust.Utf8.{from_utf8_lossy}
use sqlite_server_rs.Config.{Config}
use sqlite_server_rs.Store.{Deps}
use sqlite_server_rs.Session.{Session, new}
use sqlite_server_rs.Handler.{
  Reply, handle_request, parse_request, answer, carries_password, result_ok, result_error,
}
use sqlite_server_rs.Connection.{response_body}
use sqlite_server_rs.Client.{ClientDeps}
use sqlite_server_rs.Client.Calls.{
  permission_denied, json_failed, call, says_ok, auth_request, authenticate, connect_with_auth,
}
use sqlite_server_rs.Client.Calls.Loopback.{
  idle, server_stream, always, response_text, call-handle_request,
}

module _ (d : Deps) (c : ClientDeps d.json) where
  -- the client can write the request in `max` bytes, and the server reads it back
  pub record Sends (max : ℕ) (request : d.Value) : Type 0 where
    pub body : Text
    pub to_vec : c.to_vec request ≡ ok body
    pub from_str : d.from_str (from_utf8_lossy body) ≡ ok request
    pub fits : length body ≤ max

  -- the server can write the reply in less than 4 GiB, and the client reads it back
  pub record Reads (reply : d.Value) : Type 0 where
    pub from_slice : c.from_slice (response_body d (always d) reply) ≡ ok reply
    pub small : length (response_body d (always d) reply) < 2 ^ 32

  -- A call gives the reply of the server, where it is read back.
  pub call-reply :
      (request reply : d.Value) (s s' : Session d)
      (sends : Sends s.config.client_max_packet_size request)
      → Reads reply
      → s.config.client_max_packet_size < 2 ^ 32
      → handle_request d (from_utf8_lossy sends.body) s ≡ (reply, s')
      → call c (server_stream d) request (idle d s) ≡ (ok reply, idle d s')
  call-reply request reply s s' sends reads max e =
      let small : length (response_text d sends.body s) < 2 ^ 32 =
        rw (ap (λ (r : Reply d). response_body d (always d) r.0) e) reads.small in
      call-handle_request d c request sends.body s sends.to_vec sends.fits max small
      ∙ ap
          (λ (r : Reply d).
            (map_err json_failed (c.from_slice (response_body d (always d) r.0)), idle d r.1))
          e
      ∙ ap (λ r. (map_err json_failed r, idle d s')) reads.from_slice

module _ (d : Deps) (c : ClientDeps d.json) (json_laws : JsonLaws d.json) where
  str_field-object :
      (key s : Text) → str_field d.json (d.object ((key, d.string s) ∷ [])) key ≡ some s
  unfolding str_field
  str_field-object key s =
      let here : last_value key ((key, d.string s) ∷ []) ≡ some (d.string s) =
        rw (text_eq_refl key) refl in
      ap
        (λ (o : Option d.Value). elim o as (λ _. Option Text) [ none ↦ none | some v ↦ d.as_str v ])
        (json_laws.get-object _ key ∙ here)
      ∙ json_laws.as_str-string s

  pub says_ok-object :
      (s : Text)
      → says_ok c (server_stream d) (d.object ((bytes "result", d.string s) ∷ []))
        ≡ text_eq s (bytes "ok")
  unfolding says_ok
  says_ok-object s = rw (str_field-object (bytes "result") s, says_ok) refl

  carries_password-auth_request :
      (password auth : Text)
      → carries_password d password (auth_request c (server_stream d) auth) ≡ text_eq auth password
  unfolding carries_password
  carries_password-auth_request password auth =
      rw (str_field-object (bytes "auth") auth, carries_password) refl

  -- The server's side of the login.
  handle_request-auth :
      (req auth : Text) (config : Config) (world : d.World)
      → is_empty config.auth ≡ false
      → d.from_str req ≡ ok (auth_request c (server_stream d) auth)
      → handle_request d req (new d config world) ≡ (
          if text_eq auth config.auth
          then (result_ok d, record (new d config world) { authenticated = true })
          else (result_error d, new d config world))
  unfolding handle_request parse_request answer
  handle_request-auth req auth config world set parsed =
      rw (parsed, handle_request, set, carries_password-auth_request config.auth auth) refl

  -- A client that connects with a password is let in, to an authenticated session, exactly when it is
  -- the password of the server, and is else refused, with the session as it was. The server has a
  -- password, and what the two sides write to one another is within the sizes and is read back.
  pub login :
      (config : Config) (world : d.World) (auth : Text)
      → is_empty config.auth ≡ false
      → is_empty auth ≡ false
      → config.client_max_packet_size < 2 ^ 32
      → Sends d c config.client_max_packet_size (auth_request c (server_stream d) auth)
      → Reads d c (result_ok d)
      → Reads d c (result_error d)
      → connect_with_auth c (server_stream d) auth (idle d (new d config world)) ≡ (
          if text_eq auth config.auth
          then (ok tt, idle d (record (new d config world) { authenticated = true }))
          else (err permission_denied, idle d (new d config world)))
  unfolding connect_with_auth authenticate
  login config world auth set given max sends ok_reads error_reads =
      let s : Session d = new d config world in
      let answer =
        handle_request-auth (from_utf8_lossy sends.body) auth config world set sends.from_str in
      elim (Bool-cases (text_eq auth config.auth)) [
        | inl right ↦
            let e : handle_request d (from_utf8_lossy sends.body) s
                ≡ (result_ok d, record s { authenticated = true }) =
              (rw right at answer) in
            rw
              (
                right,
                given,
                call-reply d c (auth_request c (server_stream d) auth) (result_ok d) s _ sends
                    ok_reads max e,
                says_ok-object (bytes "ok"),
              )
              refl
        | inr wrong ↦
            let e : handle_request d (from_utf8_lossy sends.body) s ≡ (result_error d, s) =
              (rw wrong at answer) in
            rw
              (
                wrong,
                given,
                call-reply d c (auth_request c (server_stream d) auth) (result_error d) s _ sends
                    error_reads max e,
                says_ok-object (bytes "error"),
              )
              refl
      ]
