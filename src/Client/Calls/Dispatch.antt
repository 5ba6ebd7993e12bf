-- ===== src/Client/Calls/Dispatch.antt =====
-- A call of examples/rust/client.rs with a command, at the server.
use sqlite_server_rs.Prelude.{
  ◌^◌, ◌<◌, ◌≡◌, refl, ap, ◌∙◌, ◌⊎◌, inl, inr, true, false, not, Option, none, some, List, Text,
  bytes, is_empty, ok, Bool-cases,
}
use sqlite_server_rs.Json.{last_value, str_field, JsonLaws}
use sqlite_server_rs.Rust.Utf8.{from_utf8_lossy}
use sqlite_server_rs.Store.{Deps}
use sqlite_server_rs.Session.{Session}
use sqlite_server_rs.Handler.{
  handle_request, parse_request, answer, carries_password, run_command, dispatch,
}
use sqlite_server_rs.Client.{ClientDeps}
use sqlite_server_rs.Client.Calls.{call}
use sqlite_server_rs.Client.Calls.Loopback.{idle, server_stream}
use sqlite_server_rs.Client.Calls.Login.{Sends, Reads, call-reply}

module _ (d : Deps) where
  -- no password is set, or the client has given it
  abbrev pub IsUnlocked : Session d → Type 0
  IsUnlocked s = (is_empty s.config.auth ≡ true) ⊎ (s.authenticated ≡ true)

  run_command-dispatch :
      (req cmd : Text) (request : d.Value) (s : Session d)
      → str_field d.json request (bytes "cmd") ≡ some cmd
      → run_command d req request s ≡ dispatch d cmd req request s
  unfolding run_command
  run_command-dispatch req cmd request s named = rw (named, run_command) refl

  -- A request with a command, and without a password, is dispatched.
  pub handle_request-dispatch :
      (req cmd : Text) (request : d.Value) (s : Session d)
      → IsUnlocked s
      → d.from_str req ≡ ok request
      → str_field d.json request (bytes "auth") ≡ none
      → str_field d.json request (bytes "cmd") ≡ some cmd
      → handle_request d req s ≡ dispatch d cmd req request s
  unfolding handle_request parse_request answer carries_password
  handle_request-dispatch req cmd request s unlocked parsed no_auth named =
      elim (Bool-cases (is_empty s.config.auth)) [
        | inl unset ↦
            rw (parsed, handle_request, unset) (run_command-dispatch req cmd request s named)
        | inr set ↦
            let inside : not s.authenticated ≡ false = elim unlocked [
              | inl e ↦ cc (e, set)
              | inr e ↦ ap not e
            ] in
            let no_password : carries_password d s.config.auth request ≡ false =
              rw (no_auth, carries_password) refl in
            rw (parsed, handle_request, set, no_password, inside)
              (run_command-dispatch req cmd request s named)
      ]

module _ (d : Deps) (c : ClientDeps d.json) (json_laws : JsonLaws d.json) where
  abbrev pub text_of : Option d.Value → Option Text
  text_of none = none
  text_of (some v) = d.as_str v

  text_of-elim :
      (o : Option d.Value)
      → (elim o as (λ _. Option Text) [ none ↦ none | some v ↦ d.as_str v ]) ≡ text_of o
  text_of-elim none = refl
  text_of-elim (some v) = refl

  pub str_field-fields :
      (key : Text) (fields : List (Text × d.Value))
      → str_field d.json (d.object fields) key ≡ text_of (last_value key fields)
  unfolding str_field
  str_field-fields key fields = rw (json_laws.get-object fields key, str_field) (text_of-elim _)

  -- A call with a command at an unlocked server gives the reply that the command is dispatched to.
  pub call-dispatch :
      (cmd : Text) (fields : List (Text × d.Value)) (s : Session d)
      → IsUnlocked d s
      → last_value (bytes "auth") fields ≡ none
      → last_value (bytes "cmd") fields ≡ some (d.string cmd)
      → s.config.client_max_packet_size < 2 ^ 32
      → (sends : Sends d c s.config.client_max_packet_size (d.object fields))
      → Reads d c (dispatch d cmd (from_utf8_lossy sends.body) (d.object fields) s).0
      → call c (server_stream d) (d.object fields) (idle d s) ≡ (
        ok (dispatch d cmd (from_utf8_lossy sends.body) (d.object fields) s).0,
        idle d (dispatch d cmd (from_utf8_lossy sends.body) (d.object fields) s).1,
      )
  call-dispatch cmd fields s unlocked no_auth named max sends reads =
      let req : Text = from_utf8_lossy sends.body in
      call-reply d c (d.object fields) (dispatch d cmd req (d.object fields) s).0 s
        (dispatch d cmd req (d.object fields) s).1 sends reads max
        (handle_request-dispatch d req cmd (d.object fields) s unlocked sends.from_str
          (str_field-fields (bytes "auth") fields ∙ ap text_of no_auth)
          (str_field-fields (bytes "cmd") fields ∙ ap text_of named ∙ json_laws.as_str-string cmd))
