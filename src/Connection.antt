-- ===== src/Connection.antt =====
-- src/connection.rs: `handle`. The stream is the bytes that the client sends before it closes its
-- side, and, for each response in turn, whether `write_all` succeeds. The permit of the query limiter
-- is in `Server`: it delays a request and changes nothing of what it does.
pub mod Rounds
pub mod Refinement
pub mod Messages
pub mod Locked
use mathlib.Core.Option
use sqlite_server_rs.Prelude.{
  ℕ, zero, suc, ◌+◌, Bool, Option, none, some, List, [], ◌∷◌, ◌++◌, Text, bytes, ltb, if◌then◌else◌,
  length,
}
use sqlite_server_rs.Config.{Config}
use sqlite_server_rs.Frame.{frame, from_le_bytes, read_exact}
use sqlite_server_rs.Rust.Utf8.{from_utf8_lossy}
use sqlite_server_rs.Store.{Deps}
use sqlite_server_rs.Session.{Session, new}
use sqlite_server_rs.Handler.{handle_request}

-- how the loop ends: the client closed its side, or within a message; a packet was too large; a
-- write failed; or the fuel of the model ran out
pub data Exit : Type 0 where
  closed too_large write_failed out_of_fuel : Exit

-- the end of a connection: the session and the bytes that were written
pub record Outcome (d : Deps) : Type 0 where
  pub exit : Exit
  pub session : Session d
  pub output : Text

module _ (d : Deps) (write_ok : ℕ → Bool) where
  -- `serde_json::to_string(&response).unwrap_or_else(|_| "{}".to_string())`
  abbrev pub response_body : d.Value → Text
  response_body response = Option.get_or (d.to_string response) (bytes "{}")

  abbrev pub stop : Exit → Session d → Text → Outcome d
  stop exit s output = record { exit = exit; session = s; output = output }

  -- a round that ends the loop, or what the next one starts from
  pub data Round : Type 0 where
    ended : Outcome d → Round
    went_on : (input output : Text) → Session d → Round

  -- the message has been read: the request is handled and the response written
  unfoldable pub respond : ℕ → Text → Text → Text → Session d → Round
  respond n buf rest output s =
      let (response, s') = handle_request d (from_utf8_lossy buf) s in
      let out = frame (response_body response) in
      if write_ok n
      then went_on rest (output ++ out) s'
      else ended (stop Exit.write_failed s' output)

  -- the header has been read
  unfoldable pub read_body : ℕ → ℕ → Text → Text → Session d → Round
  unfolding respond
  read_body n packet_size rest output s =
      if ltb s.config.client_max_packet_size packet_size
      then ended (stop Exit.too_large s output)
      else elim (read_exact packet_size rest) [
        | none ↦ ended (stop Exit.closed s output)
        | some (buf, rest') ↦ respond n buf rest' output s
      ]

  unfoldable pub round : ℕ → Text → Text → Session d → Round
  unfolding read_body
  round n input output s = elim (read_exact 4 input) [
    | none ↦ ended (stop Exit.closed s output)
    | some (header, rest) ↦ read_body n (from_le_bytes header) rest output s
  ]

  -- A round reads four bytes at least, so more rounds than there are bytes are enough. `n` counts the
  -- responses.
  unfoldable pub handle_loop : ℕ → ℕ → Text → Text → Session d → Outcome d
  unfolding round
  handle_loop zero n input output s = stop Exit.out_of_fuel s output
  handle_loop (suc fuel) n input output s = elim (round n input output s) [
    | ended outcome ↦ outcome
    | went_on input' output' s' ↦ handle_loop fuel (n + 1) input' output' s'
  ]

  unfoldable pub handle : Text → Config → d.World → Outcome d
  unfolding handle_loop
  handle input config world = handle_loop (suc (length input)) 0 input [] (new d config world)
