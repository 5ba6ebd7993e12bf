-- ===== src/Connection/Messages.antt =====
-- `handle` of src/connection.rs on a stream of whole messages.
use sqlite_server_rs.Prelude.{
  ℕ, zero, suc, ◌+◌, ◌^◌, ◌%◌, ◌≤◌, ◌<◌, ◌≡◌, refl, ap, ◌∙◌, Bool, true, List, [], ◌∷◌, ◌++◌,
  append_assoc, append-nil, map, arith, Text, le→ltb, lt→ltb, length, length-append, All,
}
use sqlite_server_rs.Config.{Config}
use sqlite_server_rs.Frame.{
  frame, to_le_bytes, read_exact, from_le_bytes-to_le_bytes, read_exact-append, read_exact-frame,
}
use sqlite_server_rs.Rust.Utf8.{from_utf8_lossy}
use sqlite_server_rs.Store.{Deps}
use sqlite_server_rs.Session.{Session, new}
use sqlite_server_rs.Handler.{handle_request}
use sqlite_server_rs.Handler.Auth.{after, replies, request-authenticated}
use sqlite_server_rs.Connection.{
  Exit, Outcome, ended, went_on, response_body, stop, respond, read_body, round, handle_loop,
  handle,
}
use sqlite_server_rs.Connection.Refinement.{frames, bodies}

module _ (d : Deps) (write_ok : ℕ → Bool) where
  -- a message as `round` reads it
  round-frame :
      (n : ℕ) (body rest output : Text) (s : Session d)
      → length body < 2 ^ 32
      → round d write_ok n (frame body ++ rest) output s
        ≡ read_body d write_ok n (length body) (body ++ rest) output s
  unfolding round
  round-frame n body rest output s h =
      let fits : length body % 2 ^ 32 ≡ length body = omega arith in
      rw (read_exact-frame body rest, round)
        (ap (λ size. read_body d write_ok n size (body ++ rest) output s)
          (from_le_bytes-to_le_bytes (length body) ∙ fits))

  read_body-fits :
      (n : ℕ) (body rest output : Text) (s : Session d)
      → length body ≤ s.config.client_max_packet_size
      → read_body d write_ok n (length body) (body ++ rest) output s
        ≡ respond d write_ok n body rest output s
  unfolding read_body
  read_body-fits n body rest output s h = rw (le→ltb _ _ h, read_exact-append body rest)

  -- A first packet of more than the configured size, and of less than 4 GiB, ends the connection: the
  -- request in it is not handled, nothing is written, and what follows it is not read.
  pub large_packet_closes :
      (body rest : Text) (config : Config) (world : d.World)
      → config.client_max_packet_size < length body
      → length body < 2 ^ 32
      → handle d write_ok (frame body ++ rest) config world
        ≡ stop d write_ok Exit.too_large (new d config world) []
  unfolding handle handle_loop
  large_packet_closes body rest config world large h =
      let s : Session d = new d config world in
      let e : round d write_ok 0 (frame body ++ rest) [] s
          ≡ ended (stop d write_ok Exit.too_large s []) =
        round-frame 0 body rest [] s h
        ∙ (unfold read_body in rw (lt→ltb config.client_max_packet_size (length body) large)) in
      rw (e, handle_loop)

  respond-written :
      (n : ℕ) (buf rest output : Text) (s : Session d)
      → write_ok n ≡ true
      → respond d write_ok n buf rest output s
        ≡ went_on rest
            (output
              ++ frame (response_body d write_ok (handle_request d (from_utf8_lossy buf) s).0))
            (handle_request d (from_utf8_lossy buf) s).1
  unfolding respond
  respond-written n buf rest output s w = rw w

  pub round-message :
      (n : ℕ) (body rest output : Text) (s : Session d)
      → write_ok n ≡ true
      → length body ≤ s.config.client_max_packet_size
      → length body < 2 ^ 32
      → round d write_ok n (frame body ++ rest) output s
        ≡ went_on rest
            (output
              ++ frame (response_body d write_ok (handle_request d (from_utf8_lossy body) s).0))
            (handle_request d (from_utf8_lossy body) s).1
  round-message n body rest output s w fits h =
      round-frame n body rest output s h
      ∙ read_body-fits n body rest output s fits
      ∙ respond-written n body rest output s w

  round-nil :
      (n : ℕ) (output : Text) (s : Session d)
      → round d write_ok n [] output s ≡ ended (stop d write_ok Exit.closed s output)
  unfolding round read_exact
  round-nil n output s = refl

  abbrev pub AllFit : ℕ → List Text → Type 0
  AllFit max messages = All (λ (m : Text). length m ≤ max) messages

  -- what a client that sends these messages and closes its side gets
  abbrev answered_all : List Text → Text → Session d → Outcome d
  answered_all messages output s =
      stop d write_ok Exit.closed (after d (map from_utf8_lossy messages) s)
        (output ++ frames (bodies d write_ok (map from_utf8_lossy messages) s))

  handle_loop-messages :
      (messages : List Text) (fuel n : ℕ) (output : Text) (s : Session d)
      → ((k : ℕ) → write_ok k ≡ true)
      → AllFit s.config.client_max_packet_size messages
      → s.config.client_max_packet_size < 2 ^ 32
      → length messages < fuel
      → handle_loop d write_ok fuel n (frames messages) output s ≡ answered_all messages output s
  unfolding handle_loop after replies
  handle_loop-messages messages zero n output s w fits max h = absurd (omega arith)
  handle_loop-messages [] (suc fuel) n output s w fits max h =
      rw (round-nil n output s, handle_loop, append-nil)
  handle_loop-messages (m ∷ messages) (suc fuel) n output s w fits max h =
      let req : Text = from_utf8_lossy m in
      let s1 : Session d = (handle_request d req s).1 in
      let out : Text = frame (response_body d write_ok (handle_request d req s).0) in
      let same = (request-authenticated d req s).1 in
      let same_max : s1.config.client_max_packet_size ≡ s.config.client_max_packet_size =
        ap (λ (c : Config). c.client_max_packet_size) same in
      rw
        (
          round-message n m (frames messages) output s (w n) fits.0 (omega (arith, fits.0)),
          handle_loop,
        )
        (handle_loop-messages messages fuel (n + 1) (output ++ out) s1 w (rw same_max fits.1)
            (omega (arith, same_max)) (omega arith)
          ∙ ap (λ t. stop d write_ok Exit.closed (after d (map from_utf8_lossy messages) s1) t)
              (append_assoc output out
                (frames (bodies d write_ok (map from_utf8_lossy messages) s1))))

  length-frames : (messages : List Text) → length messages ≤ length (frames messages)
  unfolding frame to_le_bytes
  length-frames [] = omega arith
  length-frames (m ∷ messages) = omega (
    arith,
    length-frames messages,
    length-append m (frames messages),
    length-append (frame m) (frames messages),
    length-append (to_le_bytes (length m)) m,
  )

  -- A client that sends messages within the configured size, which is below 4 GiB, one after the other,
  -- and closes its side, while every write succeeds, has each of them handled in its order, and reads
  -- the frames of the responses in that order.
  pub handle-messages :
      (messages : List Text) (config : Config) (world : d.World)
      → ((k : ℕ) → write_ok k ≡ true)
      → AllFit config.client_max_packet_size messages
      → config.client_max_packet_size < 2 ^ 32
      → handle d write_ok (frames messages) config world
        ≡ stop d write_ok Exit.closed
            (after d (map from_utf8_lossy messages) (new d config world))
            (frames (bodies d write_ok (map from_utf8_lossy messages) (new d config world)))
  unfolding handle
  handle-messages messages config world w fits max =
      handle_loop-messages messages (suc (length (frames messages))) 0 [] (new d config world) w
        fits max (omega (arith, length-frames messages))
