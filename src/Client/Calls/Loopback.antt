-- ===== src/Client/Calls/Loopback.antt =====
-- The client of examples/rust/client.rs on a stream whose other side is `handle` of
-- src/connection.rs. The server reads what has been written when the client waits for an answer.
use sqlite_server_rs.Prelude.{
  ℕ, ◌^◌, ◌%◌, ◌≤◌, ◌<◌, ◌≡◌, refl, sym, ap, ◌∙◌, Bool, true, Option, none, some, [], ◌++◌,
  append-nil, arith, Text, ok, map_err, length,
}
use sqlite_server_rs.Frame.{
  frame, to_le_bytes, read_exact, from_le_bytes-to_le_bytes, read_exact-append, read_exact-frame,
}
use sqlite_server_rs.Rust.Utf8.{from_utf8_lossy}
use sqlite_server_rs.Store.{Deps}
use sqlite_server_rs.Session.{Session}
use sqlite_server_rs.Handler.{handle_request}
use sqlite_server_rs.Connection.{ended, went_on, response_body, round}
use sqlite_server_rs.Connection.Messages.{round-message}
use sqlite_server_rs.Client.{ClientDeps}
use sqlite_server_rs.Client.Calls.{Stream, json_failed, send, recv, call}

module _ (d : Deps) where
  -- the server's side: the bytes that it has not read, those that the client has not read, and the
  -- state of the handler
  pub record Peer : Type 0 where
    pub sent : Text
    pub pending : Text
    pub session : Session d

  -- nothing is on its way
  abbrev pub idle : Session d → Peer
  idle s = record { sent = []; pending = []; session = s }

  abbrev pub always : ℕ → Bool
  always n = true

  -- a round of the server, if a whole message is there
  unfoldable pub serve : Peer → Peer
  serve p = elim (round d always 0 p.sent p.pending p.session) [
    | ended o ↦ p
    | went_on sent pending s ↦ record { sent = sent; pending = pending; session = s }
  ]

  -- a read of bytes that are there
  abbrev pub read_pending : ℕ → Peer → Option Text × Peer
  read_pending n p = elim (read_exact n p.pending) [
    | none ↦ (none, p)
    | some (buf, rest) ↦ (some buf, record p { pending = rest })
  ]

  unfoldable pub read : ℕ → Peer → Option Text × Peer
  unfolding serve
  read n p = elim (read_exact n p.pending) [
    | none ↦ read_pending n (serve p)
    | some (buf, rest) ↦ (some buf, record p { pending = rest })
  ]

  abbrev pub server_stream : Stream Peer
  server_stream = record {
    write_all = λ s p. (true, record p { sent = p.sent ++ s });
    flush = λ p. (true, p);
    read_exact = read;
  }

  -- the response to a request, as it is written
  abbrev pub response_text : Text → Session d → Text
  response_text body s = response_body d always (handle_request d (from_utf8_lossy body) s).0

  read_exact-whole : (r : Text) → read_exact (length r) r ≡ some (r, [])
  read_exact-whole r = ap (read_exact (length r)) (sym (append-nil r)) ∙ read_exact-append r []

  read_exact-header : (r : Text) → read_exact 4 (frame r) ≡ some (to_le_bytes (length r), r)
  read_exact-header r =
      ap (read_exact 4) (sym (append-nil (frame r)))
      ∙ read_exact-frame r []
      ∙ ap (λ t. some (to_le_bytes (length r), t)) (append-nil r)

  read-pending :
      (n : ℕ) (p : Peer) (buf rest : Text)
      → read_exact n p.pending ≡ some (buf, rest)
      → read n p ≡ (some buf, record p { pending = rest })
  unfolding read
  read-pending n p buf rest e = rw (e, read) refl

  read-served :
      (p q : Peer) (buf rest : Text)
      → p.pending ≡ []
      → serve p ≡ q
      → read_exact 4 q.pending ≡ some (buf, rest)
      → read 4 p ≡ (some buf, record q { pending = rest })
  unfolding read
  read-served p q buf rest empty e h =
      let none_there : read_exact 4 p.pending ≡ none =
        ap (read_exact 4) empty ∙ (unfold read_exact in refl) in
      rw (none_there, read, e, h, read_pending)
        (ap (λ (x : Peer). (some buf, record x { pending = rest })) e)

  module _ (c : ClientDeps d.json) where
    send-idle :
        (request : d.Value) (body : Text) (s : Session d)
        → c.to_vec request ≡ ok body
        → send c server_stream request (idle s)
          ≡ (ok tt, record { sent = frame body; pending = []; session = s })
    unfolding send frame
    send-idle request body s e = rw e refl

    -- the server answers a whole message
    serve-frame :
        (body : Text) (s : Session d)
        → length body ≤ s.config.client_max_packet_size
        → length body < 2 ^ 32
        → serve (record { sent = frame body; pending = []; session = s }) ≡ record {
          sent = [];
          pending = frame (response_text body s);
          session = (handle_request d (from_utf8_lossy body) s).1;
        }
    unfolding serve
    serve-frame body s fits small =
        let e = round-message d always 0 body [] [] s refl fits small in
        rw (sym (append-nil (frame body)), e, serve) refl

    recv-served :
        (p : Peer) (r : Text) (s : Session d)
        → p.pending ≡ []
        → serve p ≡ record { sent = []; pending = frame r; session = s }
        → length r < 2 ^ 32
        → recv c server_stream p ≡ (map_err json_failed (c.from_slice r), idle s)
    unfolding recv
    recv-served p r s empty e small =
        let q : Peer = record { sent = []; pending = frame r; session = s } in
        let header = read-served p q (to_le_bytes (length r)) r empty e (read_exact-header r) in
        let fits : length r % 2 ^ 32 ≡ length r = omega arith in
        let size = from_le_bytes-to_le_bytes (length r) ∙ fits in
        let body =
          read-pending (length r) (record { sent = []; pending = r; session = s }) r []
            (read_exact-whole r) in
        rw (header, size, body) refl

    -- A call of the client, at a server that waits for a request, gives what the client reads in the
    -- response that `handle_request` gives to the body of the request, and leaves the server waiting
    -- with the session after that, if the request is within the configured size, which is below 4 GiB,
    -- and the response is below 4 GiB.
    pub call-handle_request :
        (request : d.Value) (body : Text) (s : Session d)
        → c.to_vec request ≡ ok body
        → length body ≤ s.config.client_max_packet_size
        → s.config.client_max_packet_size < 2 ^ 32
        → length (response_text body s) < 2 ^ 32
        → call c server_stream request (idle s) ≡ (
          map_err json_failed (c.from_slice (response_text body s)),
          idle (handle_request d (from_utf8_lossy body) s).1,
        )
    unfolding call
    call-handle_request request body s e fits max small = rw (send-idle request body s e) (
        recv-served (record { sent = frame body; pending = []; session = s }) (response_text body s)
          (handle_request d (from_utf8_lossy body) s).1 refl (serve-frame body s fits (omega arith))
          small)
